-- ===== src/Sis/Transit.antt =====
-- A U_PDU on its way from sis_uni, through the two nodes, to sis_uni_ind of the other client.
use open_lib.Prelude.{
  ℕ, ◌+◌, ◌*◌, ◌%◌, ◌<◌, ◌≤◌, ◌≡◌, refl, ap, subst, ◌∙◌, true, false, ◌||◌, none, some, List, [],
  ◌∷◌, ◌++◌, Mem, at, arith, ◌==◌, ltb, ltb-false,
}
use open_lib.Prelude.Lists.{length}
use open_lib.Hiios.{HiPdu, Iov, ok, noerr, hi_checkmore, hi_add_to_reqs, wire, wire_len}
use open_lib.S5066.{DtsConn}
use open_lib.Crc.Detect.{SameBytes}
use open_lib.Dts.Send.{Sender}
use open_lib.Dts.Send.Unidata.{put_headers, dts_send_uni}
use open_lib.Dts.Receive.{Receiver, dts_decode}
use open_lib.Dts.Delivery.{IsIndication}
use open_lib.Dts.Service.{tx_mode_of, n_re_tx_of, dts_decode-dts_send_uni}
use open_lib.Sis.{Sis}
use open_lib.Sis.Unidata.{set_req, confirm, sis_uni, field_in_mem, sis_uni_ind}
use open_lib.Sis.Decode.{sis_primitive, sis_decode}
use open_lib.Sis.Framing.{decode-primitive}

-- The node as a connection sees it, as the sender of dts.c.
abbrev pub sender_of : Sis → DtsConn → Sender
sender_of st conn = record { conn = conn; free = st.free; sent = st.dts_sent }

abbrev pub u_pdu_len : HiPdu → ℕ
u_pdu_len req = req.m 15 * 256 + req.m 16

-- The service request asks for no confirmation of its own, once dts_send_uni has put its headers.
abbrev pub AsksNoConfirm : Sis → HiPdu → ℕ → Type 0
AsksNoConfirm st req now =
    let c = confirm st (put_headers req.m 17 st.sap now).0 in (c == 1 || c == 2) ≡ false

sis_uni-dts_send_uni :
    (st : Sis) (req : HiPdu) (now : ℕ) (conn : DtsConn) (tx : Sender)
    → st.dts ≡ some (some conn)
    → req.len ≡ u_pdu_len req + 17
    → AsksNoConfirm st req now
    → dts_send_uni (sender_of st conn) st.saptab st.sap now req.m (u_pdu_len req) 17
      ≡ ok (tx, (put_headers req.m 17 st.sap now).0)
    → sis_uni st req now
      ≡ ok (
        noerr,
        record st {
          io = set_req st.io (put_headers req.m 17 st.sap now).0;
          free = tx.free;
          dts = some (some tx.conn);
          dts_sent = tx.sent;
        },
      )
unfolding sis_uni
sis_uni-dts_send_uni st req now conn tx link size quiet sends =
    let long : ltb req.len 17 ≡ false = ground (arith, size) in
    let whole : (u_pdu_len req + 17 == req.len) ≡ true = ground (arith, size) in
    rw (long, whole, link, sends, quiet) refl

-- What sis_uni_ind is given for HMTP goes to smtp_send.
sis_uni_ind-smtp_send :
    (st : Sis) (req : HiPdu) (len : ℕ)
    → req.len ≡ 22 + len
    → req.m 6 % 16 ≡ 3
    → req.m 16 * 256 + req.m 17 ≡ len
    → req.m 18 * 256 + req.m 19 ≡ 0
    → req.m 20 * 256 + req.m 21 ≡ 0
    → sis_uni_ind st req
      ≡ ok (
        noerr,
        record st { hmtp = st.hmtp ++ ((record { iov_base = at req.m 22; iov_len = len }) ∷ []) },
      )
unfolding sis_uni_ind field_in_mem
sis_uni_ind-smtp_send st req len size dest u_len err miss =
    let long : ltb req.len 18 ≡ false = ground (arith, size) in
    let whole : (22 + len == req.len) ≡ true = ground (arith, size) in
    rw (long, u_len, err, miss, whole, dest) refl

sis_decode-IsIndication :
    (cl : Sis) (ind : HiPdu) (now : ℕ) (frame : Iov) (len : ℕ) (u_pdu : Mem)
    → IsIndication frame 3 len u_pdu
    → len ≤ 2176
    → SameBytes ind.m frame.iov_base 0 (22 + len)
    → ind.ap ≡ 22 + len
    → (cl' : Sis) × (u : Iov) × (sis_decode cl ind now ≡ ok (noerr, cl'))
      × (cl'.hmtp ≡ cl.hmtp ++ (u ∷ []))
      × (u.iov_len ≡ len)
      × ((i : ℕ) → i < len → u.iov_base i ≡ u_pdu i)
unfolding hi_checkmore hi_add_to_reqs sis_primitive
sis_decode-IsIndication cl ind now frame len u_pdu f small same all =
    let byte : (k : ℕ) → k < 22 + len → ind.m k ≡ frame.iov_base k =
      λ k lt. same k (omega arith) (omega (arith, lt)) in
    let req : HiPdu = record ind { len = 17 + len + 5 } in
    let is_ind : ind.m 5 ≡ 0x15 = byte 5 (omega arith) ∙ f.op in
    let st : Sis = record cl { io = record { cur_pdu = none; reqs = req ∷ cl.io.reqs } } in
    let handled =
      sis_uni_ind-smtp_send st req len (omega arith)
        (ap (λ b. b % 16) (byte 6 (omega arith)) ∙ f.dest_sap)
        (omega (arith, byte 16, byte 17, f.u_len)) (omega (arith, byte 18, byte 19, f.errored))
        (omega (arith, byte 20, byte 21, f.missing)) in
    (
      record st { hmtp = cl.hmtp ++ ((record { iov_base = at ind.m 22; iov_len = len }) ∷ []) },
      record { iov_base = at ind.m 22; iov_len = len },
      decode-primitive cl ind now (17 + len) (byte 0 (omega arith) ∙ f.preamble_high)
            (byte 1 (omega arith) ∙ f.preamble_low) (byte 2 (omega arith) ∙ f.version)
            (omega (arith, byte 3, f.s_len, small)) (omega (arith, byte 3, byte 4, f.s_len))
            (omega arith) (omega (arith, small)) (omega (arith, all))
          ∙ rw (ltb-false (17 + len + 5) ind.ap (omega (arith, all)), is_ind) handled,
      refl,
      refl,
      λ i lt. byte (22 + i) (omega (arith, lt)) ∙ f.bytes i lt,
    )

-- A S_UNIDATA_REQUEST for the SAP 3, HMTP, with all its bytes, at most 794 of them a U_PDU, that asks
-- for NONARQ transmission without repetition and for no confirmation. The first node has a DTS
-- connection and a free PDU. The second has two, an empty slot for the ID, whose low eight bits are
-- below 128, and a client bound to the SAP. Then sis_uni returns and has sent one D_PDU. When exactly
-- its bytes are in the PDU that is read, with nothing in front, dts_decode accepts it and sends this
-- client one frame. The client that has read exactly the bytes of that frame accepts it, and
-- sis_decode calls smtp_send, once, with the bytes and the length of the U_PDU.
pub sis_decode-sis_uni :
    (st : Sis) (req : HiPdu) (now : ℕ) (conn : DtsConn) (rx : Receiver) (fd : ℕ) (cl : Sis)
    (now' : ℕ)
    → let len = u_pdu_len req in
      req.m 6 % 16 ≡ 3
      → req.len ≡ len + 17
      → len ≤ 794
      → (tx_mode_of st.saptab st.sap req.m 17 == 1) ≡ false
      → n_re_tx_of st.saptab st.sap req.m 17 ≤ 1
      → AsksNoConfirm st req now
      → st.dts ≡ some (some conn)
      → 0 < length st.free
      → (conn.c_pdu_id + 1) % 256 < 128
      → rx.conn.nonarq_pdus ((conn.c_pdu_id + 1) % 256) ≡ none
      → 2 ≤ length rx.free
      → (rx.saptab 3).io ≡ some fd
      → (st' : Sis) × (d_pdu : List Iov) × (sis_uni st req now ≡ ok (noerr, st'))
        × (st'.dts_sent ≡ st.dts_sent ++ (d_pdu ∷ []))
        × ((d_req : HiPdu)
            → SameBytes d_req.m (wire d_pdu) 0 (wire_len d_pdu)
            → d_req.ap ≡ wire_len d_pdu
            → (rx' : Receiver) × (frame : Iov) × (dts_decode rx d_req ≡ ok (noerr, rx'))
              × (rx'.sent ≡ rx.sent ++ ((fd, frame ∷ []) ∷ []))
              × ((ind : HiPdu)
                  → SameBytes ind.m frame.iov_base 0 frame.iov_len
                  → ind.ap ≡ frame.iov_len
                  → (cl' : Sis) × (u : Iov) × (sis_decode cl ind now' ≡ ok (noerr, cl'))
                    × (cl'.hmtp ≡ cl.hmtp ++ (u ∷ []))
                    × (u.iov_len ≡ len)
                    × ((i : ℕ) → i < len → u.iov_base i ≡ req.m (17 + i))))
sis_decode-sis_uni st req now conn rx fd cl now' dest whole one mode once quiet link some_free small
      vacant spare user =
    let len = u_pdu_len req in
    let (tx, d_pdu, sends, sent, arrives) =
      dts_decode-dts_send_uni (sender_of st conn) st.saptab st.sap now req.m len 17 rx fd
        (omega arith) mode once some_free one small vacant spare
        (ap (λ s. (rx.saptab s).io) dest ∙ user) in
    (
      record st {
        io = set_req st.io (put_headers req.m 17 st.sap now).0;
        free = tx.free;
        dts = some (some tx.conn);
        dts_sent = tx.sent;
      },
      d_pdu,
      sis_uni-dts_send_uni st req now conn tx link whole quiet sends,
      sent,
      λ d_req bytes all_there.
          (let (rx', frame, all, sole, f) = arrives d_req bytes all_there in
            (
              rx',
              frame,
              all,
              sole,
              λ ind same size.
                  sis_decode-IsIndication cl ind now' frame len (at req.m 17)
                    (subst (λ s. IsIndication frame s len (at req.m 17)) dest f)
                    (omega (arith, one)) (λ k lo lt. same k lo (omega (arith, lt, f.size)))
                    (size ∙ f.size),
            )),
    )
