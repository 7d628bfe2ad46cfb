-- ===== src/Dts/Service.antt =====
-- A U_PDU on its way from dts_send_uni to the client of the other node.
use open_lib.Prelude.{
  ℕ, ◌+◌, ◌-◌, ◌/◌, ◌%◌, ◌≤◌, ◌<◌, ◌≡◌, refl, ap, ◌∙◌, false, none, some, List, [], ◌∷◌, ◌++◌,
  arith, Mem, at, ◌==◌, if◌then◌else◌,
}
use open_lib.Prelude.Lists.{length}
use open_lib.Hiios.{HiPdu, Iov, ok, noerr, wire, wire_len}
use open_lib.S5066.{Saptab}
use open_lib.Dts.Send.{Sender, dts_send_uni_nonarq}
use open_lib.Dts.Send.Unidata.{put_headers, repeat_nonarq, dts_send_uni}
use open_lib.Dts.Send.Headers.{put_headers_lem}
use open_lib.Dts.Receive.{Receiver, dts_decode}
use open_lib.Crc.Detect.{SameBytes}
use open_lib.Dts.Delivery.{IsIndication}
use open_lib.Dts.EndToEnd.{s_pdu_hdr-bytes, dts_decode-dts_send_uni_nonarq}

-- The transmission mode and the number of transmissions that dts_send_uni works out for a U_PDU at
-- `d` of the memory `m`.
abbrev pub tx_mode_of : Saptab → ℕ → Mem → ℕ → ℕ
tx_mode_of saptab sap m d =
    let own = m (d - 6) / 16 % 16 in if own == 0 then (saptab sap).tx_mode else own

abbrev pub n_re_tx_of : Saptab → ℕ → Mem → ℕ → ℕ
n_re_tx_of saptab sap m d =
    if m (d - 6) / 16 % 16 == 0 then (saptab sap).n_re_tx else m (d - 5) / 16 % 16

dts_send_uni-once :
    (st st' : Sender) (saptab : Saptab) (sap now : ℕ) (m : Mem) (len d : ℕ)
    → (tx_mode_of saptab sap m d == 1) ≡ false
    → n_re_tx_of saptab sap m d ≤ 1
    → let (m1, hdr) = put_headers m d sap now in
      dts_send_uni_nonarq
          (record st { conn = record st.conn { c_pdu_id = st.conn.c_pdu_id + 1 } })
          (at m1 7)
          (len + hdr)
          (at m1 (d - hdr))
        ≡ ok st'
      → dts_send_uni st saptab sap now m len d ≡ ok (st', m1)
unfolding dts_send_uni repeat_nonarq
dts_send_uni-once st st' saptab sap now m len d mode once runs =
    let none_left : n_re_tx_of saptab sap m d - 1 ≡ 0 = omega (arith, once) in
    rw (mode, runs, none_left) refl

-- A U_PDU of at most 794 bytes, with eleven bytes of a service request in front of it, that asks for
-- NONARQ transmission and for no repetition. The sender has a free PDU. The receiver has two, an
-- empty slot for the ID, whose low eight bits are below 128, and a client bound to the SAP that the
-- request names. Then dts_send_uni returns and has sent one D_PDU. When exactly its bytes are in the
-- PDU that is read, dts_decode accepts it, and hands this client exactly one indication, with the
-- U_PDU and its length.
pub dts_decode-dts_send_uni :
    (st : Sender) (saptab : Saptab) (sap now : ℕ) (m : Mem) (len d : ℕ) (rx : Receiver) (fd : ℕ)
    → 11 ≤ d
    → (tx_mode_of saptab sap m d == 1) ≡ false
    → n_re_tx_of saptab sap m d ≤ 1
    → 0 < length st.free
    → len ≤ 794
    → (st.conn.c_pdu_id + 1) % 256 < 128
    → rx.conn.nonarq_pdus ((st.conn.c_pdu_id + 1) % 256) ≡ none
    → 2 ≤ length rx.free
    → (rx.saptab (m (d - 11) % 16)).io ≡ some fd
    → (st' : Sender) × (d_pdu : List Iov) × (dts_send_uni st saptab sap now m len d
        ≡ ok (st', (put_headers m d sap now).0))
      × (st'.sent ≡ st.sent ++ (d_pdu ∷ []))
      × ((req : HiPdu)
          → SameBytes req.m (wire d_pdu) 0 (wire_len d_pdu)
          → req.ap ≡ wire_len d_pdu
          → (rx' : Receiver) × (frame : Iov) × (dts_decode rx req ≡ ok (noerr, rx'))
            × (rx'.sent ≡ rx.sent ++ ((fd, frame ∷ []) ∷ []))
            × IsIndication frame (m (d - 11) % 16) len (at m d))
dts_decode-dts_send_uni st saptab sap now m len d rx fd enough mode once some_free one small vacant
      spare user =
    let st1 : Sender = record st { conn = record st.conn { c_pdu_id = st.conn.c_pdu_id + 1 } } in
    let (m1, hdr) = put_headers m d sap now in
    let c = at m1 (d - hdr) in
    let (same, dest, own, u_pdu) = put_headers_lem m d sap now enough in
    let (_, four, six) = s_pdu_hdr-bytes c c refl in
    let to_user : (rx.saptab (c 2 % 16)).io ≡ some fd = ap (λ s. (rx.saptab s).io) dest ∙ user in
    let (st', d_pdu, runs, sent, arrives) =
      dts_decode-dts_send_uni_nonarq st1 (at m1 7) (len + hdr) c rx fd some_free
        (omega (arith, same, six, one)) (omega (arith, same)) small vacant spare to_user in
    (
      st',
      d_pdu,
      dts_send_uni-once st st' saptab sap now m len d mode once runs,
      sent,
      λ req bytes all_there.
          (let (rx', frame, all, one, ind) = arrives req bytes all_there in
            (
              rx',
              frame,
              all,
              one,
              record {
                size = omega (arith, ind.size, same);
                preamble_high = ind.preamble_high;
                preamble_low = ind.preamble_low;
                version = ind.version;
                s_len = omega (arith, ind.s_len, same);
                op = ind.op;
                dest_sap = ind.dest_sap ∙ dest;
                u_len = omega (arith, ind.u_len, same);
                errored = ind.errored;
                missing = ind.missing;
                bytes = λ i lt.
                    ind.bytes i (omega (arith, lt, same)) ∙ ap (λ h. c (h + i)) same ∙ u_pdu i;
              },
            )),
    )
