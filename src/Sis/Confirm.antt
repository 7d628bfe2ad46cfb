-- ===== src/Sis/Confirm.antt =====
-- The confirmation of a S_UNIDATA_REQUEST, which is made from the request after dts_send_uni has
-- written its headers into it.
use open_lib.Prelude.{
  ℕ, ◌+◌, ◌-◌, ◌*◌, ◌/◌, ◌%◌, ◌≡◌, refl, ap, subst, ◌∙◌, Bool-cases, inl, inr, true, false, ◌||◌,
  some, List, [], ◌∷◌, ◌++◌, Mem, store, at, arith, ltb, ◌==◌, if◌then◌else◌,
}
use open_lib.Hiios.{HiPdu, Iov, Result, ok, fault, ◌>>=◌, noerr, wire, wire_len}
use open_lib.Hiios.Outcome.{AllOk, if-AllOk}
use open_lib.S5066.{Saptab, DtsConn}
use open_lib.Dts.Send.{Sender, dts_send_uni_nonarq}
use open_lib.Dts.Send.Arq.{dts_send_uni_arq}
use open_lib.Dts.Send.Unidata.{ttl_field, put_headers, repeat_nonarq, dts_send_uni}
use open_lib.Dts.Service.{tx_mode_of, n_re_tx_of}
use open_lib.Sis.{Sis, confirm_size, sis_send_uni_ok}
use open_lib.Sis.Unidata.{set_req, confirm, sis_uni}
use open_lib.Sis.Ownership.{primitive, encode_start-free}
use open_lib.Sis.Transit.{sender_of, u_pdu_len}

-- A result that comes with the memory `m`.
abbrev With : Mem → Sender × Mem → Type 0
With m r = r.1 ≡ m

sent_once : (r : Result Sender) (m : Mem) → AllOk (With m) (r >>= λ s. ok (s, m))
unfolding AllOk
sent_once (ok s) m = refl
sent_once (fault e) m = tt

sent_again :
    (r : Result Sender) (f : Sender → Result Sender) (m : Mem)
    → AllOk (With m) (r >>= λ s. f s >>= λ s'. ok (s', m))
unfolding AllOk
sent_again (ok s) f m = sent_once (f s) m
sent_again (fault e) f m = tt

-- Whatever is sent, dts_send_uni leaves its headers in the request.
dts_send_uni-memory :
    (st : Sender) (saptab : Saptab) (sap now : ℕ) (m : Mem) (len d : ℕ)
    → AllOk (With (put_headers m d sap now).0) (dts_send_uni st saptab sap now m len d)
unfolding dts_send_uni
dts_send_uni-memory st saptab sap now m len d =
    let st1 : Sender = record st { conn = record st.conn { c_pdu_id = st.conn.c_pdu_id + 1 } } in
    let m1 = (put_headers m d sap now).0 in
    let hdr = (put_headers m d sap now).1 in
    let to = at m1 7 in
    let c_pdu = at m1 (d - hdr) in
    if-AllOk (With m1) (tx_mode_of saptab sap m d == 1) _ _
      (sent_once (dts_send_uni_arq st1 to (len + hdr) c_pdu) m1)
      (sent_again (dts_send_uni_nonarq st1 to (len + hdr) c_pdu)
        (λ st2. repeat_nonarq (n_re_tx_of saptab sap m d - 1) st2 to (len + hdr) c_pdu) m1)

-- What the two fields are, behind the headers.
put_headers-fields :
    (m : Mem) (sap now : ℕ)
    → let m1 = (put_headers m 17 sap now).0 in
      (ttl_field m 17 ≡ 0
        → (confirm_size m1 ≡ (if sap * 16 % 256 + m 6 % 16 == 0 then 0 else 100)) × (m1 11 ≡ m 11))
      × ((ttl_field m 17 == 0) ≡ false
          → (m1 15 * 256 + m1 16 ≡ (now + ttl_field m 17) % 65536) × (m1 11 ≡ 0))
unfolding put_headers
put_headers-fields m sap now = (λ e. rw e (ground arith, refl), λ e. rw e (omega arith, refl))

abbrev confirmation : HiPdu → Mem → List Iov
confirmation a req =
    let size = confirm_size req in
    let m0 = store (primitive a 0x16 (13 + size)) 6 (req 6 % 16) in
    let m1 = store (store (store (store m0 7 (req 7)) 8 (req 8)) 9 (req 9)) 10 (req 10) in
    record { iov_base = store (store m1 11 (size / 256 % 256)) 12 (size % 256); iov_len = 13 }
    ∷ record { iov_base = at req 13; iov_len = size }
    ∷ []

sis_send_uni_ok-free :
    (st : Sis) (req : Mem) (a : HiPdu) (rest : List HiPdu)
    → st.free ≡ a ∷ rest
    → sis_send_uni_ok st req
      ≡ ok (record st { free = rest; sent = st.sent ++ ((st.fd, confirmation a req) ∷ []) })
unfolding sis_send_uni_ok
sis_send_uni_ok-free st req a rest ef =
    rw (ef, encode_start-free a rest 0x16 (13 + confirm_size req)) refl

-- The delivery mode of the SAP.
abbrev pub mode_of_sap : Sis → ℕ
mode_of_sap st = (st.saptab st.sap).flags / 4 % 4

-- The delivery mode for a request with the byte `b` in its place.
abbrev mode_from : Sis → ℕ → ℕ
mode_from st b = let own = b / 4 % 4 in if own == 0 then mode_of_sap st else own

-- sis_uni returns. In the delivery modes 1 and 2 it has sent one S_UNIDATA_REQUEST_CONFIRM with `size`
-- bytes behind its header to the client, in the others nothing.
abbrev pub Confirms : Sis → HiPdu → ℕ → ℕ → ℕ → Type 0
Confirms st req now mode size =
    (st' : Sis) × (sis_uni st req now ≡ ok (noerr, st'))
    × ((mode == 1 || mode == 2) ≡ true
        → (frame : List Iov) × (st'.sent ≡ st.sent ++ ((st.fd, frame) ∷ []))
          × (wire frame 5 ≡ 0x16)
          × (wire frame 11 * 256 + wire frame 12 ≡ size)
          × (wire_len frame ≡ 13 + size))
    × ((mode == 1 || mode == 2) ≡ false → st'.sent ≡ st.sent)

module _ (st : Sis) (req : HiPdu) (now : ℕ) (conn : DtsConn) (tx : Sender) (m1 : Mem) (a : HiPdu)
    (rest : List HiPdu) (link : st.dts ≡ some (some conn)) (size : req.len ≡ u_pdu_len req + 17)
    (sends : dts_send_uni (sender_of st conn) st.saptab st.sap now req.m (u_pdu_len req) 17
      ≡ ok (tx, m1))
    (spare : tx.free ≡ a ∷ rest) where
  abbrev sent_on : Sis
  sent_on = record st {
    io = set_req st.io m1;
    free = tx.free;
    dts = some (some tx.conn);
    dts_sent = tx.sent;
  }

  small : confirm_size m1 / 256 % 256 % 256 * 256 + confirm_size m1 % 256 % 256 ≡ confirm_size m1
  small = ground arith

  sis_uni-Confirms : Confirms st req now (confirm st m1) (confirm_size m1)
  unfolding sis_uni
  sis_uni-Confirms =
      let long : ltb req.len 17 ≡ false = ground (arith, size) in
      let whole : (u_pdu_len req + 17 == req.len) ≡ true = ground (arith, size) in
      elim (Bool-cases (confirm st m1 == 1 || confirm st m1 == 2)) [
        | inl asked ↦ (
          record sent_on { free = rest; sent = st.sent ++ ((st.fd, confirmation a m1) ∷ []) },
          rw (long, whole, link, sends, asked)
              (ap (λ r. r >>= λ st2. ok (noerr, st2))
                (sis_send_uni_ok-free sent_on m1 a rest spare)),
          λ h. (confirmation a m1, refl, refl, small, ground arith),
          λ h. absurd (cc),
        )
        | inr quiet ↦
            (sent_on, rw (long, whole, link, sends, quiet) refl, λ h. absurd (cc), λ h. refl)
      ]

-- sis_uni for a request whose length fits the U_PDU's, with a DTS connection, when dts_send_uni
-- returns and leaves a free PDU. It returns, and sends one confirmation when the delivery mode is 1 or
-- 2, else none. Without a time to live, the delivery mode is that of the request, or of its SAP if it
-- has none; but 100 bytes are confirmed, whatever the U_PDU's size, or none when both SAPs are 0 in their
-- four bits. With a time to live, the delivery mode is that of the SAP, whatever the request asks for,
-- and the low sixteen bits of the time to die, but at most 100, are taken for the size.
pub sis_uni-put_headers :
    (st : Sis) (req : HiPdu) (now : ℕ) (conn : DtsConn) (tx : Sender) (m1 : Mem) (a : HiPdu)
    (rest : List HiPdu)
    → st.dts ≡ some (some conn)
    → req.len ≡ u_pdu_len req + 17
    → dts_send_uni (sender_of st conn) st.saptab st.sap now req.m (u_pdu_len req) 17 ≡ ok (tx, m1)
    → tx.free ≡ a ∷ rest
    → let ttl = ttl_field req.m 17 in
      let ttd = (now + ttl) % 65536 in
      (ttl ≡ 0
        → Confirms st req now
            (confirm st req.m)
            (if st.sap * 16 % 256 + req.m 6 % 16 == 0 then 0 else 100))
      × ((ttl == 0) ≡ false
          → Confirms st req now (mode_of_sap st) (if ltb 100 ttd then 100 else ttd))
unfolding AllOk
sis_uni-put_headers st req now conn tx m1 a rest link size sends spare =
    let left : m1 ≡ (put_headers req.m 17 st.sap now).0 =
      subst (AllOk (With (put_headers req.m 17 st.sap now).0)) sends
        (dts_send_uni-memory (sender_of st conn) st.saptab st.sap now req.m (u_pdu_len req) 17) in
    let (plain, timed) = put_headers-fields req.m st.sap now in
    let done = sis_uni-Confirms st req now conn tx m1 a rest link size sends spare in
    (
      λ e.
          subst
            (λ c. Confirms st req now c (if st.sap * 16 % 256 + req.m 6 % 16 == 0 then 0 else 100))
            (ap (λ b. mode_from st b) (ap (λ m. m 11) left ∙ (plain e).1))
            (subst (Confirms st req now (confirm st m1)) (ap confirm_size left ∙ (plain e).0) done),
      λ e.
          subst
            (λ c. Confirms st req now c (
              if ltb 100 ((now + ttl_field req.m 17) % 65536)
              then 100
              else (now + ttl_field req.m 17) % 65536))
            (ap (λ b. mode_from st b) (ap (λ m. m 11) left ∙ (timed e).1))
            (subst (Confirms st req now (confirm st m1))
              (ap confirm_size left ∙ ap (λ n. if ltb 100 n then 100 else n) (timed e).0) done),
    )
