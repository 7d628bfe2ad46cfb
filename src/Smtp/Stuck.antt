-- ===== src/Smtp/Stuck.antt =====
-- Where the decoders of smtp.c ask for no more than is there: hi_read calls a decoder again, without
-- a read, as long as `need` is not 0 and not more than the bytes of the PDU.
use open_lib.Prelude.{
  ℕ, zero, suc, ◌+◌, ◌-◌, ◌*◌, ◌≤◌, ◌<◌, ◌≡◌, refl, ap, sym, subst, [], ◌∷◌, some, ◌⊎◌, inl, inr,
  Bool, not, ◌&&◌, true, false, Mem, arith, ltb, lt→ltb, ltb→lt, eqb_iff, ◌==◌, if◌then◌else◌,
}
use open_lib.Hiios.{ok, ◌>>=◌, noerr}
use open_lib.Smtp.{
  SmtpState, in_init, in_ehlo, in_rdy, in_mail, in_rcpt, in_data, in_send, in_sent, in_quit,
  in_more0, in_more1, in_wait, SmtpIo, set_need, is_eol, hmtp_send,
}
use open_lib.Smtp.Client.{
  wait_reply, smtp_resp_wait_220_greet, smtp_resp_wait_250_from_ehlo, smtp_resp_wait_354_from_data,
  smtp_resp_wait_250_msg_sent, smtp_resp_wait_221_goodbye, dispatch, smtp_decode_resp,
}
use open_lib.Smtp.EndOfMail.{to_newline-between, IsAnswer, search-IsAnswer}
use open_lib.Smtp.Server.{
  Search, found, stopped, find_end, look_for_dot, to_newline, go_on, data_search, data_result,
  smtp_data,
}

-- The states of the client.
abbrev pub is_client : SmtpState → Bool
is_client in_init = true
is_client in_ehlo = true
is_client in_rdy = true
is_client in_mail = true
is_client in_rcpt = true
is_client in_data = true
is_client in_send = true
is_client in_sent = true
is_client in_quit = true
is_client _ = false

dispatch-short :
    (s : SmtpState) (st : SmtpIo)
    → is_client s ≡ true
    → ltb (st.cur_pdu.ap - st.cur_pdu.scan) 6 ≡ true
    → dispatch s st
      ≡ ok (noerr, set_need st (6 - (st.cur_pdu.ap - st.cur_pdu.scan) + st.cur_pdu.scan))
unfolding dispatch smtp_resp_wait_220_greet smtp_resp_wait_250_from_ehlo
    smtp_resp_wait_354_from_data smtp_resp_wait_250_msg_sent smtp_resp_wait_221_goodbye wait_reply
dispatch-short in_init st c h = rw h refl
dispatch-short in_ehlo st c h = rw h refl
dispatch-short in_rdy st c h = rw h refl
dispatch-short in_mail st c h = rw h refl
dispatch-short in_rcpt st c h = rw h refl
dispatch-short in_data st c h = rw h refl
dispatch-short in_send st c h = rw h refl
dispatch-short in_sent st c h = rw h refl
dispatch-short in_quit st c h = rw h refl
dispatch-short _ st c h = absurd (ground arith)

-- In every state of the client, with three, four or five bytes of a reply behind `scan`,
-- smtp_decode_resp asks for a number of bytes that is not 0 and not above the number that is there,
-- changes nothing else, and when it is called again it changes nothing at all.
pub smtp_decode_resp-stuck :
    (st : SmtpIo)
    → is_client st.state ≡ true
    → st.cur_pdu.scan + 3 ≤ st.cur_pdu.ap
    → st.cur_pdu.ap < st.cur_pdu.scan + 6
    → (need : ℕ) × (0 < need)
      × (need ≤ st.cur_pdu.ap)
      × (smtp_decode_resp st ≡ ok (noerr, set_need st need))
      × (smtp_decode_resp (set_need st need) ≡ ok (noerr, set_need st need))
unfolding smtp_decode_resp
smtp_decode_resp-stuck st c lo hi =
    let need = 6 - (st.cur_pdu.ap - st.cur_pdu.scan) + st.cur_pdu.scan in
    let short : ltb (st.cur_pdu.ap - st.cur_pdu.scan) 6 ≡ true =
      lt→ltb (st.cur_pdu.ap - st.cur_pdu.scan) 6 (omega arith) in
    (
      need,
      omega arith,
      omega arith,
      dispatch-short st.state st c short,
      dispatch-short st.state (set_need st need) c short,
    )

-- A search that stops has less than three bytes up to the end.
abbrev Stops : Search → ℕ → Type 0
Stops (found q) lim = Unit {0}
Stops (stopped q) lim = (lim < q + 3) × (q ≤ lim + 1)

if-Stops :
    (b : Bool) (x y : Search) (lim : ℕ)
    → (b ≡ true → Stops x lim)
    → (b ≡ false → Stops y lim)
    → Stops (if b then x else y) lim
if-Stops true x y lim h k = h refl
if-Stops false x y lim h k = k refl

search-Stops :
    (n : ℕ) (m : Mem) (lim : ℕ)
    → ((p : ℕ) → p ≤ lim + 1 → 2 * (lim - p) + 2 ≤ n → Stops (find_end n m p lim) lim)
      × ((p : ℕ) → p < lim → 2 * (lim - p) + 3 ≤ n → Stops (look_for_dot n m p lim) lim)
unfolding find_end look_for_dot
search-Stops zero m lim = (λ p h f. absurd (omega arith), λ p h f. absurd (omega arith))
search-Stops (suc n) m lim =
    let (ends, dots) = search-Stops n m lim in
    (
      λ p h f.
          let q = to_newline (lim - p) m p lim in
          if-Stops (ltb (lim - p) 3) _ _ lim
            (λ e. let lt = ltb→lt (lim - p) 3 e in (omega arith, omega arith))
            (λ far.
              let more : 3 ≤ lim - p = ground (arith, far) in
              let (lo, hi) = to_newline-between (lim - p) m p lim (omega arith) in
              if-Stops (ltb (lim - q) 3) _ _ lim
                (λ e. let lt = ltb→lt (lim - q) 3 e in (omega (arith, hi, lt), omega (arith, hi)))
                (λ far'.
                  let more' : 3 ≤ lim - q = ground (arith, far') in
                  dots (q + 1) (omega (arith, more')) (omega (arith, lo, more')))),
      λ p h f.
          if-Stops (not (m p == 46 && is_eol (m (p + 1)))) _ _ lim
            (λ e. ends p (omega arith) (omega arith))
            (λ e1.
              if-Stops (m (p + 1) == 10) _ _ lim (λ e. tt)
                (λ e2.
                  if-Stops (p + 2 == lim) _ _ lim
                    (λ e. let eq = (eqb_iff (p + 2) lim).0 e in (omega arith, omega arith))
                    (λ e3.
                      if-Stops (not (m (p + 2) == 10)) _ _ lim
                        (λ e. ends (p + 2) (omega arith) (omega arith)) (λ e4. tt)))),
    )

-- The connection behind a search that has stopped at `q`.
abbrev pub waiting : SmtpIo → ℕ → SmtpIo
waiting st q = go_on st st.state (q - 1) (3 + q - st.cur_pdu.ap)

-- Whether the search starts at the beginning of a line.
abbrev pub at_line : SmtpState → Bool
at_line in_more1 = true
at_line _ = false

-- The outcome of either search.
abbrev pub EndsOrWaits : SmtpIo → Bool → Type 0
EndsOrWaits st first =
    let req = st.cur_pdu in
    ((q : ℕ) × IsAnswer first req.m req.scan req.ap (found q)
      × (smtp_data st ≡ (
          hmtp_send st q req.m (81 ∷ 85 ∷ 73 ∷ 84 ∷ 13 ∷ 10 ∷ []) >>= λ st'.
          ok (noerr, go_on st' in_wait q 0))))
    ⊎ ((q : ℕ) × IsAnswer first req.m req.scan req.ap (stopped q)
        × (smtp_data st ≡ ok (noerr, waiting st q))
        × (0 < (waiting st q).cur_pdu.need)
        × ((waiting st q).cur_pdu.need ≤ req.ap))

data-cases :
    (st : SmtpIo) (first : Bool) (s : Search)
    → 4 ≤ st.cur_pdu.ap
    → data_search st.state
        (2 * (st.cur_pdu.ap - st.cur_pdu.scan) + 4)
        st.cur_pdu.m
        st.cur_pdu.scan
        st.cur_pdu.ap
      ≡ some s
    → Stops s st.cur_pdu.ap
    → IsAnswer first st.cur_pdu.m st.cur_pdu.scan st.cur_pdu.ap s
    → EndsOrWaits st first
unfolding smtp_data data_result
data-cases st first (found q) enough e stops answer = inl (q, answer, rw (smtp_data, e) refl)
data-cases st first (stopped q) enough e stops answer =
    inr (q, answer, rw (smtp_data, e) refl, omega (arith, stops.0), omega (arith, stops.1))

-- In the states that look for the end of a message, with at least four bytes there and `scan` in
-- front of the last of them, smtp_data does one of two things. It finds the first line that is a dot
-- alone, hands all up to its end to hmtp_send with a QUIT behind it, and when that returns waits for
-- the reply and wants no more bytes. Or no such line ends among the bytes that are there; then it only moves `scan`, and asks
-- for a number of bytes that is not 0 and not above the number that is there. A line starts behind a
-- newline, and in SMTP_MORE1 at `scan` too.
pub smtp_data-stuck :
    (st : SmtpIo)
    → (st.state ≡ in_more0) ⊎ (st.state ≡ in_more1)
    → st.cur_pdu.scan < st.cur_pdu.ap
    → 4 ≤ st.cur_pdu.ap
    → EndsOrWaits st (at_line st.state)
unfolding data_search
smtp_data-stuck st (inl e) inside enough =
    let req = st.cur_pdu in
    let fuel = 2 * (req.ap - req.scan) + 4 in
    subst (EndsOrWaits st) (ap at_line (sym e)) (
      data-cases st false (find_end fuel req.m req.scan req.ap) enough
        (ap (λ s. data_search s fuel req.m req.scan req.ap) e)
        ((search-Stops fuel req.m req.ap).0 req.scan (omega arith) (omega arith))
        ((search-IsAnswer fuel req.m req.ap).0 req.scan (omega arith) (omega arith)))
smtp_data-stuck st (inr e) inside enough =
    let req = st.cur_pdu in
    let fuel = 2 * (req.ap - req.scan) + 4 in
    subst (EndsOrWaits st) (ap at_line (sym e)) (
      data-cases st true (look_for_dot fuel req.m req.scan req.ap) enough
        (ap (λ s. data_search s fuel req.m req.scan req.ap) e)
        ((search-Stops fuel req.m req.ap).1 req.scan inside (omega arith))
        ((search-IsAnswer fuel req.m req.ap).1 req.scan inside (omega arith)))
