-- ===== src/Smtp/Client.antt =====
-- The client of smtp.c: it reads the replies of the SMTP server.
use open_lib.Prelude.{
  ℕ, zero, suc, ◌+◌, ◌-◌, ◌^◌, ◌%◌, Bool, true, false, not, ◌&&◌, ◌||◌, Option, none, some, List,
  [], ◌∷◌, ◌++◌, Mem, at, ltb, leb, ◌==◌, if◌then◌else◌,
}
use open_lib.Hiios.{
  HiPdu, Iov, core_dump, null_pointer, Result, ok, fault, ◌>>=◌, hi_pdu_alloc, Verdict, noerr,
  conn_close,
}
use open_lib.Smtp.{
  SmtpState, in_init, in_ehlo, in_rdy, in_mail, in_rcpt, in_data, in_send, in_sent, in_quit, SmtpIo,
  bytes_of, upper4, starts, is_eol, skip_to, Crlf, crlf_more, crlf_bad, crlf_past, crlf_check,
  set_need, hi_sendf, hmtp_send,
}

-- The first line of the reply at `scan`, once its code has been accepted: more bytes are wanted, it
-- is bad, or it ends in front of an offset; with the byte behind the code.
abbrev pub reply_end : HiPdu → Crlf
reply_end resp =
    let p = resp.scan + 4 in
    let c = resp.m (resp.scan + 3) in
    if c == 32 || c == 45
    then crlf_check resp.m (skip_to is_eol (resp.ap - p) resp.m p) resp.ap
    else crlf_bad

abbrev pub is_last : HiPdu → Bool
is_last resp = resp.m (resp.scan + 3) == 32

-- `resp->need = (6 - n) + (p - resp->m)` for less than six bytes.
abbrev too_short : SmtpIo → Result (Verdict × SmtpIo)
too_short st =
    let resp = st.cur_pdu in ok (noerr, set_need st (6 - (resp.ap - resp.scan) + resp.scan))

-- `resp->need = 6 + p - resp->m` behind an action that has not returned.
abbrev pub prime : ℕ → Verdict × SmtpIo → Result (Verdict × SmtpIo)
prime n (noerr, st) = ok (noerr, set_need st n)
prime n (conn_close, st) = ok (conn_close, st)

-- The label `bad`: the whole PDU, as long as `resp->len` says, is reported to the HMTP side.
unfoldable pub bad_reply : SmtpIo → Result (Verdict × SmtpIo)
bad_reply st = elim st.pair [
  | none ↦ ok (conn_close, st)
  | some fd ↦ hmtp_send st st.cur_pdu.len st.cur_pdu.m [] >>= λ st'. ok (conn_close, st')
]

-- What the functions for replies have in common: the length, the code, the line, `bad`, and the
-- `need` behind them; `act` is what they do on the last line of the reply.
unfoldable pub wait_reply :
    (Mem → ℕ → Bool) → (SmtpIo → ℕ → Result (Verdict × SmtpIo)) → SmtpIo → Result (Verdict × SmtpIo)
unfolding bad_reply
wait_reply code act st =
    let resp = st.cur_pdu in
    let scanned : ℕ → SmtpIo = λ p. record st { cur_pdu = record resp { scan = p } } in
    if ltb (resp.ap - resp.scan) 6
    then too_short st
    else if not (code resp.m resp.scan)
    then bad_reply st
    else elim (reply_end resp) [
      | crlf_more ↦ ok (noerr, set_need st (1 + resp.ap))
      | crlf_bad ↦ bad_reply st
      | crlf_past p ↦
          (if is_last resp then act (scanned p) p else ok (noerr, scanned p)) >>= prime (6 + p)
    ]

unfoldable pub smtp_resp_wait_220_greet : SmtpIo → Result (Verdict × SmtpIo)
smtp_resp_wait_220_greet st =
    wait_reply (starts (50 ∷ 50 ∷ 48 ∷ []))
      (λ st1 p. ok (
        noerr,
        record (hi_sendf st1 (
            69 ∷ 72 ∷ 76 ∷ 79 ∷ 32 ∷ 111 ∷ 112 ∷ 101 ∷ 110 ∷ 53 ∷ 48 ∷ 54 ∷ 54 ∷ 46 ∷ 111 ∷ 114
            ∷ 103 ∷ 13 ∷ 10 ∷ [])) { state = in_rdy },
      ))
      st

-- The loop over the HMTP commands, `n` rounds: the offset behind the line with DATA, or the first
-- one from which less than seven bytes are left.
unfoldable pub find_data : ℕ → Mem → ℕ → ℕ → ℕ
find_data zero m q qlim = q
find_data (suc n) m q qlim =
    let rest = find_data n m (q + 1) qlim in
    let letter : ℕ → ℕ → Bool = λ i c. m (q + i) == c || m (q + i) == c + 32 in
    let hit =
      m q == 10 && letter 1 68 && letter 2 65 && letter 3 84 && letter 4 65 && is_eol (m (q + 5)) in
    let cr = m (q + 5) == 13 in
    if not (ltb (q + 6) qlim)
    then q
    else if hit && not (cr && (leb qlim (q + 7) || not (m (q + 6) == 10)))
    then (if cr then q + 7 else q + 6)
    else rest

-- Where the commands behind `EHLO` start, or `none` for `badhmtp`.
unfoldable pub skip_ehlo : Mem → ℕ → ℕ → Option ℕ
skip_ehlo m q qlim =
    let p = skip_to is_eol (qlim - (q + 5)) m (q + 5) in
    let r = if m p == 13 then p + 1 else p in
    if not (starts (69 ∷ 72 ∷ 76 ∷ 79 ∷ 32 ∷ []) m q)
    then none
    else if p == qlim
    then none
    else if m p == 13 && (r == qlim || not (m r == 10))
    then none
    else if r + 1 == qlim
    then none
    else some (r + 1)

unfoldable pub bad_hmtp : SmtpIo → Result (Verdict × SmtpIo)
bad_hmtp st = elim st.pair [
  | none ↦ ok (conn_close, st)
  | some fd ↦
      hmtp_send st 9 (bytes_of (53 ∷ 48 ∷ 48 ∷ 32 ∷ 66 ∷ 97 ∷ 100 ∷ 13 ∷ 10 ∷ [])) [] >>= λ st'.
      ok (conn_close, st')
]

-- `hi_send1` with the PDU that has been allocated, of the bytes of `m` from `from` to `until`. The
-- length is a size_t.
abbrev pub send_part :
    SmtpIo → Option (HiPdu × List HiPdu) → HiPdu → ℕ → ℕ → SmtpState → Result SmtpIo
send_part st none hmtp from until next = fault null_pointer
send_part st (some (pdu, rest)) hmtp from until next =
    let part : Iov = record {
      iov_base = at hmtp.m from;
      iov_len = (until + 2 ^ 64 - from) % 2 ^ 64;
    } in
    ok (record st {
      free = rest;
      sent = st.sent ++ ((part ∷ []) ∷ []);
      uni_ind_hmtp = some hmtp;
      state = next;
    })

-- The free PDUs when one has been taken, if there was one.
abbrev pub taken_from : List HiPdu → Option (HiPdu × List HiPdu) → List HiPdu
taken_from free none = free
taken_from free (some (pdu, rest)) = rest

unfoldable pub send_commands : SmtpIo → HiPdu → Result (Verdict × SmtpIo)
unfolding bad_hmtp skip_ehlo find_data
send_commands st hmtp =
    let pdu = hi_pdu_alloc st.free in
    let q = hmtp.scan in
    let m = upper4 hmtp.m q in
    let st1 : SmtpIo = record st { free = taken_from st.free pdu } in
    let st2 : SmtpIo = record st1 { uni_ind_hmtp = some (record hmtp { m = m }) } in
    if ltb (hmtp.ap - q) 25 then bad_hmtp st1 else elim (skip_ehlo m q hmtp.ap) [
      | none ↦ bad_hmtp st2
      | some payload ↦
          let until = find_data (hmtp.ap - payload) m payload hmtp.ap in
          send_part st1 pdu (record hmtp { m = m; scan = until }) payload until in_send >>= λ st'.
          ok (noerr, st')
    ]

-- The primitive must be there: `NEVER` only logs that it is not.
abbrev pub with_hmtp :
    (SmtpIo → HiPdu → Result (Verdict × SmtpIo)) → SmtpIo → Result (Verdict × SmtpIo)
with_hmtp f st = elim st.uni_ind_hmtp [ none ↦ ok (conn_close, st) | some hmtp ↦ f st hmtp ]

unfoldable pub smtp_resp_wait_250_from_ehlo : SmtpIo → Result (Verdict × SmtpIo)
smtp_resp_wait_250_from_ehlo st =
    wait_reply (starts (50 ∷ 53 ∷ 48 ∷ [])) (λ st1 p. with_hmtp send_commands st1) st

-- The loop that looks for the end of the message: the offset behind it, or the first one from which
-- less than three bytes are left.
unfoldable pub find_dot : ℕ → Mem → ℕ → ℕ → ℕ
find_dot zero m q qlim = q
find_dot (suc n) m q qlim =
    let rest = find_dot n m (q + 1) qlim in
    let cr = m (q + 2) == 13 in
    let hit = m q == 10 && m (q + 1) == 46 && is_eol (m (q + 2)) in
    if not (ltb (q + 2) qlim)
    then q
    else if hit && not (cr && (leb qlim (q + 3) || not (m (q + 3) == 10)))
    then (if cr then q + 4 else q + 3)
    else rest

-- The search starts one byte in front of the message, with the end of the line with DATA.
unfoldable pub send_message : SmtpIo → HiPdu → Result (Verdict × SmtpIo)
unfolding find_dot
send_message st hmtp =
    let pdu = hi_pdu_alloc st.free in
    let payload = hmtp.scan in
    let until = find_dot (hmtp.ap - (payload - 1)) hmtp.m (payload - 1) hmtp.ap in
    send_part st pdu hmtp payload until in_sent >>= λ st'. ok (noerr, st')

abbrev pub is_sent : SmtpState → Bool
is_sent in_sent = true
is_sent _ = false

-- Behind a 250, `next_state` is the state as it is, which is SMTP_SENT only if the connection is.
unfoldable pub smtp_resp_wait_354_from_data : SmtpIo → Result (Verdict × SmtpIo)
smtp_resp_wait_354_from_data st =
    let is_354 = starts (51 ∷ 53 ∷ 52 ∷ []) st.cur_pdu.m st.cur_pdu.scan in
    wait_reply (λ m p. starts (51 ∷ 53 ∷ 52 ∷ []) m p || starts (50 ∷ 53 ∷ 48 ∷ []) m p)
      (λ st1 p. if is_354 || is_sent st.state then with_hmtp send_message st1 else ok (noerr, st1))
      st

unfoldable pub smtp_resp_wait_250_msg_sent : SmtpIo → Result (Verdict × SmtpIo)
smtp_resp_wait_250_msg_sent st =
    wait_reply (starts (50 ∷ 53 ∷ 48 ∷ []))
      (λ st1 p. (do
        st2 ←
            hmtp_send st1 p st1.cur_pdu.m
              (50 ∷ 50 ∷ 49 ∷ 32 ∷ 103 ∷ 111 ∷ 111 ∷ 100 ∷ 98 ∷ 121 ∷ 101 ∷ 13 ∷ 10 ∷ [])
        ok (noerr, record (hi_sendf st2 (81 ∷ 85 ∷ 73 ∷ 84 ∷ 13 ∷ 10 ∷ [])) { state = in_quit })))
      st

unfoldable pub smtp_resp_wait_221_goodbye : SmtpIo → Result (Verdict × SmtpIo)
smtp_resp_wait_221_goodbye st =
    let resp = st.cur_pdu in
    let next : ℕ → SmtpIo = λ p. record st { cur_pdu = record resp { scan = p; need = 6 + p } } in
    let closed : ℕ → SmtpIo =
      λ p. record st { cur_pdu = record resp { scan = p }; state = in_init } in
    if ltb (resp.ap - resp.scan) 6
    then too_short st
    else if not (starts (50 ∷ 50 ∷ 49 ∷ []) resp.m resp.scan)
    then ok (conn_close, st)
    else elim (reply_end resp) [
      | crlf_more ↦ ok (noerr, set_need st (1 + resp.ap))
      | crlf_bad ↦ ok (conn_close, st)
      | crlf_past p ↦ if is_last resp then ok (conn_close, closed p) else ok (noerr, next p)
    ]

-- A state of the server is NEVERNEVER.
unfoldable pub dispatch : SmtpState → SmtpIo → Result (Verdict × SmtpIo)
dispatch in_init st = smtp_resp_wait_220_greet st
dispatch in_ehlo st = smtp_resp_wait_250_from_ehlo st
dispatch in_rdy st = smtp_resp_wait_250_from_ehlo st
dispatch in_mail st = smtp_resp_wait_354_from_data st
dispatch in_rcpt st = smtp_resp_wait_354_from_data st
dispatch in_data st = smtp_resp_wait_354_from_data st
dispatch in_send st = smtp_resp_wait_354_from_data st
dispatch in_sent st = smtp_resp_wait_250_msg_sent st
dispatch in_quit st = smtp_resp_wait_221_goodbye st
dispatch _ st = fault core_dump

unfoldable pub smtp_decode_resp : SmtpIo → Result (Verdict × SmtpIo)
unfolding dispatch
smtp_decode_resp st = dispatch st.state st
