-- ===== src/Smtp/Server.antt =====
-- The server of smtp.c: it reads the commands of the SMTP client.
use open_lib.Prelude.{
  ℕ, zero, suc, ◌+◌, ◌-◌, ◌*◌, Bool, true, not, ◌&&◌, ◌||◌, Option, none, some, [], ◌∷◌, Mem, store,
  ltb, ◌==◌, if◌then◌else◌,
}
use open_lib.Hiios.{core_dump, null_pointer, Result, ok, fault, ◌>>=◌, Verdict, noerr, conn_close}
use open_lib.Smtp.{
  SmtpState, in_start, in_main, in_to, in_more0, in_more1, in_more2, in_wait, in_status, in_end,
  SmtpIo, toupper, upper4, starts, is_eol, skip_to, crlf_more, crlf_bad, crlf_past, crlf_check,
  set_need, hi_sendf, hmtp_send,
}

abbrev set_mem : SmtpIo → Mem → SmtpIo
set_mem st m = record st { cur_pdu = record st.cur_pdu { m = m } }

-- `p`, behind a command, is the offset that is read next, and `need` is set.
abbrev pub go_on : SmtpIo → SmtpState → ℕ → ℕ → SmtpIo
go_on st next p need = record st {
  state = next;
  cur_pdu = record st.cur_pdu { scan = p; need = need };
}

-- CRLF_CHECK at `p`, and what follows behind it.
abbrev checked : SmtpIo → ℕ → (ℕ → Result (Verdict × SmtpIo)) → Result (Verdict × SmtpIo)
checked st p k = elim (crlf_check st.cur_pdu.m p st.cur_pdu.ap) [
  | crlf_more ↦ ok (noerr, set_need st (1 + st.cur_pdu.ap))
  | crlf_bad ↦ ok (conn_close, st)
  | crlf_past q ↦ k q
]

-- `ad.smtp.skip_ehlo`, which nothing reads, is left out. A command in upper case stands at the start of the PDU. `HELO ` is asked of the same bytes.
unfoldable pub smtp_ehlo : SmtpIo → Result (Verdict × SmtpIo)
smtp_ehlo st =
    let req = st.cur_pdu in
    let st1 = set_mem st (upper4 req.m 0) in
    let m = st1.cur_pdu.m in
    let accept : ℕ → Result (Verdict × SmtpIo) = λ p.
      let st2 = hi_sendf st1 (
        50 ∷ 53 ∷ 48 ∷ 45 ∷ 66 ∷ 101 ∷ 97 ∷ 117 ∷ 116 ∷ 105 ∷ 102 ∷ 117 ∷ 108 ∷ 13 ∷ 10 ∷ 50 ∷ 53
        ∷ 48 ∷ 45 ∷ 80 ∷ 73 ∷ 80 ∷ 69 ∷ 76 ∷ 73 ∷ 78 ∷ 73 ∷ 78 ∷ 71 ∷ 13 ∷ 10 ∷ 50 ∷ 53 ∷ 48 ∷ 32
        ∷ 56 ∷ 45 ∷ 66 ∷ 73 ∷ 84 ∷ 32 ∷ 77 ∷ 73 ∷ 77 ∷ 69 ∷ 13 ∷ 10 ∷ []) in
      elim st2.sis [
        | none ↦ fault null_pointer
        | some fd ↦
            ok (noerr, go_on (record st2 { pair = some fd; sis_paired = true }) in_main p (p + 5))
      ] in
    if ltb req.ap 7
    then ok (noerr, set_need st (7 - req.ap))
    else if not (starts (69 ∷ 72 ∷ 76 ∷ 79 ∷ 32 ∷ []) m 0)
        && not (starts (72 ∷ 69 ∷ 76 ∷ 79 ∷ 32 ∷ []) m 0)
    then ok (conn_close, st1)
    else checked st1 (skip_to is_eol (req.ap - 5) m 5) accept

-- `QUIT` at the offset `p`.
unfoldable pub quit : SmtpIo → ℕ → Result (Verdict × SmtpIo)
quit st p =
    checked st (p + 4)
      (λ q. ok (conn_close, hi_sendf st (50 ∷ 50 ∷ 49 ∷ 32 ∷ 98 ∷ 121 ∷ 101 ∷ 13 ∷ 10 ∷ [])))

-- The address of a command that starts at `p`: up to a `>`, which must come before the line ends,
-- and the line's end.
abbrev is_gt_eol : ℕ → Bool
is_gt_eol c = c == 62 || is_eol c

unfoldable pub address : SmtpIo → ℕ → (ℕ → Result (Verdict × SmtpIo)) → Result (Verdict × SmtpIo)
address st p k =
    let req = st.cur_pdu in
    let q = skip_to is_gt_eol (req.ap - p) req.m p in
    if q == req.ap
    then ok (noerr, set_need st 1)
    else if not (req.m q == 62)
    then ok (conn_close, st)
    else checked st (q + 1) k

unfoldable pub smtp_mail_from : SmtpIo → Result (Verdict × SmtpIo)
unfolding quit address
smtp_mail_from st =
    let req = st.cur_pdu in
    let p = req.scan in
    let st1 = set_mem st (upper4 req.m p) in
    let st2 = set_mem st1 (upper4 st1.cur_pdu.m (p + 5)) in
    let accept : ℕ → Result (Verdict × SmtpIo) = λ q. ok (
      noerr,
      go_on (hi_sendf st2 (50 ∷ 53 ∷ 48 ∷ 32 ∷ 115 ∷ 111 ∷ 107 ∷ 13 ∷ 10 ∷ [])) in_to q (q + 5),
    ) in
    if ltb (req.ap - p) 5
    then ok (noerr, set_need st (5 - (req.ap - p)))
    else if starts (81 ∷ 85 ∷ 73 ∷ 84 ∷ []) st1.cur_pdu.m p
    then quit st1 p
    else if ltb (req.ap - p) 11
    then ok (noerr, set_need st1 (11 - (req.ap - p)))
    else if not (starts (77 ∷ 65 ∷ 73 ∷ 76 ∷ 32 ∷ 70 ∷ 82 ∷ 79 ∷ 77 ∷ 58 ∷ []) st2.cur_pdu.m p)
    then ok (conn_close, st2)
    else address st2 (p + 10) accept

-- The state stays behind a `RCPT TO`. Behind `DATA`, the line's end is left to be scanned.
unfoldable pub smtp_rcpt_to : SmtpIo → Result (Verdict × SmtpIo)
unfolding quit address
smtp_rcpt_to st =
    let req = st.cur_pdu in
    let p = req.scan in
    let st1 = set_mem st (upper4 req.m p) in
    let m = st1.cur_pdu.m in
    let st2 =
      set_mem st1 (store (store m (p + 5) (toupper (m (p + 5)))) (p + 6) (toupper (m (p + 6)))) in
    let data_seen : ℕ → Result (Verdict × SmtpIo) = λ q. ok (
      noerr,
      go_on
          (hi_sendf st1 (
            51 ∷ 53 ∷ 52 ∷ 32 ∷ 101 ∷ 110 ∷ 100 ∷ 32 ∷ 119 ∷ 105 ∷ 116 ∷ 104 ∷ 32 ∷ 46 ∷ 13 ∷ 10
            ∷ []))
          in_more1 (q - 1) (q + 2),
    ) in
    let accept : ℕ → Result (Verdict × SmtpIo) = λ q. ok (
      noerr,
      go_on (hi_sendf st2 (50 ∷ 53 ∷ 48 ∷ 32 ∷ 114 ∷ 111 ∷ 107 ∷ 13 ∷ 10 ∷ [])) st2.state q (q + 5),
    ) in
    if ltb (req.ap - p) 5
    then ok (noerr, set_need st (5 - (req.ap - p)))
    else if starts (81 ∷ 85 ∷ 73 ∷ 84 ∷ []) m p
    then quit st1 p
    else if starts (68 ∷ 65 ∷ 84 ∷ 65 ∷ []) m p
    then checked st1 (p + 4) data_seen
    else if ltb (req.ap - p) 12
    then ok (noerr, set_need st1 (12 - (req.ap - p)))
    else if not (starts (82 ∷ 67 ∷ 80 ∷ 84 ∷ 32 ∷ 84 ∷ 79 ∷ 58 ∷ []) st2.cur_pdu.m p)
    then ok (conn_close, st2)
    else address st2 (p + 8) accept

-- `for (; *p != '\n' && lim - p >= 3; ++p)`
unfoldable pub to_newline : ℕ → Mem → ℕ → ℕ → ℕ
to_newline zero m p lim = p
to_newline (suc n) m p lim =
    let rest = to_newline n m (p + 1) lim in if m p == 10 || ltb (lim - p) 3 then p else rest

-- Where the search for the end of the message comes to: behind the end, or at an offset from which
-- less than three bytes are left.
pub data Search : Type 0 where
  found stopped : ℕ → Search

-- The body of the outer loop from its head on. `look_for_dot` is the label, where the search of
-- SMTP_MORE1 starts. A round goes ahead by a byte at least, so as many rounds as there are bytes up
-- to `lim`, and one more, are enough.
unfoldable mutual
  pub find_end : ℕ → Mem → ℕ → ℕ → Search
  find_end zero m p lim = stopped p
  find_end (suc n) m p lim =
      let q = to_newline (lim - p) m p lim in
      let rest = look_for_dot n m (q + 1) lim in
      if ltb (lim - p) 3 then stopped p else if ltb (lim - q) 3 then stopped q else rest

  pub look_for_dot : ℕ → Mem → ℕ → ℕ → Search
  look_for_dot zero m p lim = stopped p
  look_for_dot (suc n) m p lim =
      let rest = find_end n m p lim in
      let later = find_end n m (p + 2) lim in
      if not (m p == 46 && is_eol (m (p + 1)))
      then rest
      else if m (p + 1) == 10
      then found (p + 2)
      else if p + 2 == lim
      then stopped (p + 2)
      else if not (m (p + 2) == 10)
      then later
      else found (p + 3)

-- The search of smtp_data. The other states are NEVERNEVER.
unfoldable pub data_search : SmtpState → ℕ → Mem → ℕ → ℕ → Option Search
unfolding find_end look_for_dot to_newline
data_search in_more0 n m p lim = some (find_end n m p lim)
data_search in_more1 n m p lim = some (look_for_dot n m p lim)
data_search _ n m p lim = none

-- Without the end, `need` is what is missing to three bytes.
unfoldable pub data_result : SmtpIo → Search → Result (Verdict × SmtpIo)
data_result st (found q) = hmtp_send st q st.cur_pdu.m (81 ∷ 85 ∷ 73 ∷ 84 ∷ 13 ∷ 10 ∷ []) >>= λ st'.
    ok (noerr, go_on st' in_wait q 0)
data_result st (stopped q) = ok (noerr, go_on st st.state (q - 1) (3 + q - st.cur_pdu.ap))

unfoldable pub smtp_data : SmtpIo → Result (Verdict × SmtpIo)
unfolding data_search data_result
smtp_data st =
    let req = st.cur_pdu in
    elim (data_search st.state (2 * (req.ap - req.scan) + 4) req.m req.scan req.ap) [
      | none ↦ fault core_dump
      | some s ↦ data_result st s
    ]

-- A state of the client is NEVERNEVER.
unfoldable pub smtp_decode_req : SmtpIo → Result (Verdict × SmtpIo)
unfolding smtp_ehlo smtp_mail_from smtp_rcpt_to smtp_data
smtp_decode_req st = elim st.state [
  | in_start ↦ smtp_ehlo st
  | in_main ↦ smtp_mail_from st
  | in_to ↦ smtp_rcpt_to st
  | in_more0 ↦ smtp_data st
  | in_more1 ↦ smtp_data st
  | in_more2 ↦ smtp_data st
  | in_wait ↦ smtp_mail_from st
  | in_status ↦ smtp_mail_from st
  | in_end ↦ smtp_mail_from st
  | _ ↦ fault core_dump
]
