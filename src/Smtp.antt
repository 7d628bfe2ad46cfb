-- ===== src/Smtp.antt =====
-- What both halves of smtp.c share: the states, the connection, and how lines are read.
pub mod Client
pub mod Server
pub mod EndOfMail
pub mod Stuck
pub mod Gateway
pub mod Dialog
pub mod Moves
use open_lib.Prelude.{
  ℕ, zero, suc, ◌+◌, ◌-◌, ◌*◌, ◌/◌, ◌%◌, Bool, true, false, not, ◌&&◌, ◌||◌, Option, none, some,
  List, [], ◌∷◌, ◌++◌, Mem, store, at, ltb, leb, ◌==◌, if◌then◌else◌,
}
use open_lib.Prelude.Lists.{length}
use open_lib.Hiios.{
  HiPdu, Iov, null_pointer, Result, ok, fault, ◌>>=◌, hi_pdu_alloc, Verdict, conn_close,
}
use open_lib.Sis.{sis_encode_start}

-- `io->ad.smtp.state`: the states of s5066.h, for the client and, from `in_start` on, the server.
pub data SmtpState : Type 0 where
  in_init in_ehlo in_rdy in_mail in_rcpt in_data in_send in_sent in_quit : SmtpState
  in_start in_main in_to in_more0 in_more1 in_more2 in_wait in_status in_end : SmtpState

-- A connection that speaks SMTP: its state, the PDU that is being read, `io->pair`, the primitive
-- in `uni_ind_hmtp`, the first SIS connection (`none` when there is none), whether its `pair` has been
-- set to this connection, the free PDUs, and what
-- was handed to `hi_send` for this connection and for its pair, oldest first.
pub record SmtpIo : Type 0 where
  pub state : SmtpState
  pub cur_pdu : HiPdu
  pub pair : Option ℕ
  pub uni_ind_hmtp : Option HiPdu
  pub sis : Option ℕ
  pub sis_paired : Bool
  pub free : List HiPdu
  pub sent : List (List Iov)
  pub to_pair : List (List Iov)

-- A text, as a buffer.
abbrev pub bytes_of : List ℕ → Mem
bytes_of [] i = 0
bytes_of (b ∷ bs) zero = b
bytes_of (b ∷ bs) (suc i) = bytes_of bs i

abbrev pub toupper : ℕ → ℕ
toupper c = if leb 97 c && leb c 122 then c - 32 else c

-- `p[0] = toupper(p[0])` up to `p[3]`
abbrev pub upper4 : Mem → ℕ → Mem
upper4 m p =
    let m1 = store (store m p (toupper (m p))) (p + 1) (toupper (m (p + 1))) in
    store (store m1 (p + 2) (toupper (m (p + 2)))) (p + 3) (toupper (m (p + 3)))

-- `memcmp(m + p, word, n) == 0`
abbrev pub starts : List ℕ → Mem → ℕ → Bool
starts [] m p = true
starts (c ∷ word) m p = m p == c && starts word m (p + 1)

abbrev pub is_eol : ℕ → Bool
is_eol c = c == 13 || c == 10

-- `for (; p < lim && !stop(*p); ++p)`, with `n` the bytes up to `lim`
unfoldable pub skip_to : (ℕ → Bool) → ℕ → Mem → ℕ → ℕ
skip_to stop zero m p = p
skip_to stop (suc n) m p = let rest = skip_to stop n m (p + 1) in if stop (m p) then p else rest

-- `CRLF_CHECK`: more bytes are wanted, the line is bad, or it ends in front of the offset.
pub data Crlf : Type 0 where
  crlf_more crlf_bad : Crlf
  crlf_past : ℕ → Crlf

unfoldable pub crlf_check : Mem → ℕ → ℕ → Crlf
crlf_check m p lim =
    if leb lim p
    then crlf_more
    else if m p == 13
    then (if p + 1 == lim
        then crlf_more
        else if m (p + 1) == 10
        then crlf_past (p + 2)
        else crlf_bad)
    else if m p == 10
    then crlf_past (p + 1)
    else crlf_bad

abbrev pub set_need : SmtpIo → ℕ → SmtpIo
set_need st n = record st { cur_pdu = record st.cur_pdu { need = n } }

-- `hi_sendf` to this connection, with the text that the format gives: without a free PDU it only
-- logs an error.
unfoldable pub hi_sendf : SmtpIo → List ℕ → SmtpIo
unfolding hi_pdu_alloc
hi_sendf st text = elim (hi_pdu_alloc st.free) [
  | none ↦ st
  | some (pdu, rest) ↦ record st {
    free = rest;
    sent = st.sent ++ ((record { iov_base = bytes_of text; iov_len = length text } ∷ []) ∷ []);
  }
]

-- `remote_station_addr` of s5066d.c
abbrev pub remote_station_addr : List ℕ
remote_station_addr = 0x61 ∷ 0x89 ∷ 0x00 ∷ 0x00 ∷ []

abbrev put_bytes : Mem → ℕ → List ℕ → Mem
put_bytes m p [] = m
put_bytes m p (b ∷ bs) = put_bytes (store m p b) (p + 1) bs

-- The header of the S_UNIDATA_REQUEST, for `len` bytes of HMTP.
unfoldable pub hmtp_header : Mem → ℕ → Mem
hmtp_header m len =
    let m1 = put_bytes (store m 6 3) 7 remote_station_addr in
    let m2 = store (store (store (store m1 11 0x20) 12 0x00) 13 0) 14 0 in
    store (store m2 15 (len / 256 % 256)) 16 (len % 256)

-- hmtp_send to `io->pair`; without a pair it ends in the null pointer's lock.
unfoldable pub hmtp_send : SmtpIo → ℕ → Mem → List ℕ → Result SmtpIo
unfolding sis_encode_start hmtp_header
hmtp_send st len d text = do
  let total = len + length text
  (resp, rest) ← sis_encode_start st.free 0x14 (17 + total)
  let header : Iov = record { iov_base = hmtp_header resp.m total; iov_len = 17 }
  let body : Iov = record { iov_base = d; iov_len = len }
  let tail : List Iov =
      if length text == 0
      then []
      else record { iov_base = bytes_of text; iov_len = length text } ∷ []
  elim st.pair [
    | none ↦ fault null_pointer
    | some fd ↦
        ok (record st { free = rest; to_pair = st.to_pair ++ ((header ∷ body ∷ tail) ∷ []) })
  ]
