-- ===== src/Sis.antt =====
-- The SIS layer, sis.c: its state, and the functions that send SIS primitives.
pub mod Bind
pub mod HardLink
pub mod Unidata
pub mod Decode
pub mod Ownership
pub mod Framing
pub mod Confirm
pub mod Transit
pub mod Handshake
use open_lib.Prelude.{
  ℕ, ◌+◌, ◌-◌, ◌*◌, ◌/◌, ◌%◌, Option, List, [], ◌∷◌, ◌++◌, Mem, store, at, ltb, if◌then◌else◌, not,
  ◌==◌,
}
use open_lib.Hiios.{HiPdu, HiIo, Iov, core_dump, Result, ok, ◌>>=◌, alloc_or, Verdict, conn_close}
use open_lib.S5066.{Saptab, DtsConn}

-- The node as the SIS connection `fd` sees it: the connection's reading state and `ad.sap`, the
-- thread's free PDUs, the SAP table, the first DTS connection (`none` when `prototab` has no specs
-- for DTS, `some none` when the specs have no connection), what was handed to `hi_send` for the
-- DTS connection and for each SIS connection, and the calls of smtp_send, oldest first.
pub record Sis : Type 0 where
  pub fd : ℕ
  pub io : HiIo
  pub sap : ℕ
  pub free : List HiPdu
  pub saptab : Saptab
  pub dts : Option (Option DtsConn)
  pub dts_sent : List (List Iov)
  pub sent : List (ℕ × List Iov)
  pub hmtp : List Iov

-- `SPRIM_TLEN(x)` for a struct x of that size: the five bytes in front and the struct.
abbrev pub sprim_tlen : ℕ → ℕ
sprim_tlen size = 6 + size - 1

abbrev pub sismtu : ℕ
sismtu = 200

abbrev pub sisconfirm_max : ℕ
sisconfirm_max = 100

unfoldable pub sis_encode_start : List HiPdu → ℕ → ℕ → Result (HiPdu × List HiPdu)
sis_encode_start free op len = do
  (resp, rest) ← alloc_or core_dump free
  let m0 = store (store (store resp.m 0 0x90) 1 0xeb) 2 0x00
  let m1 = store (store (store m0 3 ((len - 5) / 256 % 256)) 4 ((len - 5) % 256)) 5 op
  ok (record resp { m = m1; len = len; ap = resp.ap + len }, rest)

-- `hi_send` to this connection, and with the rest of the free PDUs.
abbrev pub hi_send : Sis → List HiPdu → HiPdu → Sis
hi_send st rest resp = record st {
  free = rest;
  sent = st.sent ++ ((st.fd, record { iov_base = resp.m; iov_len = resp.len } ∷ []) ∷ []);
}

unfoldable pub sis_send_bind : Sis → ℕ → ℕ → ℕ → Result Sis
sis_send_bind st sap rank svc_type = do
  (resp, rest) ← sis_encode_start st.free 0x01 (sprim_tlen 4)
  let m0 = store resp.m 6 (sap * 16 % 256 + rank % 16)
  let m = store (store m0 7 (svc_type / 16 % 256)) 8 (svc_type * 16 % 256)
  ok (hi_send st rest (record resp { m = m }))

unfoldable pub sis_send_bind_rej : Sis → ℕ → Result Sis
sis_send_bind_rej st reason = do
  (resp, rest) ← sis_encode_start st.free 0x04 (sprim_tlen 2)
  ok (hi_send st rest (record resp { m = store resp.m 6 reason }))

unfoldable pub sis_send_bind_ok : Sis → ℕ → ℕ → Result Sis
sis_send_bind_ok st sap mtu = do
  (resp, rest) ← sis_encode_start st.free 0x03 (sprim_tlen 4)
  let m0 = store resp.m 6 (sap * 16 % 256)
  let m = store (store m0 7 (mtu / 256 % 256)) 8 (mtu % 256)
  ok (hi_send st rest (record resp { m = m }))

unfoldable pub sis_send_unbind_ind : Sis → ℕ → Result Sis
sis_send_unbind_ind st res = do
  (resp, rest) ← sis_encode_start st.free 0x05 (sprim_tlen 2)
  ok (hi_send st rest (record resp { m = store resp.m 6 res }))

-- `MIN(sisconfirm_max, ntohs(unidata_req.size_of_pdu))`
abbrev pub confirm_size : Mem → ℕ
confirm_size req =
    let size = req 15 * 256 + req 16 in if ltb sisconfirm_max size then sisconfirm_max else size

-- The header of the confirmation is followed by `size` bytes of the request, from the confirmation's
-- own header length on.
unfoldable pub sis_send_uni_ok : Sis → Mem → Result Sis
sis_send_uni_ok st req = do
  let size = confirm_size req
  let len = sprim_tlen 8
  (resp, rest) ← sis_encode_start st.free 0x16 (len + size)
  let m0 = store resp.m 6 (req 6 % 16)
  let m1 = store (store (store (store m0 7 (req 7)) 8 (req 8)) 9 (req 9)) 10 (req 10)
  let m = store (store m1 11 (size / 256 % 256)) 12 (size % 256)
  let frame =
      record { iov_base = m; iov_len = len } ∷ record { iov_base = at req len; iov_len = size } ∷ []
  ok (record st { free = rest; sent = st.sent ++ ((st.fd, frame) ∷ []) })

-- `SIS_LEN_CHECK` and `SIS_LEN_CHECK2`, with what follows when the check holds.
abbrev pub sis_len_check : Sis → HiPdu → ℕ → Result (Verdict × Sis) → Result (Verdict × Sis)
sis_len_check st req size k = if not (req.len == sprim_tlen size) then ok (conn_close, st) else k

abbrev pub sis_len_check2 : Sis → HiPdu → ℕ → Result (Verdict × Sis) → Result (Verdict × Sis)
sis_len_check2 st req size k = if ltb req.len (sprim_tlen size) then ok (conn_close, st) else k
