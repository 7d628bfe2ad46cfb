-- ===== src/Sis/Unidata.antt =====
-- The unidata primitives of sis.c, towards the DTS layer and from it.
use open_lib.Prelude.{
  ℕ, ◌+◌, ◌*◌, ◌/◌, ◌%◌, not, ◌||◌, none, some, [], ◌∷◌, ◌++◌, Mem, at, ltb, ◌==◌, if◌then◌else◌,
}
use open_lib.Hiios.{
  HiPdu, HiIo, null_pointer, bad_index, Result, ok, fault, ◌>>=◌, hi_pdu_mem, Verdict, noerr,
  conn_close,
}
use open_lib.S5066.{DtsConn}
use open_lib.Dts.Send.{Sender}
use open_lib.Dts.Send.Unidata.{dts_send_uni}
use open_lib.Sis.{Sis, sis_send_uni_ok, sis_len_check2}

-- The request that was added last has the memory `m`.
abbrev pub set_req : HiIo → Mem → HiIo
set_req io m = elim io.reqs [
  | [] ↦ io
  | (req ∷ reqs) ↦ record io { reqs = (record req { m = m }) ∷ reqs }
]

-- The confirmation that the request asks for in what is now its delivery mode, or else its SAP.
abbrev pub confirm : Sis → Mem → ℕ
confirm st m = let own = m 11 / 4 % 4 in if own == 0 then (st.saptab st.sap).flags / 4 % 4 else own

-- At the time `now`.
unfoldable pub sis_uni : Sis → HiPdu → ℕ → Result (Verdict × Sis)
unfolding dts_send_uni sis_send_uni_ok
sis_uni st req now =
    let len = req.m 15 * 256 + req.m 16 in
    let send : DtsConn → Result (Verdict × Sis) = λ conn. (do
      let tx : Sender = record { conn = conn; free = st.free; sent = st.dts_sent }
      (tx', m) ← dts_send_uni tx st.saptab st.sap now req.m len 17
      let st1 = record st {
        io = set_req st.io m;
        free = tx'.free;
        dts = some (some tx'.conn);
        dts_sent = tx'.sent;
      }
      let c = confirm st1 m
      st2 ← (if c == 1 || c == 2 then sis_send_uni_ok st1 m else ok st1)
      ok (noerr, st2)) in
    sis_len_check2 st req 12 (
      if not (len + 17 == req.len) then ok (conn_close, st) else elim st.dts [
        | none ↦ ok (noerr, st)
        | some c ↦ elim c [ none ↦ fault null_pointer | some conn ↦ send conn ]
      ])

-- A 16-bit field, which must stand within the memory of the PDU.
unfoldable pub field_in_mem : Mem → ℕ → Result ℕ
field_in_mem m d = if ltb (d + 1) hi_pdu_mem then ok (m d * 256 + m (d + 1)) else fault bad_index

-- Only what is for the SAP 3, HMTP, has a taker, smtp_send.
unfoldable pub sis_uni_ind : Sis → HiPdu → Result (Verdict × Sis)
unfolding field_in_mem
sis_uni_ind st req =
    let len = req.m 16 * 256 + req.m 17 in
    sis_len_check2 st req 13 (do
      n_in_err ← field_in_mem req.m 18
      n_no_send ← field_in_mem req.m (20 + 4 * n_in_err)
      let d = 22 + 4 * n_in_err + 4 * n_no_send
      (if not (d + len == req.len)
          then ok (conn_close, st)
          else if req.m 6 % 16 == 3
          then ok (
            noerr,
            record st {
              hmtp = st.hmtp ++ ((record { iov_base = at req.m d; iov_len = len }) ∷ []);
            },
          )
          else ok (noerr, st)))
