-- ===== src/Sis/Decode.antt =====
-- sis_primitive and sis_decode of sis.c.
use open_lib.Prelude.{
  ℕ, ◌+◌, ◌-◌, ◌*◌, ◌^◌, Bool, not, ◌&&◌, ◌||◌, ◌⊎◌, inl, inr, some, List, [], ◌∷◌, Mem, ltb, leb,
  ◌==◌, if◌then◌else◌,
}
use open_lib.Hiios.{
  HiPdu, core_dump, bad_index, Result, ok, fault, ◌>>=◌, hi_pdu_mem, alloc_or, hi_checkmore,
  hi_free_req, hi_add_to_reqs, Verdict, noerr, conn_close,
}
use open_lib.S5066.{sis_min_pdu_size, sis_max_pdu_size}
use open_lib.Sis.{Sis}
use open_lib.Sis.Bind.{sis_bind, sis_unbind, sis_bind_ok, sis_bind_rej, sis_unbind_ind}
use open_lib.Sis.HardLink.{
  sis_hle, sis_hlt, sis_hl_ok, sis_hl_rej, sis_hlt_ok, sis_hl_ind, sis_hla, sis_hlr,
}
use open_lib.Sis.Unidata.{sis_uni, sis_uni_ind}

-- `hi_free_req_fe` for the request that was added last.
unfoldable pub hi_free_req_fe : Sis → HiPdu → Sis
hi_free_req_fe st req =
    let rest : List HiPdu = elim st.io.reqs [ [] ↦ [] | (r ∷ reqs) ↦ reqs ] in
    record st { free = hi_free_req st.free req; io = record st.io { reqs = rest } }

-- `hi_free_req_fe` frees the request of a primitive that has no handler.
unfoldable pub sis_primitive : Sis → HiPdu → ℕ → Result (Verdict × Sis)
unfolding hi_free_req_fe
sis_primitive st req now =
    let op = req.m 5 in
    if op == 0x01
    then sis_bind st req
    else if op == 0x02
    then sis_unbind st req
    else if op == 0x03
    then sis_bind_ok st req
    else if op == 0x04
    then sis_bind_rej st req
    else if op == 0x05
    then sis_unbind_ind st req
    else if op == 0x06
    then sis_hle st req
    else if op == 0x07
    then sis_hlt st req
    else if op == 0x08
    then sis_hl_ok st req
    else if op == 0x09
    then sis_hl_rej st req
    else if op == 0x0a
    then sis_hlt_ok st req
    else if op == 0x0b
    then sis_hl_ind st req
    else if op == 0x0c
    then sis_hla st req
    else if op == 0x0d
    then sis_hlr st req
    else if op == 0x14
    then sis_uni st req now
    else if op == 0x15
    then sis_uni_ind st req
    else if leb 0x0e op && leb op 0x1b
    then ok (noerr, hi_free_req_fe st req)
    else ok (conn_close, st)

abbrev pub with_cur : Sis → HiPdu → Sis
with_cur st req = record st { io = record st.io { cur_pdu = some req } }

-- A length with the high bit set becomes a negative `int`, -k, since `req->m[3]` is a `char`, and
-- passes both checks. With the 5 that are added it is negative still, or at most 4. A negative
-- length lets hi_checkmore copy from in front of the memory.
abbrev pub sis_length : Mem → ℕ ⊎ ℕ
sis_length m =
    let v = m 3 * 256 + m 4 in
    if ltb (m 3) 128
    then inl (v + sis_min_pdu_size)
    else if ltb (v + sis_min_pdu_size) (2 ^ 16)
    then inr (2 ^ 16 - (v + sis_min_pdu_size))
    else inl (v + sis_min_pdu_size - 2 ^ 16)

abbrev pub too_long : Mem → Bool
too_long m =
    let v = m 3 * 256 + m 4 in
    ltb (m 3) 128
    && (ltb (sis_max_pdu_size - sis_min_pdu_size) v || ltb hi_pdu_mem (v + sis_min_pdu_size))

-- On the PDU that is being read, `io->cur_pdu`. What returns in between leaves `len` as it was set
-- last, which is read only behind the next assignment; the model does not set it there.
unfoldable pub sis_decode : Sis → HiPdu → ℕ → Result (Verdict × Sis)
sis_decode st req now =
    let m = req.m in
    let n = req.ap in
    let complete : ℕ → Result (Verdict × Sis) = λ len. (do
      let req1 = record req { len = len }
      (free, io, req2) ← hi_checkmore st.free st.io req1 sis_min_pdu_size
      let st1 = record st { free = free; io = io }
      (if len == sis_min_pdu_size
          then ok (noerr, record st1 { free = hi_free_req free req2 })
          else sis_primitive (record st1 { io = hi_add_to_reqs io req2 }) req2 now)) in
    let below : Result (Verdict × Sis) = (do
      (req', free) ← alloc_or core_dump st.free
      fault bad_index) in
    if ltb n sis_min_pdu_size
    then ok (noerr, with_cur st (record req { need = sis_min_pdu_size - n }))
    else if not (m 0 == 0x90) || not (m 1 == 0xeb) || not (m 2 == 0)
    then ok (conn_close, st)
    else if too_long m
    then ok (conn_close, st)
    else elim (sis_length m) [
      | inl len ↦
          if ltb n len
          then ok (noerr, with_cur st (record req { need = len - n }))
          else complete len
      | inr k ↦ below
    ]
