-- ===== src/Dts/Receive.antt =====
-- The receiving half of dts.c: dts_data, which puts C_PDUs together, and dts_process_hdr and
-- dts_decode, which take D_PDUs off the stream.
use open_lib.Prelude.{
  ℕ, zero, suc, ◌+◌, ◌-◌, ◌*◌, ◌/◌, ◌%◌, ◌^◌, Bool, true, not, ◌&&◌, ◌||◌, Option, none, some, List,
  [], ◌∷◌, ◌++◌, Mem, store, at, memcpy, ltb, ◌==◌, if◌then◌else◌,
}
use open_lib.Hiios.{
  HiPdu, HiIo, Iov, core_dump, null_pointer, bad_index, buffer_overflow, Result, ok, fault, ◌>>=◌,
  hi_pdu_mem, alloc_or, hi_checkmore, hi_free_req, hi_add_to_reqs, Verdict, noerr, conn_close,
}
use open_lib.S5066.{Saptab, DtsConn, dts_min_pdu_size, sis_unidata_ind_min_hdr}
use open_lib.Errmac.{get_bit, set_bit}
use open_lib.Crc.{crc_16_s5066_batch, crc_32_s5066_batch}
use open_lib.Dts.Addr.{dts_dec_two_addr}

-- One DTS connection of the node, the thread's free PDUs, the SAP table, and what was handed to
-- `hi_send1` for the SIS connections, oldest first.
pub record Receiver : Type 0 where
  pub io : HiIo
  pub conn : DtsConn
  pub free : List HiPdu
  pub saptab : Saptab
  pub sent : List (ℕ × List Iov)

-- `DTS_SHB` and `DTS_SEG_C_PDU_SIZE`
abbrev pub dts_shb : Mem → ℕ → ℕ → ℕ
dts_shb m addr_size ix = m (dts_min_pdu_size + addr_size + ix)

abbrev pub dts_seg_c_pdu_size : Mem → ℕ → ℕ
dts_seg_c_pdu_size m addr_size = dts_shb m addr_size 0 % 4 * 256 + dts_shb m addr_size 1

-- A 16-bit field, high byte first.
abbrev pub field16 : Mem → ℕ → ℕ → ℕ
field16 m addr_size ix = dts_shb m addr_size ix * 256 + dts_shb m addr_size (ix + 1)

-- `for (i = c_pdu_offset; i < c_pdu_offset + seg_size; ++i) SET_BIT(rx_map, i, 1)`
unfoldable pub color_map : ℕ → Mem → ℕ → Mem
color_map zero map i = map
color_map (suc n) map i = color_map n (set_bit map i) (i + 1)

-- The scan of the map: is GET_BIT set for the `n` bits from `i` on? It stops at the first bit that
-- is not set: no segment goes past the 2182 bytes that a PDU can take, so that the scan stops within
-- `rx_map`, also for a C_PDU that is longer.
unfoldable pub scan_map : ℕ → Mem → ℕ → Bool
scan_map zero map i = true
scan_map (suc n) map i = get_bit map i && scan_map n map (i + 1)

-- Does the S_PDU header hold a TTD? `c_pdu[3] & 0x40`
abbrev pub has_ttd : Mem → Bool
has_ttd c_pdu = c_pdu 3 / 64 % 2 == 1

-- Where the SIS header starts: `h - pdu->m`
abbrev pub sis_start : Mem → ℕ
sis_start c_pdu = if has_ttd c_pdu then 2 else 0

-- How long the C_PCI and the S_PDU header are. The length of the U_PDU, which may be negative,
-- is what is left of the C_PDU.
abbrev pub s_pdu_hdr : Mem → ℕ
s_pdu_hdr c_pdu = if has_ttd c_pdu then 6 else 4

-- The S_UNIDATA_INDICATION header at `h`, for a C_PDU of `len` bytes at `m + 18`. The stores go in
-- the order of the source, and what they read of the C_PDU header they read at that point.
unfoldable pub sis_header : Mem → ℕ → ℕ → ℕ → ℕ → Mem → Mem
sis_header m h hdr len addr_size req =
    let body = 17 + len - hdr in
    let u_len = (len + 2 ^ 16 - hdr) % 2 ^ 16 in
    let c = sis_unidata_ind_min_hdr - 4 in
    let m0 = store m h 0x90 in
    let m1 = store m0 (h + 1) 0xeb in
    let m2 = store m1 (h + 2) 0x00 in
    let m3 = store m2 (h + 3) (body / 256 % 256) in
    let m4 = store m3 (h + 4) (body % 256) in
    let m5 = store m4 (h + 5) 0x15 in
    let m6 = store m5 (h + 6) (m5 (c + 1) * 16 % 256 + m5 (c + 2) % 16) in
    let m7 = dts_dec_two_addr addr_size req 6 m6 (h + 7) (h + 12) in
    let m8 = store m7 (h + 11) (m7 (c + 2) / 16 % 16) in
    let m9 = store m8 (h + 16) (u_len / 256 % 256) in
    let m10 = store m9 (h + 17) (u_len % 256) in
    store (store (store (store m10 (h + 19) 0) (h + 18) 0) (h + 21) 0) (h + 20) 0

abbrev pub put_slot : Receiver → ℕ → HiPdu → Receiver
put_slot st id p = record st {
  conn = record st.conn { nonarq_pdus = λ i. if i == id then some p else st.conn.nonarq_pdus i };
}

-- The delivery of a complete C_PDU `p` of slot `c_pdu_id`: to the connection that is bound to its
-- destination SAP, or to nobody. The slot keeps the PDU.
unfoldable pub deliver : Receiver → HiPdu → ℕ → ℕ → Mem → Receiver
unfolding sis_header
deliver st p c_pdu_id addr_size req =
    let c_pdu = at p.m (sis_unidata_ind_min_hdr - 4) in
    let sap = c_pdu 2 % 16 in
    let h = sis_start c_pdu in
    let hdr = s_pdu_hdr c_pdu in
    let m = sis_header p.m h hdr p.len addr_size req in
    let kept = put_slot st c_pdu_id (record p { m = m }) in
    let frame : Iov = record {
      iov_base = at m h;
      iov_len = sis_unidata_ind_min_hdr + p.len - hdr;
    } in
    elim (st.saptab sap).io [
      | none ↦ kept
      | some fd ↦ record kept { sent = st.sent ++ ((fd, frame ∷ []) ∷ []) }
    ]

-- The segment of `seg_size` bytes goes to its place in `p`, the map is coloured and scanned.
unfoldable pub take_segment : Receiver → HiPdu → ℕ → ℕ → ℕ → ℕ → Mem → Receiver
unfolding color_map scan_map deliver
take_segment st p id c_pdu_offset seg_size addr_size req =
    let m =
      memcpy p.m (sis_unidata_ind_min_hdr - 4 + c_pdu_offset) (at req (6 + addr_size + 9 + 2))
        seg_size in
    let map = color_map seg_size p.rx_map c_pdu_offset in
    let p' = record p { m = m; rx_map = map } in
    let st' = put_slot st id p' in
    if scan_map p'.len map 0 then deliver st' p' id addr_size req else st'

-- The case DTS_NONARQ behind the reading of the fields. `c_pdu_id` is a `char`, so that a value of
-- 128 or more stands for a negative index into `nonarq_pdus`. The copy must stay within `mem`.
abbrev pub place : Receiver → HiPdu → ℕ → ℕ → ℕ → ℕ → Mem → Result Receiver
place st p id c_pdu_offset seg_size addr_size req =
    if ltb p.len (c_pdu_offset + seg_size)
    then ok st
    else if ltb 0 seg_size && ltb hi_pdu_mem (sis_unidata_ind_min_hdr - 4 + c_pdu_offset + seg_size)
    then fault buffer_overflow
    else ok (take_segment st p id c_pdu_offset seg_size addr_size req)

unfoldable pub nonarq_segment : Receiver → ℕ → ℕ → ℕ → ℕ → ℕ → Mem → Result Receiver
nonarq_segment st id c_pdu_size c_pdu_offset seg_size addr_size req =
    let fresh = (do
      (p, free) ← alloc_or null_pointer st.free
      let p' = record p { len = c_pdu_size; rx_map = λ i. 0 }
      place (put_slot (record st { free = free }) id p') p' id c_pdu_offset seg_size addr_size
          req) in
    if not (ltb id 128) then fault bad_index else elim (st.conn.nonarq_pdus id) [
      | none ↦ fresh
      | some p ↦
          if not (p.len == c_pdu_size)
          then ok st
          else place st p id c_pdu_offset seg_size addr_size req
    ]

-- The case DTS_NONARQ
unfoldable pub dts_data_nonarq : Receiver → Mem → ℕ → Result Receiver
dts_data_nonarq st req addr_size =
    nonarq_segment st (dts_shb req addr_size 2) (field16 req addr_size 3) (field16 req addr_size 5)
      (dts_seg_c_pdu_size req addr_size) addr_size req

-- The other D_PDU types with data are only logged, and dts_process_hdr lets no more through.
unfoldable pub dts_data : Receiver → Mem → ℕ → Result Receiver
dts_data st req addr_size =
    let d_type = req 2 / 16 % 16 in
    if d_type == 0 || d_type == 2 || d_type == 4 || d_type == 8
    then ok st
    else if d_type == 7
    then dts_data_nonarq st req addr_size
    else fault core_dump

-- The size of the data, or `none` for the -1 of the source.
unfoldable pub dts_process_hdr : Mem → ℕ → ℕ → Option ℕ
dts_process_hdr req addr_size hdr_size =
    let d_type = req 2 / 16 % 16 in
    let size = dts_seg_c_pdu_size req addr_size in
    if d_type == 0 || d_type == 4
    then (if not (hdr_size == dts_min_pdu_size + 3 - 2) then none else some size)
    else if d_type == 2
    then (if ltb hdr_size (dts_min_pdu_size + 4 - 2) then none else some size)
    else if d_type == 7
    then (if ltb hdr_size (dts_min_pdu_size - 2 + 9) then none else some size)
    else if d_type == 8
    then (if not (hdr_size == dts_min_pdu_size + 9 - 2) then none else some size)
    else none

abbrev pub need_more : Receiver → HiPdu → ℕ → Result (Verdict × Receiver)
need_more st req n =
    ok (noerr, record st { io = record st.io { cur_pdu = some (record req { need = n }) } })

abbrev pub set_cur : Receiver → HiPdu → Receiver
set_cur st req = record st { io = record st.io { cur_pdu = some req } }

-- The check of the header checksum, and of the data checksum, in the received bytes.
unfoldable pub header_crc_ok : Mem → ℕ → ℕ → Bool
header_crc_ok m addr_size hdr_size =
    let p_crc = 2 + hdr_size + addr_size in
    let crc = crc_16_s5066_batch m 2 (p_crc - 2) in
    m p_crc == crc / 256 % 256 && m (p_crc + 1) == crc % 256

unfoldable pub data_crc_ok : Mem → ℕ → ℕ → Bool
data_crc_ok m c_pdu size =
    let p_crc = c_pdu + size in
    let crc = crc_32_s5066_batch m c_pdu size in
    m p_crc == crc / 2 ^ 24 % 256
    && m (p_crc + 1) == crc / 2 ^ 16 % 256
    && m (p_crc + 2) == crc / 2 ^ 8 % 256
    && m (p_crc + 3) == crc % 256

-- `dts_decode` on the PDU that is being read, `io->cur_pdu`.
unfoldable pub dts_decode : Receiver → HiPdu → Result (Verdict × Receiver)
dts_decode st req =
    let m = req.m in
    let addr_size = m 5 / 32 % 8 in
    let hdr_size = m 5 % 32 in
    let len = 2 + addr_size + hdr_size in
    let req1 = record req { len = len } in
    let refuse = (do
      (free, io, req2) ← hi_checkmore st.free st.io req1 dts_min_pdu_size
      ok (noerr, record st { free = hi_free_req free req2; io = io })) in
    let with_data : ℕ → Result (Verdict × Receiver) = λ size.
      let req2 = record req { len = len + (size + 4) } in
      let accept = (do
        (free, io, req3) ← hi_checkmore st.free st.io req2 dts_min_pdu_size
        st' ← dts_data (record st { free = free; io = hi_add_to_reqs io req3 }) m addr_size
        ok (noerr, st')) in
      if ltb req.ap req2.len
      then need_more st req2 (req2.len - req.ap)
      else if not (data_crc_ok m (2 + hdr_size + addr_size + 2) size)
      then ok (conn_close, set_cur st req2)
      else accept in
    if ltb req.ap dts_min_pdu_size
    then need_more st req (dts_min_pdu_size - req.ap)
    else if not (m 0 == 0x90) || not (m 1 == 0xeb)
    then ok (conn_close, st)
    else if ltb req.ap len
    then need_more st req1 (len - req.ap)
    else if not (header_crc_ok m addr_size hdr_size)
    then ok (conn_close, set_cur st req1)
    else elim (dts_process_hdr m addr_size hdr_size) [ none ↦ refuse | some size ↦ with_data size ]
