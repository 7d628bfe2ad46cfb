-- ===== src/Dts/Send.antt =====
-- The sending half of dts.c.
pub mod Arq
pub mod Unidata
pub mod Segments
pub mod Dumps
pub mod Headers
use open_lib.Prelude.{
  ℕ, zero, suc, ◌+◌, ◌-◌, ◌*◌, ◌/◌, ◌%◌, ◌^◌, List, [], ◌∷◌, ◌++◌, Mem, store, at, ltb, ◌==◌,
  if◌then◌else◌,
}
use open_lib.Hiios.{
  HiPdu, Iov, Fault, core_dump, Result, ok, fault, out_of_fuel, ◌>>=◌, ◌>>◌, assertop, alloc_or,
}
use open_lib.S5066.{DtsConn, dts_min_pdu_size, dts_seg_size, dts_nonarq}
use open_lib.Crc.{crc_16_s5066_batch, crc_32_s5066_batch}
use open_lib.Dts.Addr.{dts_enc_two_addr}

-- `my_station_addr`: only its four bytes are read.
abbrev pub my_station_addr : Mem
my_station_addr i = if i == 0 then 0xe1 else if i == 1 then 0x23 else if i == 2 then 0x45 else 0x67

-- The connection that sends, the free PDUs, and what was handed to `hi_send3`, oldest first.
pub record Sender : Type 0 where
  pub conn : DtsConn
  pub free : List HiPdu
  pub sent : List (List Iov)

-- The new PDU, filled up to the address field, and `resp->ad.dts.addr_len`. The PDU's `ap` is at
-- the start of its memory, where `hi_pdu_alloc` puts it.
unfoldable pub dts_encode_start : HiPdu → ℕ → ℕ → Mem → ℕ → HiPdu × ℕ
dts_encode_start resp op eow to hdr_len =
    let m0 = store resp.m 0 0x90 in
    let m1 = store m0 1 0xeb in
    let m2 = store m1 2 (op * 16 % 256 + eow / 256 % 16) in
    let m3 = store m2 3 (eow % 256) in
    let m4 = store m3 4 0 in
    let (m5, addr_len) = dts_enc_two_addr m4 6 to my_station_addr in
    let m6 = store m5 5 (addr_len * 32 + hdr_len % 32) in
    let len = 2 + hdr_len + addr_len + 2 in
    (record resp { m = m6; len = len; ap = resp.ap + len }, addr_len)

-- The four bytes of the data checksum, most significant first, behind the header.
unfoldable pub put_crc32 : Mem → ℕ → ℕ → Mem
put_crc32 m p crc =
    store
      (store (store (store m p (crc / 2 ^ 24 % 256)) (p + 1) (crc / 2 ^ 16 % 256)) (p + 2)
        (crc / 2 ^ 8 % 256))
      (p + 3) (crc % 256)

-- `hi_send3(…, resp->len, resp->m, seg_size, p, 4, resp->m + resp->len)`
unfoldable pub dts_send_uni_final : Sender → HiPdu → ℕ → Mem → Sender
dts_send_uni_final st resp seg_size p =
    let m = put_crc32 resp.m resp.ap (crc_32_s5066_batch p 0 seg_size) in
    let frame =
      record { iov_base = m; iov_len = resp.len }
      ∷ record { iov_base = p; iov_len = seg_size }
      ∷ record { iov_base = at m resp.len; iov_len = 4 }
      ∷ [] in
    record st { sent = st.sent ++ (frame ∷ []) }

-- The header fields of a NONARQ D_PDU at `h`.
unfoldable pub nonarq_fields : Mem → ℕ → ℕ → ℕ → ℕ → ℕ → Mem
nonarq_fields m h c_pdu_id len seg_size offset =
    let m0 = store m h (c_pdu_id / 16 / 16 % 16 * 16 + seg_size / 256 % 4) in
    let m1 = store m0 (h + 1) (seg_size % 256) in
    let m2 = store m1 (h + 2) (c_pdu_id % 256) in
    let m3 = store m2 (h + 3) (len / 256 % 256) in
    let m4 = store m3 (h + 4) (len % 256) in
    let m5 = store m4 (h + 5) (offset / 256 % 256) in
    let m6 = store m5 (h + 6) (offset % 256) in store (store m6 (h + 7) 0) (h + 8) 0

-- The header's checksum behind the fields.
unfoldable pub nonarq_header : Mem → ℕ → ℕ → ℕ → ℕ → ℕ → Mem
nonarq_header m h c_pdu_id len seg_size offset =
    let m8 = nonarq_fields m h c_pdu_id len seg_size offset in
    let crc = crc_16_s5066_batch m8 2 (h + 9 - 2) in
    store (store m8 (h + 9) (crc / 256 % 256)) (h + 10) (crc % 256)

-- `to` is `req->m + 7` and `offset` is `p - d`.
unfoldable pub dts_send_uni_nonarq_seg : Sender → Mem → ℕ → Mem → ℕ → ℕ → Result Sender
dts_send_uni_nonarq_seg st to len d seg_size offset = do
  (pdu, free) ← alloc_or core_dump st.free
  let (resp, addr_len) = dts_encode_start pdu dts_nonarq 0 to (dts_min_pdu_size - 2 + 9)
  let h = dts_min_pdu_size + addr_len
  let m = nonarq_header resp.m h st.conn.c_pdu_id len seg_size offset
  assertop (h + 11 == resp.ap)
  ok (dts_send_uni_final (record st { free = free }) (record resp { m = m }) seg_size (at d offset))

-- `for (; lim-p > DTS_SEG_SIZE; p += DTS_SEG_SIZE)` and the segment behind the loop. With fuel: a
-- round takes 800 bytes, so `len + 1` rounds are enough.
unfoldable pub nonarq_loop : ℕ → Sender → Mem → ℕ → Mem → ℕ → Result Sender
nonarq_loop zero st to len d offset = fault out_of_fuel
nonarq_loop (suc fuel) st to len d offset =
    let more = (do
      st' ← dts_send_uni_nonarq_seg st to len d dts_seg_size offset
      nonarq_loop fuel st' to len d (offset + dts_seg_size)) in
    if ltb dts_seg_size (len - offset)
    then more
    else dts_send_uni_nonarq_seg st to len d (len - offset) offset

unfoldable pub dts_send_uni_nonarq : Sender → Mem → ℕ → Mem → Result Sender
unfolding nonarq_loop
dts_send_uni_nonarq st to len d = nonarq_loop (len + 1) st to len d 0
