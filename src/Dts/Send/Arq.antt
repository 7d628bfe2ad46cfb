-- ===== src/Dts/Send/Arq.antt =====
-- The ARQ half of dts_send_uni. Every bit of the flag byte is put in by `|`.
use Prim.Native.Nat.{bit_or}
use open_lib.Prelude.{
  ℕ, zero, suc, ◌+◌, ◌-◌, ◌/◌, ◌%◌, not, ◌||◌, some, Mem, store, at, ltb, ◌==◌, leb, if◌then◌else◌,
}
use open_lib.Hiios.{
  HiPdu, core_dump, Result, ok, fault, out_of_fuel, ◌>>=◌, ◌>>◌, assertop, alloc_or,
}
use open_lib.S5066.{DtsConn, dts_seg_size, dts_data_only, dts_data_ack}
use open_lib.Errmac.{get_bit, set_bit, has_digit}
use open_lib.Crc.{crc_16_s5066_batch}
use open_lib.Dts.Send.{Sender, dts_encode_start, dts_send_uni_final}

abbrev set_tx_pdu : DtsConn → ℕ → HiPdu → DtsConn
set_tx_pdu c n resp = record c { tx_pdus = λ i. if i == n % 256 then some resp else c.tx_pdus i }

-- `h[0]`
abbrev seg_flags : DtsConn → ℕ → ℕ → ℕ → ℕ
seg_flags c flags seg_size n_tx_seq =
    bit_or (bit_or (bit_or flags (seg_size / 256 % 4)) (if n_tx_seq == c.tx_uwe then 0x80 else 0))
      (if n_tx_seq == c.tx_lwe then 0x40 else 0)

-- Both branches end in the checksum at `h + k` over all before it.
unfoldable pub put_crc16 : Mem → ℕ → ℕ → Mem
put_crc16 m h k =
    let crc = crc_16_s5066_batch m 2 (h + k - 2) in
    store (store m (h + k) (crc / 256 % 256)) (h + k + 1) (crc % 256)

-- `for (i = 0, j = rx_lwe + 1; j <= rx_uwe; ++j, ++i)`, `n` rounds
unfoldable pub put_acks : ℕ → Mem → Mem → ℕ → ℕ → ℕ → Mem
put_acks zero acks m h i j = m
put_acks (suc n) acks m h i j =
    put_acks n acks
      (if get_bit acks (j % 256)
        then (λ k. if leb h k then set_bit (at m h) i (k - h) else m k)
        else m)
      h (i + 1) (j + 1)

-- `memset(m + h, 0, n)`
unfoldable pub clear : Mem → ℕ → ℕ → Mem
clear m h n k = if leb h k then (if ltb k (h + n) then 0 else m k) else m k

unfoldable pub dts_send_uni_arq_seg : Sender → Mem → ℕ → Mem → ℕ → ℕ → Result Sender
dts_send_uni_arq_seg st to seg_size p flags n_tx_seq =
    let c = st.conn in
    let data_only = (do
      (pdu, free) ← alloc_or core_dump st.free
      let (resp, addr_len) = dts_encode_start pdu dts_data_only 0 to (4 + 4 + 2)
      let h = 6 + addr_len
      let m0 = store resp.m h (seg_flags c flags seg_size n_tx_seq)
      let m1 = store m0 (h + 1) (seg_size % 256)
      let m2 = store m1 (h + 2) (n_tx_seq % 256)
      let done = record resp { m = put_crc16 m2 h 3 }
      assertop (h + 5 == resp.ap)
      ok (
          dts_send_uni_final (record st { free = free; conn = set_tx_pdu c n_tx_seq done }) done
            seg_size p)) in
    let data_ack = (do
      let ack_len = (c.rx_uwe - c.rx_lwe) / 8
      (pdu, free) ← alloc_or core_dump st.free
      let (resp, addr_len) = dts_encode_start pdu dts_data_ack 0 to (4 + 3 + ack_len + 2)
      let h = 6 + addr_len
      let m0 = store resp.m h (seg_flags c flags seg_size n_tx_seq)
      let m1 = store m0 (h + 1) (seg_size % 256)
      let m2 = store m1 (h + 2) (n_tx_seq % 256)
      let m3 = store m2 (h + 3) (c.rx_lwe % 256)
      let m4 = clear m3 (h + 4) ack_len
      let m5 = put_acks (c.rx_uwe - c.rx_lwe) c.acks m4 (h + 4) 0 (c.rx_lwe + 1)
      let done = record resp { m = put_crc16 m5 h (4 + ack_len) }
      assertop (h + 5 + ack_len == resp.ap)
      ok (
          dts_send_uni_final (record st { free = free; conn = set_tx_pdu c n_tx_seq done }) done
            seg_size p)) in
    if not (has_digit flags 7) || (c.rx_lwe == c.rx_lwe) then data_only else data_ack

-- `++tx_uwe`; the window is never found to be full.
unfoldable pub dts_expand_tx_window : Sender → Sender × ℕ
dts_expand_tx_window st =
    let n = st.conn.tx_uwe + 1 in (record st { conn = record st.conn { tx_uwe = n } }, n)

-- The segments from `offset` on: full ones while more than 800 bytes are left, then the last.
unfoldable pub arq_loop : ℕ → Sender → Mem → ℕ → Mem → ℕ → Result Sender
unfolding dts_expand_tx_window dts_send_uni_arq_seg
arq_loop zero st to len d offset = fault out_of_fuel
arq_loop (suc fuel) st to len d offset =
    let more = (do
      let (st1, n) = dts_expand_tx_window st
      st2 ← dts_send_uni_arq_seg st1 to dts_seg_size (at d offset) 0x00 n
      arq_loop fuel st2 to len d (offset + dts_seg_size)) in
    let last = (do
      let (st1, n) = dts_expand_tx_window st
      dts_send_uni_arq_seg st1 to (len - offset) (at d offset) 0x40 n) in
    if ltb dts_seg_size (len - offset) then more else last

-- The first segment is always a full one, whatever `len` is. Where `len` is below 800 the last
-- segment's size `lim-p` is negative; that is reached only behind the first segment.
unfoldable pub dts_send_uni_arq : Sender → Mem → ℕ → Mem → Result Sender
unfolding arq_loop
dts_send_uni_arq st to len d = do
  let (st1, n) = dts_expand_tx_window st
  st2 ← dts_send_uni_arq_seg st1 to dts_seg_size d 0x80 n
  arq_loop (len + 1) st2 to len d dts_seg_size
