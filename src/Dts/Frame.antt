-- ===== src/Dts/Frame.antt =====
-- The bytes of the D_PDU that dts_send_uni_nonarq_seg sends.
use open_lib.Prelude.{
  ℕ, zero, suc, ◌+◌, ◌-◌, ◌*◌, ◌/◌, ◌%◌, ◌^◌, ◌<◌, ◌≡◌, refl, ap, ◌∙◌, List, [], ◌∷◌, ◌++◌, arith,
  Mem, store, at,
}
use open_lib.Hiios.{HiPdu, Iov, ok, wire, wire_len, alloc_or, hi_pdu_reset}
use open_lib.Errmac.{set_nibble, get_nibble}
use open_lib.Crc.{crc_16_s5066_batch, crc_32_s5066_batch}
use open_lib.Crc.Detect.{crc_16_s5066_batch-cong, crc_32_s5066_batch-shift}
use open_lib.Dts.Addr.{set_zeroes, copy_nibbles, addr_len, max_len, dts_enc_two_addr}
use open_lib.Dts.Send.{
  Sender, my_station_addr, dts_encode_start, put_crc32, dts_send_uni_final, nonarq_fields,
  nonarq_header, dts_send_uni_nonarq_seg,
}

set_zeroes-below : (n : ℕ) (a : Mem) (base i k : ℕ) → k < base → set_zeroes n a base i k ≡ a k
unfolding set_zeroes set_nibble
set_zeroes-below zero a base i k h = refl
set_zeroes-below (suc n) a base i k h =
    ground (arith, set_zeroes-below n (set_nibble a base i 0) base (i + 1) k)

copy_nibbles-below :
    (n : ℕ) (a : Mem) (base i : ℕ) (src : Mem) (from j k : ℕ)
    → k < base
    → copy_nibbles n a base i src from j k ≡ a k
unfolding copy_nibbles set_nibble
copy_nibbles-below zero a base i src from j k h = refl
copy_nibbles-below (suc n) a base i src from j k h = ground (
  arith,
  copy_nibbles-below n (set_nibble a base i (get_nibble src from j)) base (i + 1) src from (j + 1)
      k,
)

-- The address field lies behind `base`.
dts_enc_two_addr-below :
    (a : Mem) (base : ℕ) (t f : Mem) (k : ℕ) → k < base → (dts_enc_two_addr a base t f).0 k ≡ a k
unfolding dts_enc_two_addr
dts_enc_two_addr-below a base t f k h =
    let len = max_len (addr_len t) (addr_len f) in
    let a1 = set_zeroes (len - addr_len t) a base 0 in
    let a2 = copy_nibbles (addr_len t) a1 base (len - addr_len t) t 0 1 in
    let a3 = set_zeroes (len - addr_len f) a2 base len in
    copy_nibbles-below (addr_len f) a3 base (len + (len - addr_len f)) f 0 1 k h
    ∙ set_zeroes-below (len - addr_len f) a2 base len k h
    ∙ copy_nibbles-below (addr_len t) a1 base (len - addr_len t) t 0 1 k h
    ∙ set_zeroes-below (len - addr_len t) a base 0 k h

-- This station's own address has seven nibbles, the most there can be.
own_addr_len : (a : Mem) (base : ℕ) (t : Mem) → (dts_enc_two_addr a base t my_station_addr).1 ≡ 7
unfolding dts_enc_two_addr
own_addr_len a base t = ground arith

pub dts_encode_start_lem :
    (resp : HiPdu) (op eow : ℕ) (to : Mem) (hdr_len : ℕ)
    → let r = dts_encode_start resp op eow to hdr_len in
      (r.1 ≡ 7)
      × (r.0.len ≡ hdr_len + 11)
      × (r.0.ap ≡ resp.ap + (hdr_len + 11))
      × (r.0.m 0 ≡ 0x90)
      × (r.0.m 1 ≡ 0xeb)
      × (r.0.m 2 ≡ op * 16 % 256 + eow / 256 % 16)
      × (r.0.m 5 ≡ (7 * 32 + hdr_len % 32) % 256)
unfolding dts_encode_start
dts_encode_start_lem resp op eow to hdr_len =
    let m4 =
      store
        (store (store (store (store resp.m 0 0x90) 1 0xeb) 2 (op * 16 % 256 + eow / 256 % 16)) 3
          (eow % 256))
        4 0 in
    let below = dts_enc_two_addr-below m4 6 to my_station_addr in
    let seven = own_addr_len m4 6 to in
    (
      seven,
      omega (arith, seven),
      omega (arith, seven),
      below 0 (omega arith),
      below 1 (omega arith),
      omega (arith, below 2 (omega arith)),
      omega (arith, seven),
    )

-- A frame for segment `seg_size` at `offset` of a C_PDU of `len` bytes at `d`.
pub record IsFrame (w : Mem) (c_pdu_id len : ℕ) (d : Mem) (seg_size offset : ℕ) : Type 0 where
  pub sync0 : w 0 ≡ 0x90
  pub sync1 : w 1 ≡ 0xeb
  pub kind : w 2 ≡ 0x70
  pub sizes : w 5 ≡ 7 * 32 + 13
  pub size_high : w 13 % 4 ≡ seg_size / 256 % 4
  pub size_low : w 14 ≡ seg_size % 256
  pub id : w 15 ≡ c_pdu_id % 256
  pub len_high : w 16 ≡ len / 256 % 256
  pub len_low : w 17 ≡ len % 256
  pub offset_high : w 18 ≡ offset / 256 % 256
  pub offset_low : w 19 ≡ offset % 256
  pub crc16_high : w 22 ≡ crc_16_s5066_batch w 2 20 / 256 % 256
  pub crc16_low : w 23 ≡ crc_16_s5066_batch w 2 20 % 256
  pub payload : (i : ℕ) → i < seg_size → w (24 + i) ≡ d (offset + i)
  pub crc32_0 : w (24 + seg_size) ≡ crc_32_s5066_batch w 24 seg_size / 2 ^ 24 % 256
  pub crc32_1 : w (25 + seg_size) ≡ crc_32_s5066_batch w 24 seg_size / 2 ^ 16 % 256
  pub crc32_2 : w (26 + seg_size) ≡ crc_32_s5066_batch w 24 seg_size / 2 ^ 8 % 256
  pub crc32_3 : w (27 + seg_size) ≡ crc_32_s5066_batch w 24 seg_size % 256

module _ (pdu : HiPdu) (to : Mem) (c_pdu_id len : ℕ) (d : Mem) (seg_size offset : ℕ) where
  -- The new PDU with its header.
  abbrev start : HiPdu
  start = (dts_encode_start (hi_pdu_reset pdu) 7 0 to 13).0

  abbrev header : Mem
  header = nonarq_header start.m 13 c_pdu_id len seg_size offset

  abbrev trailer : Mem
  trailer = put_crc32 header 24 (crc_32_s5066_batch (at d offset) 0 seg_size)

  abbrev pub seg_frame : List Iov
  seg_frame =
      record { iov_base = trailer; iov_len = 24 }
      ∷ record { iov_base = at d offset; iov_len = seg_size }
      ∷ record { iov_base = at trailer 24; iov_len = 4 }
      ∷ []

  abbrev fields : Mem
  fields = nonarq_fields start.m 13 c_pdu_id len seg_size offset

  wire-fields : (i : ℕ) → i < 22 → wire seg_frame i ≡ fields i
  unfolding nonarq_header put_crc32
  wire-fields i h = ground arith

  wire-payload : (i : ℕ) → i < seg_size → wire seg_frame (24 + i) ≡ d (offset + i)
  wire-payload i h = ground (arith, ap d same)
    where
      same : offset + (24 + i - 24) ≡ offset + i
      same = omega arith

  -- The three parts are 28 bytes more than the data.
  pub wire_len-seg_frame : wire_len seg_frame ≡ 28 + seg_size
  wire_len-seg_frame = omega arith

  header_crc : crc_16_s5066_batch (wire seg_frame) 2 20 ≡ crc_16_s5066_batch fields 2 20
  header_crc = crc_16_s5066_batch-cong _ _ 2 20 (λ i a b. wire-fields i (omega arith))

  data_crc :
      crc_32_s5066_batch (wire seg_frame) 24 seg_size ≡ crc_32_s5066_batch (at d offset) 0 seg_size
  data_crc =
      crc_32_s5066_batch-shift _ _ 24 0 seg_size (λ i h. wire-payload i h ∙ ap d (omega arith))

  wire-trailer : (k : ℕ) → k < 4 → wire seg_frame (24 + k + seg_size) ≡ trailer (24 + k)
  wire-trailer k h = ground (arith, ap trailer same)
    where
      same : 24 + (24 + k + seg_size - 24 - seg_size) ≡ 24 + k
      same = omega arith

  pub seg_frame-IsFrame : IsFrame (wire seg_frame) c_pdu_id len d seg_size offset
  unfolding nonarq_header nonarq_fields put_crc32
  seg_frame-IsFrame =
      let (_, _, _, m0, m1, m2, m5) = dts_encode_start_lem (hi_pdu_reset pdu) 7 0 to 13 in
      record {
        sync0 = m0;
        sync1 = m1;
        kind = m2;
        sizes = m5;
        size_high = omega arith;
        size_low = omega arith;
        id = omega arith;
        len_high = omega arith;
        len_low = omega arith;
        offset_high = omega arith;
        offset_low = omega arith;
        crc16_high = omega (arith, header_crc);
        crc16_low = omega (arith, header_crc);
        payload = wire-payload;
        crc32_0 = omega (arith, data_crc, wire-trailer 0 (omega arith));
        crc32_1 = omega (arith, data_crc, wire-trailer 1 (omega arith));
        crc32_2 = omega (arith, data_crc, wire-trailer 2 (omega arith));
        crc32_3 = omega (arith, data_crc, wire-trailer 3 (omega arith));
      }

pub nonarq_seg-sends :
    (st : Sender) (to : Mem) (len : ℕ) (d : Mem) (seg_size offset : ℕ) (pdu : HiPdu)
    (rest : List HiPdu)
    → st.free ≡ pdu ∷ rest
    → dts_send_uni_nonarq_seg st to len d seg_size offset
      ≡ ok (record st {
        free = rest;
        sent = st.sent ++ (seg_frame pdu to st.conn.c_pdu_id len d seg_size offset ∷ []);
      })
unfolding dts_send_uni_nonarq_seg alloc_or dts_send_uni_final
nonarq_seg-sends st to len d seg_size offset pdu rest e =
    let (a, l, p, _, _, _, _) = dts_encode_start_lem (hi_pdu_reset pdu) 7 0 to 13 in
    rw (e, a, l, p) refl
