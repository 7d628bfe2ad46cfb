-- ===== src/Dts/RoundTrip.antt =====
-- What dts_decode makes of a D_PDU that dts_send_uni_nonarq_seg has sent.
use open_lib.Prelude.{
  ℕ, ◌+◌, ◌-◌, ◌*◌, ◌/◌, ◌%◌, ◌^◌, ◌<◌, ◌≡◌, refl, ap, ◌∙◌, true, some, List, [], ◌∷◌, ◌++◌, arith,
  Mem, at, memcpy,
}
use open_lib.Hiios.{
  HiPdu, ok, ◌>>=◌, wire, wire_len, alloc_or, hi_pdu_reset, hi_checkmore, hi_add_to_reqs, noerr,
}
use open_lib.Prelude.{lt→ltb, ltb-false}
use open_lib.Crc.{crc_16_s5066_batch, crc_32_s5066_batch}
use open_lib.Crc.Detect.{SameBytes, crc_16_s5066_batch-cong, crc_32_s5066_batch-shift}
use open_lib.Dts.Send.{Sender, dts_send_uni_nonarq_seg}
use open_lib.Dts.Frame.{IsFrame, seg_frame, seg_frame-IsFrame, wire_len-seg_frame, nonarq_seg-sends}
use open_lib.Dts.Receive.{
  Receiver, dts_seg_c_pdu_size, nonarq_segment, dts_data_nonarq, dts_data, dts_process_hdr,
  header_crc_ok, data_crc_ok, dts_decode,
}

-- A frame is one wherever its bytes stand.
pub IsFrame-same :
    {w : Mem} {id len : ℕ} {d : Mem} {seg_size offset : ℕ} (m : Mem)
    → IsFrame w id len d seg_size offset
    → SameBytes m w 0 (28 + seg_size)
    → IsFrame m id len d seg_size offset
IsFrame-same {w} {seg_size} m f h = record {
  sync0 = omega (arith, h 0);
  sync1 = omega (arith, h 1);
  kind = omega (arith, h 2);
  sizes = omega (arith, h 5);
  size_high = omega (arith, h 13);
  size_low = omega (arith, h 14);
  id = omega (arith, h 15);
  len_high = omega (arith, h 16);
  len_low = omega (arith, h 17);
  offset_high = omega (arith, h 18);
  offset_low = omega (arith, h 19);
  crc16_high = omega (arith, h 22, crc16);
  crc16_low = omega (arith, h 23, crc16);
  payload = λ i lt. h (24 + i) (omega arith) (omega arith) ∙ f.payload i lt;
  crc32_0 = omega (arith, h (24 + seg_size), crc32);
  crc32_1 = omega (arith, h (25 + seg_size), crc32);
  crc32_2 = omega (arith, h (26 + seg_size), crc32);
  crc32_3 = omega (arith, h (27 + seg_size), crc32);
}
  where
    crc16 : crc_16_s5066_batch m 2 20 ≡ crc_16_s5066_batch w 2 20
    crc16 = crc_16_s5066_batch-cong m w 2 20 (λ i a b. h i (omega arith) (omega arith))

    crc32 : crc_32_s5066_batch m 24 seg_size ≡ crc_32_s5066_batch w 24 seg_size
    crc32 =
        crc_32_s5066_batch-shift m w 24 24 seg_size (λ i a. h (24 + i) (omega arith) (omega arith))

module _ {m : Mem} {id len : ℕ} {d : Mem} {seg_size offset : ℕ}
    (f : IsFrame m id len d seg_size offset) (small : seg_size < 1024) where
  frame-size : dts_seg_c_pdu_size m 7 ≡ seg_size
  frame-size = omega (arith, f.size_high, f.size_low)

  pub frame-process_hdr : dts_process_hdr m 7 13 ≡ some seg_size
  unfolding dts_process_hdr
  frame-process_hdr = ground (arith, f.kind, frame-size)

  pub frame-header_crc_ok : header_crc_ok m 7 13 ≡ true
  unfolding header_crc_ok
  frame-header_crc_ok = ground (arith, f.crc16_high, f.crc16_low)

  frame-data_crc_ok : data_crc_ok m 24 seg_size ≡ true
  unfolding data_crc_ok
  frame-data_crc_ok =
      ground (arith, f.crc32_0, f.crc32_1, f.crc32_2, f.crc32_3, ap m e1, ap m e2, ap m e3)
    where
      e1 : 24 + seg_size + 1 ≡ 25 + seg_size
      e1 = omega arith

      e2 : 24 + seg_size + 2 ≡ 26 + seg_size
      e2 = omega arith

      e3 : 24 + seg_size + 3 ≡ 27 + seg_size
      e3 = omega arith

module _ (rx : Receiver) (req nreq : HiPdu) (free : List HiPdu) (seg_size : ℕ) where
  -- The PDU that is read next: it starts with the last two bytes of the frame.
  abbrev pub left_over : HiPdu
  left_over = record nreq {
    m = memcpy nreq.m 0 (at req.m (26 + seg_size)) 2;
    ap = 2;
    scan = 0;
    need = 6;
  }

  -- The PDU that has been read, cut to the length that the decoder works out.
  abbrev pub taken : HiPdu
  taken = record req { len = 26 + seg_size; ap = 26 + seg_size }

  abbrev pub after_frame : Receiver
  after_frame = record rx {
    free = free;
    io = record { cur_pdu = some left_over; reqs = taken ∷ rx.io.reqs };
  }

  pub dts_decode-frame :
      {id len : ℕ} {d : Mem} {offset : ℕ}
      → IsFrame req.m id len d seg_size offset
      → seg_size < 1024
      → req.ap ≡ 28 + seg_size
      → rx.free ≡ nreq ∷ free
      → dts_decode rx req ≡ (dts_data after_frame req.m 7 >>= λ st. ok (noerr, st))
  unfolding dts_decode hi_checkmore hi_add_to_reqs alloc_or hi_pdu_reset
  dts_decode-frame f small ea ef =
      rw
        (
          ltb-false req.ap 6 (omega arith),
          f.sync0,
          f.sync1,
          addr,
          hdr,
          ltb-false req.ap 22 (omega arith),
          frame-header_crc_ok f small,
          frame-process_hdr f small,
          addr,
          hdr,
          total,
          ltb-false req.ap (26 + seg_size) (omega arith),
          frame-data_crc_ok f small,
          lt→ltb (26 + seg_size) req.ap (omega arith),
          ef,
          two,
        )
        refl
    where
      addr : req.m 5 / 32 % 8 ≡ 7
      addr = omega (arith, f.sizes)

      hdr : req.m 5 % 32 ≡ 13
      hdr = omega (arith, f.sizes)

      total : 22 + (seg_size + 4) ≡ 26 + seg_size
      total = omega arith

      two : req.ap - (26 + seg_size) ≡ 2
      two = omega arith

pub dts_data-frame :
    (st : Receiver) {m : Mem} {id len : ℕ} {d : Mem} {seg_size offset : ℕ}
    → IsFrame m id len d seg_size offset
    → seg_size < 1024
    → len < 2 ^ 16
    → offset < 2 ^ 16
    → dts_data st m 7 ≡ nonarq_segment st (id % 256) len offset seg_size 7 m
unfolding dts_data dts_data_nonarq
dts_data-frame st {m = m} {len = len} {offset = offset} f small hl ho =
    rw (f.kind, f.id, len_field, offset_field, frame-size f small) refl
  where
    len_field : m 16 * 256 + m 17 ≡ len
    len_field = omega (arith, f.len_high, f.len_low)

    offset_field : m 18 * 256 + m 19 ≡ offset
    offset_field = omega (arith, f.offset_high, f.offset_low)

-- For a segment of less than 1024 bytes of a C_PDU of less than 65536 bytes:
-- dts_send_uni_nonarq_seg sends one D_PDU that is 28 bytes longer than the segment. When dts_decode
-- finds exactly its bytes in a PDU, and a PDU is free, both checksums and the header are accepted,
-- and the case for NONARQ data of dts_data runs with the size, the offset and the overall length
-- that were sent, with the low eight bits of the C_PDU ID, and with the segment's bytes from
-- offset 24 on.
pub dts_decode-nonarq_seg :
    (st : Sender) (to : Mem) (len : ℕ) (d : Mem) (seg_size offset : ℕ) (pdu : HiPdu)
    (rest : List HiPdu) (rx : Receiver) (req nreq : HiPdu) (free : List HiPdu)
    → st.free ≡ pdu ∷ rest
    → seg_size < 1024
    → len < 2 ^ 16
    → offset < 2 ^ 16
    → let frame = seg_frame pdu to st.conn.c_pdu_id len d seg_size offset in
      req.ap ≡ wire_len frame
      → SameBytes req.m (wire frame) 0 (wire_len frame)
      → rx.free ≡ nreq ∷ free
      → (dts_send_uni_nonarq_seg st to len d seg_size offset
          ≡ ok (record st { free = rest; sent = st.sent ++ (frame ∷ []) }))
        × (wire_len frame ≡ 28 + seg_size)
        × (dts_decode rx req ≡ (
            nonarq_segment
              (after_frame rx req nreq free seg_size)
              (st.conn.c_pdu_id % 256)
              len
              offset
              seg_size
              7
              req.m
            >>= λ st'. ok (noerr, st')))
        × SameBytes (at req.m 24) (at d offset) 0 seg_size
dts_decode-nonarq_seg st to len d seg_size offset pdu rest rx req nreq free es small hl ho ea same
      ef =
    let total = wire_len-seg_frame pdu to st.conn.c_pdu_id len d seg_size offset in
    let f =
      IsFrame-same req.m (seg_frame-IsFrame pdu to st.conn.c_pdu_id len d seg_size offset)
        (λ i a b. same i a (omega (arith, total))) in
    (
      nonarq_seg-sends st to len d seg_size offset pdu rest es,
      total,
      dts_decode-frame rx req nreq free seg_size f small (ea ∙ total) ef
          ∙ ap (λ r. r >>= λ st'. ok (noerr, st'))
              (dts_data-frame (after_frame rx req nreq free seg_size) f small hl ho),
      λ i a b. f.payload i (omega arith),
    )
