-- ===== src/Dts/Refusal.antt =====
-- What dts_decode refuses: the connection is closed, and nothing is delivered.
use open_lib.Prelude.{
  ℕ, ◌+◌, ◌/◌, ◌%◌, ◌^◌, ◌≤◌, ◌<◌, ◌≡◌, ◌≢◌, refl, ap, ◌∙◌, true, false, not, ◌||◌, some, arith,
  Mem, ◌==◌, ltb-false, List, ◌∷◌,
}
use open_lib.Hiios.{HiPdu, ok, ◌>>=◌, noerr, conn_close}
use open_lib.Crc.{crc_32_s5066_batch}
use open_lib.Crc.Detect.{SameBytes}
use open_lib.Dts.Frame.{IsFrame}
use open_lib.Dts.Receive.{
  Receiver, dts_process_hdr, header_crc_ok, data_crc_ok, dts_decode, set_cur, dts_data,
}
use open_lib.Dts.RoundTrip.{after_frame, left_over, dts_decode-frame}

-- The decoder asks for the connection to be closed, with nothing delivered and no slot changed.
abbrev pub Refuses : Receiver → HiPdu → Type 0
Refuses rx req =
    (st : Receiver) × (dts_decode rx req ≡ ok (conn_close, st))
    × (st.sent ≡ rx.sent)
    × (st.conn ≡ rx.conn)

pub bad_preamble :
    (rx : Receiver) (req : HiPdu)
    → 6 ≤ req.ap
    → (not (req.m 0 == 0x90) || not (req.m 1 == 0xeb)) ≡ true
    → Refuses rx req
unfolding dts_decode
bad_preamble rx req enough h = (rx, rw (ltb-false req.ap 6 enough, h) refl, refl, refl)

-- The preamble is there, with an address size of 7 and a header size of 13.
module _ (rx : Receiver) (req : HiPdu) (enough : 22 ≤ req.ap) (p0 : req.m 0 ≡ 0x90)
    (p1 : req.m 1 ≡ 0xeb) (p5 : req.m 5 ≡ 237) where
  addr : req.m 5 / 32 % 8 ≡ 7
  addr = omega (arith, p5)

  hdr : req.m 5 % 32 ≡ 13
  hdr = omega (arith, p5)

  pub bad_header : header_crc_ok req.m 7 13 ≡ false → Refuses rx req
  unfolding dts_decode
  bad_header h = (
    set_cur rx (record req { len = 22 }),
    rw (ltb-false req.ap 6 (omega arith), p0, p1, addr, hdr, ltb-false req.ap 22 enough, h) refl,
    refl,
    refl,
  )

  pub bad_data :
      (size : ℕ)
      → 26 + size ≤ req.ap
      → header_crc_ok req.m 7 13 ≡ true
      → dts_process_hdr req.m 7 13 ≡ some size
      → data_crc_ok req.m 24 size ≡ false
      → Refuses rx req
  unfolding dts_decode
  bad_data size all h s d = (
    set_cur rx (record req { len = 26 + size }),
    rw
        (
          ltb-false req.ap 6 (omega arith),
          p0,
          p1,
          addr,
          hdr,
          ltb-false req.ap 22 enough,
          h,
          s,
          addr,
          hdr,
          total,
          ltb-false req.ap (26 + size) all,
          d,
        )
        refl,
    refl,
    refl,
  )
    where
      total : 22 + (size + 4) ≡ 26 + size
      total = omega arith

-- The PDU that hi_checkmore makes behind an accepted frame starts with the frame's last two bytes.
-- When more bytes have come behind them, six in all, dts_decode asks for the connection to be
-- closed, whatever they are, unless the low half of the frame's data checksum is 0x90eb.
pub dts_decode-left_over :
    (rx : Receiver) (req nreq : HiPdu) (free : List HiPdu) (next : HiPdu) {id len : ℕ} {d : Mem}
    {seg_size offset : ℕ}
    → IsFrame req.m id len d seg_size offset
    → seg_size < 1024
    → req.ap ≡ 28 + seg_size
    → rx.free ≡ nreq ∷ free
    → crc_32_s5066_batch req.m 24 seg_size % 2 ^ 16 ≢ 0x90eb
    → SameBytes next.m (left_over rx req nreq free seg_size).m 0 2
    → 6 ≤ next.ap
    → (dts_decode rx req
        ≡ (dts_data (after_frame rx req nreq free seg_size) req.m 7 >>= λ st. ok (noerr, st)))
      × Refuses (after_frame rx req nreq free seg_size) next
dts_decode-left_over rx req nreq free next {seg_size = seg_size} f small ea ef ne same enough = (
  dts_decode-frame rx req nreq free seg_size f small ea ef,
  bad_preamble (after_frame rx req nreq free seg_size) next enough
      (ground (arith, ne, f.crc32_2, f.crc32_3, n0, n1)),
)
  where
    n0 : next.m 0 ≡ req.m (26 + seg_size)
    n0 = same 0 (omega arith) (omega arith) ∙ ap req.m (omega arith)

    n1 : next.m 1 ≡ req.m (27 + seg_size)
    n1 = same 1 (omega arith) (omega arith) ∙ ap req.m (omega arith)
