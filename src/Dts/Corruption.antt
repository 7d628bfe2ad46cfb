-- ===== src/Dts/Corruption.antt =====
-- What dts_decode makes of a D_PDU in which one byte was received wrongly.
use open_lib.Prelude.{
  ℕ, ◌+◌, ◌/◌, ◌%◌, ◌^◌, ◌≤◌, ◌<◌, ◌≡◌, ◌≢◌, refl, sym, ap, ◌∙◌, Bool-cases, ◌⊎◌, inl, inr, true,
  false, some, arith, Mem, IsBytes,
}
use native.Mathlib.Decide.{ℕ_discrete, dec_lt}
use open_lib.Hiios.{HiPdu}
use open_lib.Crc.{crc_16_s5066_batch, crc_32_s5066_batch}
use open_lib.Crc.Detect.{
  DifferAt, crc_batch_detects, crc_16_s5066_batch-cong, crc_32_s5066_batch-shift,
}
use open_lib.Dts.Frame.{IsFrame}
use open_lib.Dts.Receive.{Receiver, dts_process_hdr, header_crc_ok, data_crc_ok, dts_seg_c_pdu_size}
use open_lib.Dts.Refusal.{Refuses, bad_preamble, bad_header, bad_data}

lt_or_le : (a b : ℕ) → (a < b) ⊎ (b ≤ a)
lt_or_le a b = elim (dec_lt a b) [ yes p ↦ inl p | no np ↦ inr (omega (arith, np)) ]

header_crc_ok-true :
    (g : Mem)
    → header_crc_ok g 7 13 ≡ true
    → (g 22 ≡ crc_16_s5066_batch g 2 20 / 256 % 256) × (g 23 ≡ crc_16_s5066_batch g 2 20 % 256)
unfolding header_crc_ok
header_crc_ok-true g h = (ground arith, ground arith)

data_crc_ok-true :
    (g : Mem) (size : ℕ)
    → data_crc_ok g 24 size ≡ true
    → let crc = crc_32_s5066_batch g 24 size in
      (g (24 + size) ≡ crc / 2 ^ 24 % 256)
      × (g (25 + size) ≡ crc / 2 ^ 16 % 256)
      × (g (26 + size) ≡ crc / 2 ^ 8 % 256)
      × (g (27 + size) ≡ crc % 256)
unfolding data_crc_ok
data_crc_ok-true g size h =
    (ground arith, ap g (omega arith) ∙ one, ap g (omega arith) ∙ two, ap g (omega arith) ∙ three)
  where
    one : g (24 + size + 1) ≡ crc_32_s5066_batch g 24 size / 2 ^ 16 % 256
    one = ground arith

    two : g (24 + size + 2) ≡ crc_32_s5066_batch g 24 size / 2 ^ 8 % 256
    two = ground arith

    three : g (24 + size + 3) ≡ crc_32_s5066_batch g 24 size % 256
    three = ground arith

-- A frame `m`, and what `g` makes of it when it differs in one byte.
module _ {m : Mem} {id len : ℕ} {d : Mem} {seg_size offset : ℕ}
    (f : IsFrame m id len d seg_size offset) (small : seg_size < 1024) (bm : IsBytes m) (g : Mem)
    (bg : IsBytes g) (k : ℕ) (diff : DifferAt g m 0 (28 + seg_size) k) where
  kept : (i : ℕ) → i < 28 + seg_size → i ≢ k → g i ≡ m i
  kept i lt ne = diff.1 i (omega arith) (omega arith) ne

  refused-header : 2 ≤ k → k < 22 → header_crc_ok g 7 13 ≡ false
  unfolding header_crc_ok
  refused-header lo hi =
      let (lt, ne, _, _) = crc_batch_detects g m 2 20 k bg bm lo (omega arith) inside in
      let (lt', _, _, _) = crc_batch_detects m g 2 20 k bm bg lo (omega arith) inside' in
      let h22 = kept 22 (omega arith) (omega arith) ∙ f.crc16_high in
      let h23 = kept 23 (omega arith) (omega arith) ∙ f.crc16_low in
      ground (arith, lt, ne, lt', h22, h23)
    where
      inside : DifferAt g m 2 20 k
      inside = (diff.0, λ i a b ne. kept i (omega arith) ne)

      inside' : DifferAt m g 2 20 k
      inside' = (λ e. diff.0 (sym e), λ i a b ne. sym (kept i (omega arith) ne))

  header_crc-same : 22 ≤ k → crc_16_s5066_batch g 2 20 ≡ crc_16_s5066_batch m 2 20
  header_crc-same lo =
      crc_16_s5066_batch-cong g m 2 20 (λ i a b. kept i (omega arith) (omega arith))

  refused-header_crc : 22 ≤ k → k < 24 → header_crc_ok g 7 13 ≡ false
  refused-header_crc lo hi = elim (Bool-cases (header_crc_ok g 7 13)) [
    | inr bad ↦ bad
    | inl good ↦
        let (h22, h23) = header_crc_ok-true g good in
        let same = header_crc-same lo in
        absurd (elim (ℕ_discrete k 22) [
          | yes e ↦ diff.0 (ap g e ∙ omega (arith, h22, same, f.crc16_high) ∙ ap m (sym e))
          | no ne ↦
              let e : k ≡ 23 = omega (arith, ne) in
              diff.0 (ap g e ∙ omega (arith, h23, same, f.crc16_low) ∙ ap m (sym e))
        ])
  ]

  accepted-header : 24 ≤ k → header_crc_ok g 7 13 ≡ true
  unfolding header_crc_ok
  accepted-header lo = ground (
    arith,
    header_crc-same (omega arith),
    f.crc16_high,
    f.crc16_low,
    kept 22 (omega arith) (omega arith),
    kept 23 (omega arith) (omega arith),
  )

  accepted-process_hdr : 24 ≤ k → dts_process_hdr g 7 13 ≡ some seg_size
  unfolding dts_process_hdr
  accepted-process_hdr lo = ground (arith, kind, size)
    where
      kind : g 2 ≡ 0x70
      kind = kept 2 (omega arith) (omega arith) ∙ f.kind

      size : dts_seg_c_pdu_size g 7 ≡ seg_size
      size = omega (
        arith,
        f.size_high,
        f.size_low,
        kept 13 (omega arith) (omega arith),
        kept 14 (omega arith) (omega arith),
      )

  data_crc-same :
      24 + seg_size ≤ k → crc_32_s5066_batch g 24 seg_size ≡ crc_32_s5066_batch m 24 seg_size
  data_crc-same lo =
      crc_32_s5066_batch-shift g m 24 24 seg_size (λ i a. kept (24 + i) (omega arith) (omega arith))

  refused-data : 24 ≤ k → k < 24 + seg_size → data_crc_ok g 24 seg_size ≡ false
  refused-data lo hi = elim (Bool-cases (data_crc_ok g 24 seg_size)) [
    | inr bad ↦ bad
    | inl good ↦
        let (_, _, lt, ne) = crc_batch_detects g m 24 seg_size k bg bm lo hi inside in
        let (_, _, lt', _) = crc_batch_detects m g 24 seg_size k bm bg lo hi inside' in
        let (g0, g1, g2, g3) = data_crc_ok-true g seg_size good in
        absurd (
          ne (
            omega (
              arith,
              lt,
              lt',
              g0 ∙ refl,
              g1,
              g2,
              g3,
              kept (24 + seg_size) (omega arith) (omega arith),
              kept (25 + seg_size) (omega arith) (omega arith),
              kept (26 + seg_size) (omega arith) (omega arith),
              kept (27 + seg_size) (omega arith) (omega arith),
              f.crc32_0,
              f.crc32_1,
              f.crc32_2,
              f.crc32_3,
            )))
  ]
    where
      inside : DifferAt g m 24 seg_size k
      inside = (diff.0, λ i a b ne. kept i (omega arith) ne)

      inside' : DifferAt m g 24 seg_size k
      inside' = (λ e. diff.0 (sym e), λ i a b ne. sym (kept i (omega arith) ne))

  refused-data_crc : 24 + seg_size ≤ k → k < 28 + seg_size → data_crc_ok g 24 seg_size ≡ false
  refused-data_crc lo hi = elim (Bool-cases (data_crc_ok g 24 seg_size)) [
    | inr bad ↦ bad
    | inl good ↦
        let (g0, g1, g2, g3) = data_crc_ok-true g seg_size good in
        let same = data_crc-same lo in
        let at0 : k ≢ 24 + seg_size =
          λ e. diff.0 (ap g e ∙ omega (arith, g0, same, f.crc32_0) ∙ ap m (sym e)) in
        let at1 : k ≢ 25 + seg_size =
          λ e. diff.0 (ap g e ∙ omega (arith, g1, same, f.crc32_1) ∙ ap m (sym e)) in
        let at2 : k ≢ 26 + seg_size =
          λ e. diff.0 (ap g e ∙ omega (arith, g2, same, f.crc32_2) ∙ ap m (sym e)) in
        let at3 : k ≢ 27 + seg_size =
          λ e. diff.0 (ap g e ∙ omega (arith, g3, same, f.crc32_3) ∙ ap m (sym e)) in
        absurd (omega (arith, at0, at1, at2, at3))
  ]

-- In a frame of at most 1023 data bytes, one byte is received wrongly, and it is not the byte 5
-- with the two sizes. Then dts_decode, which has all the frame's bytes, asks for the connection to
-- be closed, delivers nothing and changes no slot.
pub dts_decode-one_byte :
    (rx : Receiver) (req : HiPdu) (m : Mem) (id len : ℕ) (d : Mem) (seg_size offset k : ℕ)
    → IsFrame m id len d seg_size offset
    → seg_size < 1024
    → IsBytes m
    → IsBytes req.m
    → req.ap ≡ 28 + seg_size
    → k < 28 + seg_size
    → k ≢ 5
    → DifferAt req.m m 0 (28 + seg_size) k
    → Refuses rx req
dts_decode-one_byte rx req m id len d seg_size offset k f small bm bg ea lt ne5 diff =
    elim (ℕ_discrete k 0) [
      | yes e ↦ bad_preamble rx req enough (ground (arith, first e))
      | no ne0 ↦ elim (ℕ_discrete k 1) [
        | yes e ↦ bad_preamble rx req enough (ground (arith, second e))
        | no ne1 ↦ behind (omega (arith, ne0, ne1))
      ]
    ]
  where
    enough : 6 ≤ req.ap
    enough = omega arith

    first : k ≡ 0 → req.m 0 ≢ 0x90
    first e h = diff.0 (ap req.m e ∙ h ∙ sym f.sync0 ∙ ap m (sym e))

    second : k ≡ 1 → req.m 1 ≢ 0xeb
    second e h = diff.0 (ap req.m e ∙ h ∙ sym f.sync1 ∙ ap m (sym e))

    same : (i : ℕ) → i < 28 + seg_size → i ≢ k → req.m i ≡ m i
    same i a ne = diff.1 i (omega arith) (omega arith) ne

    behind : 2 ≤ k → Refuses rx req
    behind lo =
        let p0 = same 0 (omega arith) (omega arith) ∙ f.sync0 in
        let p1 = same 1 (omega arith) (omega arith) ∙ f.sync1 in
        let p5 = same 5 (omega arith) (λ e. ne5 (sym e)) ∙ f.sizes in
        let all : 22 ≤ req.ap = omega arith in
        elim (lt_or_le k 22) [
          | inl a ↦ bad_header rx req all p0 p1 p5 (refused-header f small bm req.m bg k diff lo a)
          | inr a ↦ elim (lt_or_le k 24) [
            | inl b ↦
                bad_header rx req all p0 p1 p5 (refused-header_crc f small bm req.m bg k diff a b)
            | inr b ↦
                bad_data rx req all p0 p1 p5 seg_size (omega arith)
                  (accepted-header f small bm req.m bg k diff b)
                  (accepted-process_hdr f small bm req.m bg k diff b)
                  (elim (lt_or_le k (24 + seg_size)) [
                    | inl c ↦ refused-data f small bm req.m bg k diff b c
                    | inr c ↦ refused-data_crc f small bm req.m bg k diff c lt
                  ])
          ]
        ]
