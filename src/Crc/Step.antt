-- ===== src/Crc/Step.antt =====
-- One byte: the range of the state, and that nothing is lost in it.
use open_lib.Prelude.{
  ℕ, zero, suc, ◌+◌, ◌/◌, ◌%◌, ◌^◌, ◌<◌, bit_xor, ◌≡◌, refl, sym, ap, ◌∙◌, inl, inr, arith, ◌⊎◌,
  ◌==◌, Bool-cases, eqb_iff,
}
use open_lib.Prelude.Bits.{bit_xor_step, xor_cancel, xor_comm, xor_assoc, xor-lt_pow, xor_top}
use open_lib.Crc.{crc_round, crc_rounds, crc_16_s5066, crc_32_s5066}
use native.Mathlib.Nat.{pow-suc}

digit-xor : (a b : ℕ) → a < 2 → b < 2 → bit_xor a b ≡ (a + b) % 2
digit-xor zero zero p q = refl
digit-xor zero (suc zero) p q = refl
digit-xor (suc zero) zero p q = refl
digit-xor (suc zero) (suc zero) p q = refl
digit-xor zero (suc (suc b)) p q = absurd (omega arith)
digit-xor (suc zero) (suc (suc b)) p q = absurd (omega arith)
digit-xor (suc (suc a)) b p q = absurd (omega arith)

-- The polynomial has its top digit, number `w`, set; the state has `w + 1` digits.
module _ (w low : ℕ) (small : low < 2 ^ w) where
  poly : ℕ
  poly = 2 ^ w + low

  crc_round-lt : (d c : ℕ) → d < 2 → c < 2 ^ suc w → crc_round poly d c < 2 ^ suc w
  unfolding crc_round poly
  crc_round-lt d c hd hc = ground (
    arith,
    pow-suc 2 w,
    xor_top w (c / 2) low (omega (arith, pow-suc 2 w)),
    xor-lt_pow w (c / 2) low (omega (arith, pow-suc 2 w)),
  )

  crc_rounds-lt : (n d c : ℕ) → c < 2 ^ suc w → crc_rounds poly n d c < 2 ^ suc w
  unfolding crc_rounds
  crc_rounds-lt zero d c h = h
  crc_rounds-lt (suc n) d c h =
      crc_rounds-lt n (d / 2) (crc_round poly (d % 2) c) (crc_round-lt (d % 2) c (omega arith) h)

xor_swap : (a b c : ℕ) → bit_xor (bit_xor a b) c ≡ bit_xor (bit_xor a c) b
xor_swap a b c = xor_assoc a b c ∙ ap (bit_xor a) (xor_comm b c) ∙ sym (xor_assoc a c b)

xor_drop :
    (a b c d l : ℕ) → bit_xor (bit_xor a l) b ≡ bit_xor (bit_xor c l) d → bit_xor a b ≡ bit_xor c d
xor_drop a b c d l e =
    sym (xor_cancel (bit_xor a b) l)
    ∙ ap (λ (t : ℕ). bit_xor t l) (sym (xor_swap a l b) ∙ e ∙ xor_swap c l d)
    ∙ xor_cancel (bit_xor c d) l

module _ (w low : ℕ) (small : low < 2 ^ w) where
  -- The top digit of the new state is the digit that was tested.
  round_parts :
      (d c r : ℕ)
      → d < 2
      → c < 2 ^ suc w
      → r < 2 ^ w
      → (((c + d) % 2 ≡ 0)
          × (bit_xor (crc_round (poly w low small) d c) r ≡ bit_xor (c / 2) r)
          × (bit_xor (c / 2) r < 2 ^ w))
        ⊎ (((c + d) % 2 ≡ 1)
            × (bit_xor (crc_round (poly w low small) d c) r
                ≡ 2 ^ w + bit_xor (bit_xor (c / 2) low) r)
            × (bit_xor (bit_xor (c / 2) low) r < 2 ^ w))
  unfolding crc_round poly
  round_parts d c r hd hc hr = elim (Bool-cases (bit_xor (c % 2) d == 0)) [
    | inl e ↦ inl (
      omega (arith, (eqb_iff _ 0).0 e, digit-xor (c % 2) d (omega arith) hd),
      rw e,
      xor-lt_pow w (c / 2) r half hr,
    )
    | inr e ↦ inr (
      ground (arith, e, digit-xor (c % 2) d (omega arith) hd),
      rw (e, xor_top w (c / 2) low half small, xor_comm _ r, xor_top w r _ hr inner)
          (ap (λ (t : ℕ). 2 ^ w + t) (xor_comm r _)),
      xor-lt_pow w _ r inner hr,
    )
  ]
    where
      half : c / 2 < 2 ^ w
      half = omega (arith, pow-suc 2 w)

      inner : bit_xor (c / 2) low < 2 ^ w
      inner = xor-lt_pow w (c / 2) low half small

  crc_round-inj :
      (d c r d' c' r' : ℕ)
      → d < 2
      → d' < 2
      → c < 2 ^ suc w
      → c' < 2 ^ suc w
      → r < 2 ^ w
      → r' < 2 ^ w
      → bit_xor (crc_round (poly w low small) d c) r
        ≡ bit_xor (crc_round (poly w low small) d' c') r'
      → ((c + d) % 2 ≡ (c' + d') % 2) × (bit_xor (c / 2) r ≡ bit_xor (c' / 2) r')
  crc_round-inj d c r d' c' r' hd hd' hc hc' hr hr' e = elim (round_parts d c r hd hc hr) [
    | inl (p, q, s) ↦ elim (round_parts d' c' r' hd' hc' hr') [
      | inl (p', q', s') ↦ (omega arith, omega arith)
      | inr (p', q', s') ↦ absurd (omega arith)
    ]
    | inr (p, q, s) ↦ elim (round_parts d' c' r' hd' hc' hr') [
      | inl (p', q', s') ↦ absurd (omega arith)
      | inr (p', q', s') ↦ (omega arith, xor_drop (c / 2) r (c' / 2) r' low (omega arith))
    ]
  ]

  -- Equal results come from states that differ exactly where the bytes do.
  crc_rounds-inj :
      (n d c d' c' : ℕ)
      → d < 2 ^ n
      → d' < 2 ^ n
      → d < 2 ^ suc w
      → d' < 2 ^ suc w
      → c < 2 ^ suc w
      → c' < 2 ^ suc w
      → crc_rounds (poly w low small) n d c ≡ crc_rounds (poly w low small) n d' c'
      → bit_xor c d ≡ bit_xor c' d'
  unfolding crc_rounds
  crc_rounds-inj zero d c d' c' hd hd' kd kd' hc hc' e =
      let z : d ≡ 0 = omega arith in
      let z' : d' ≡ 0 = omega arith in rw (z, z') (ap (λ (t : ℕ). bit_xor t 0) e)
  crc_rounds-inj (suc n) d c d' c' hd hd' kd kd' hc hc' e =
      let step =
        crc_round-inj (d % 2) c (d / 2) (d' % 2) c' (d' / 2) (omega arith) (omega arith) hc hc'
          (omega (arith, pow-suc 2 w)) (omega (arith, pow-suc 2 w))
          (crc_rounds-inj n (d / 2) _ (d' / 2) _ (omega (arith, pow-suc 2 n))
            (omega (arith, pow-suc 2 n)) (omega arith) (omega arith)
            (crc_round-lt w low small (d % 2) c (omega arith) hc)
            (crc_round-lt w low small (d' % 2) c' (omega arith) hc') e) in
      omega (arith, bit_xor_step c d, bit_xor_step c' d', step.0, step.1)

-- A property of one byte's function that the batch needs: the state keeps to `n`, and equal
-- results come from states that differ exactly where the bytes do.
pub record IsChecksum (byte : ℕ → ℕ → ℕ) (n : ℕ) : Type 0 where
  pub bounded : (b c : ℕ) → c < n → byte b c < n
  pub faithful :
      (b c b' c' : ℕ)
      → b < 256
      → b' < 256
      → c < n
      → c' < n
      → byte b c ≡ byte b' c'
      → bit_xor c b ≡ bit_xor c' b'

pub crc_16_s5066-IsChecksum : IsChecksum crc_16_s5066 (2 ^ 16)
unfolding crc_16_s5066 poly
crc_16_s5066-IsChecksum = record {
  bounded = λ b c h. crc_rounds-lt 15 0x1299 (omega arith) 8 b c h;
  faithful = λ b c b' c' hb hb' hc hc' e.
      crc_rounds-inj 15 0x1299 (omega arith) 8 b c b' c' hb hb' (omega arith) (omega arith) hc hc'
        e;
}

pub crc_32_s5066-IsChecksum : IsChecksum crc_32_s5066 (2 ^ 32)
unfolding crc_32_s5066 poly
crc_32_s5066-IsChecksum = record {
  bounded = λ b c h. crc_rounds-lt 31 0x73a4e550 (omega arith) 8 b c h;
  faithful = λ b c b' c' hb hb' hc hc' e.
      crc_rounds-inj 31 0x73a4e550 (omega arith) 8 b c b' c' hb hb' (omega arith) (omega arith) hc
        hc' e;
}
