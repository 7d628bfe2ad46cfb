-- ===== src/Errmac/Ber/Tags.antt =====
-- What BER_TAG_WRITE of errmac.h writes, read digit by digit.
use open_lib.Prelude.{
  ℕ, zero, suc, ◌+◌, ◌*◌, ◌/◌, ◌%◌, ◌^◌, ◌≤◌, ◌<◌, ◌≡◌, ◌⊎◌, inl, inr, Bool-cases, refl, ◌∙◌, arith,
  Mem, store, ltb, lt→ltb, ltb-false, if◌then◌else◌,
}
use open_lib.Errmac.Ber.{ber_tag_write}

-- At most `n` digits to the base 128 from `p` on, the last one without the high bit: the number, and
-- the place behind it.
base128 : ℕ → Mem → ℕ → ℕ → ℕ × ℕ
base128 zero m p acc = (acc, p)
base128 (suc n) m p acc =
    let more = base128 n m (p + 1) (acc * 128 + m p % 128) in
    if ltb (m p) 128 then (acc * 128 + m p, p + 1) else more

last_digit :
    (n : ℕ) (m : Mem) (p acc v : ℕ)
    → m p ≡ v
    → v < 128
    → base128 (suc n) m p acc ≡ (acc * 128 + v, p + 1)
unfolding base128
last_digit n m p acc v e h = rw (e, lt→ltb v 128 h) refl

more_digits :
    (n : ℕ) (m : Mem) (p acc v : ℕ)
    → m p ≡ 128 + v
    → v < 128
    → base128 (suc n) m p acc ≡ base128 n m (p + 1) (acc * 128 + v)
unfolding base128
more_digits n m p acc v e h =
    let digit : (128 + v) % 128 ≡ v = omega (arith, h) in
    rw (e, ltb-false (128 + v) 128 (omega arith), digit) refl

-- `x` is read at `p`, up to where the writing ended, and nothing else was changed.
abbrev IsTag : Mem → ℕ → ℕ → Mem × ℕ → Type 0
IsTag m p x r = (base128 4 r.0 p 0 ≡ (x, r.1)) × ((i : ℕ) → (i < p) ⊎ (r.1 ≤ i) → r.0 i ≡ m i)

pair : (a b x p : ℕ) → a ≡ x → b ≡ p → ◌≡◌ {A = ℕ × ℕ} (a, b) (x, p)
pair a b x p e f = rw (e, f) refl

module _ (m : Mem) (p x : ℕ) where
  one_digit : x < 2 ^ 7 → IsTag m p x (store m p x, p + 1)
  one_digit h = (
    last_digit 3 (store m p x) p 0 x (ground (arith, h)) h
        ∙ pair (0 * 128 + x) (p + 1) x (p + 1) (omega arith) refl,
    λ i out. ground (arith, out),
  )

  two_digits :
      x < 2 ^ 14 → IsTag m p x (store (store m p (128 + x / 2 ^ 7 % 128)) (p + 1) (x % 128), p + 2)
  two_digits h =
      let w = store (store m p (128 + x / 2 ^ 7 % 128)) (p + 1) (x % 128) in
      (
        more_digits 3 w p 0 (x / 2 ^ 7 % 128) (ground arith) (omega arith)
            ∙ last_digit 2 w (p + 1) (0 * 128 + x / 2 ^ 7 % 128) (x % 128) (ground arith)
                (omega arith)
            ∙ pair _ _ x (p + 2) (omega (arith, h)) (omega arith),
        λ i out. ground (arith, out),
      )

  three_digits :
      x < 2 ^ 21
      → IsTag m p x (
        store
            (store (store m p (128 + x / 2 ^ 14 % 128)) (p + 1) (128 + x / 2 ^ 7 % 128))
            (p + 2)
            (x % 128),
        p + 3,
      )
  three_digits h =
      let w =
        store (store (store m p (128 + x / 2 ^ 14 % 128)) (p + 1) (128 + x / 2 ^ 7 % 128)) (p + 2)
          (x % 128) in
      (
        more_digits 3 w p 0 (x / 2 ^ 14 % 128) (ground arith) (omega arith)
            ∙ more_digits 2 w (p + 1) (0 * 128 + x / 2 ^ 14 % 128) (x / 2 ^ 7 % 128) (ground arith)
                (omega arith)
            ∙ last_digit 1 w (p + 1 + 1) _ (x % 128) (ground arith) (omega arith)
            ∙ pair _ _ x (p + 3) (omega (arith, h)) (omega arith),
        λ i out. ground (arith, out),
      )

  four_digits :
      x < 2 ^ 28
      → IsTag m p x (
        store
            (store
              (store (store m p (128 + x / 2 ^ 21 % 128)) (p + 1) (128 + x / 2 ^ 14 % 128))
              (p + 2)
              (128 + x / 2 ^ 7 % 128))
            (p + 3)
            (x % 128),
        p + 4,
      )
  four_digits h =
      let w =
        store
          (store (store (store m p (128 + x / 2 ^ 21 % 128)) (p + 1) (128 + x / 2 ^ 14 % 128))
            (p + 2) (128 + x / 2 ^ 7 % 128))
          (p + 3) (x % 128) in
      (
        more_digits 3 w p 0 (x / 2 ^ 21 % 128) (ground arith) (omega arith)
            ∙ more_digits 2 w (p + 1) (0 * 128 + x / 2 ^ 21 % 128) (x / 2 ^ 14 % 128) (ground arith)
                (omega arith)
            ∙ more_digits 1 w (p + 1 + 1) _ (x / 2 ^ 7 % 128) (ground arith) (omega arith)
            ∙ last_digit 0 w (p + 1 + 1 + 1) _ (x % 128) (ground arith) (omega arith)
            ∙ pair _ _ x (p + 4) (omega (arith, h)) (omega arith),
        λ i out. ground (arith, out),
      )

-- What BER_TAG_WRITE writes for a number below 2 ^ 28 is that number to the base 128.
base128-ber_tag_write : (m : Mem) (p x : ℕ) → x < 2 ^ 28 → IsTag m p x (ber_tag_write m p x)
unfolding ber_tag_write
base128-ber_tag_write m p x h = elim (Bool-cases (ltb x (2 ^ 7))) [
  | inl a ↦ rw a (one_digit m p x (ground (arith, a)))
  | inr a ↦ rw a (elim (Bool-cases (ltb x (2 ^ 14))) [
    | inl b ↦ rw b (two_digits m p x (ground (arith, b)))
    | inr b ↦ rw b (elim (Bool-cases (ltb x (2 ^ 21))) [
      | inl c ↦ rw c (three_digits m p x (ground (arith, c)))
      | inr c ↦ rw (c, lt→ltb x (2 ^ 28) h) (four_digits m p x h)
    ])
  ])
]
