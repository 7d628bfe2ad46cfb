-- ===== src/Errmac/Ber/Lengths.antt =====
-- BER_LEN of errmac.h reads what BER_LEN_WRITE has written.
use open_lib.Prelude.{
  ℕ, ◌+◌, ◌*◌, ◌/◌, ◌%◌, ◌^◌, ◌≤◌, ◌<◌, ◌≡◌, ◌⊎◌, inl, inr, refl, Bool-cases, true, ap, ◌∙◌, lt→ltb,
  arith, Mem, store, leb,
}
use open_lib.Errmac.Ber.{ber_len, ber_len_write}

ber_len-short : (m : Mem) (p : ℕ) → m p < 128 → ber_len m p ≡ (m p, p + 1)
unfolding ber_len
ber_len-short m p h = rw (lt→ltb (m p) 128 h) refl

ber_len-one : (m : Mem) (p : ℕ) → m p ≡ 0x81 → ber_len m p ≡ (m (p + 1), p + 2)
unfolding ber_len
ber_len-one m p h = rw h refl

ber_len-two : (m : Mem) (p : ℕ) → m p ≡ 0x82 → ber_len m p ≡ (m (p + 1) * 2 ^ 8 + m (p + 2), p + 3)
unfolding ber_len
ber_len-two m p h = rw h refl

ber_len-three :
    (m : Mem) (p : ℕ)
    → m p ≡ 0x83
    → ber_len m p ≡ (m (p + 1) * 2 ^ 16 + m (p + 2) * 2 ^ 8 + m (p + 3), p + 4)
unfolding ber_len
ber_len-three m p h = rw h refl

ber_len-four :
    (m : Mem) (p : ℕ)
    → m p ≡ 0x84
    → ber_len m p ≡ (m (p + 1) * 2 ^ 24 + m (p + 2) * 2 ^ 16 + m (p + 3) * 2 ^ 8 + m (p + 4), p + 5)
unfolding ber_len
ber_len-four m p h = rw h refl

-- `x` is read at `p`, up to where the writing ended, and nothing in front of `p` or behind that place
-- was changed.
abbrev IsReadBack : Mem → ℕ → ℕ → Mem × ℕ → Type 0
IsReadBack m p x r =
    (ber_len r.0 p ≡ (x, r.1))
    × ((i : ℕ) → (i < p) ⊎ (r.1 ≤ i) → r.0 i ≡ m i)
    × (p < r.1)
    × (r.1 ≤ p + 5)

module _ (m : Mem) (p x : ℕ) where
  short_form : x < 128 → IsReadBack m p x (store m p x, p + 1)
  short_form h =
      let byte : store m p x p ≡ x = ground (arith, h) in
      (
        ber_len-short (store m p x) p (omega (arith, byte, h)) ∙ ap (λ v. (v, p + 1)) byte,
        λ i out. ground (arith, out),
        omega arith,
        omega arith,
      )

  one_byte : x < 2 ^ 8 → IsReadBack m p x (store (store m p 0x81) (p + 1) x, p + 2)
  one_byte h =
      let w = store (store m p 0x81) (p + 1) x in
      let byte : w (p + 1) ≡ x = ground (arith, h) in
      (
        ber_len-one w p (ground arith) ∙ ap (λ v. (v, p + 2)) byte,
        λ i out. ground (arith, out),
        omega arith,
        omega arith,
      )

  two_bytes :
      x < 2 ^ 16
      → IsReadBack m p x (store (store (store m p 0x82) (p + 1) (x / 2 ^ 8)) (p + 2) x, p + 3)
  two_bytes h =
      let w = store (store (store m p 0x82) (p + 1) (x / 2 ^ 8)) (p + 2) x in
      let first : w (p + 1) ≡ x / 2 ^ 8 % 256 = ground arith in
      let second : w (p + 2) ≡ x % 256 = ground arith in
      let value : w (p + 1) * 2 ^ 8 + w (p + 2) ≡ x = omega (arith, first, second, h) in
      (
        ber_len-two w p (ground arith) ∙ ap (λ v. (v, p + 3)) value,
        λ i out. ground (arith, out),
        omega arith,
        omega arith,
      )

  three_bytes :
      x < 2 ^ 24
      → IsReadBack m p x (
        store (store (store (store m p 0x83) (p + 1) (x / 2 ^ 16)) (p + 2) (x / 2 ^ 8)) (p + 3) x,
        p + 4,
      )
  three_bytes h =
      let w =
        store (store (store (store m p 0x83) (p + 1) (x / 2 ^ 16)) (p + 2) (x / 2 ^ 8)) (p + 3) x in
      let first : w (p + 1) ≡ x / 2 ^ 16 % 256 = ground arith in
      let second : w (p + 2) ≡ x / 2 ^ 8 % 256 = ground arith in
      let third : w (p + 3) ≡ x % 256 = ground arith in
      let value : w (p + 1) * 2 ^ 16 + w (p + 2) * 2 ^ 8 + w (p + 3) ≡ x =
        omega (arith, first, second, third, h) in
      (
        ber_len-three w p (ground arith) ∙ ap (λ v. (v, p + 4)) value,
        λ i out. ground (arith, out),
        omega arith,
        omega arith,
      )

  four_bytes :
      x < 2 ^ 32
      → IsReadBack m p x (
        store
            (store
              (store (store (store m p 0x84) (p + 1) (x / 2 ^ 24)) (p + 2) (x / 2 ^ 16))
              (p + 3)
              (x / 2 ^ 8))
            (p + 4)
            x,
        p + 5,
      )
  four_bytes h =
      let w =
        store
          (store (store (store (store m p 0x84) (p + 1) (x / 2 ^ 24)) (p + 2) (x / 2 ^ 16)) (p + 3)
            (x / 2 ^ 8))
          (p + 4) x in
      let first : w (p + 1) ≡ x / 2 ^ 24 % 256 = ground arith in
      let second : w (p + 2) ≡ x / 2 ^ 16 % 256 = ground arith in
      let third : w (p + 3) ≡ x / 2 ^ 8 % 256 = ground arith in
      let fourth : w (p + 4) ≡ x % 256 = ground arith in
      let value : w (p + 1) * 2 ^ 24 + w (p + 2) * 2 ^ 16 + w (p + 3) * 2 ^ 8 + w (p + 4) ≡ x =
        omega (arith, first, second, third, fourth, h) in
      (
        ber_len-four w p (ground arith) ∙ ap (λ v. (v, p + 5)) value,
        λ i out. ground (arith, out),
        omega arith,
        omega arith,
      )

-- What BER_LEN_WRITE has written for a number of 32 bits is read by BER_LEN as that number, up to
-- the same place. At most five bytes are written, and nothing in front of them or behind is changed.
ber_len-ber_len_write : (m : Mem) (p x : ℕ) → x < 2 ^ 32 → IsReadBack m p x (ber_len_write m p x)
unfolding ber_len_write
ber_len-ber_len_write m p x h = elim (Bool-cases (leb x 0x7f)) [
  | inl a ↦ rw a (short_form m p x (ground (arith, a)))
  | inr a ↦ rw a (elim (Bool-cases (leb x 255)) [
    | inl b ↦ rw b (one_byte m p x (ground (arith, b)))
    | inr b ↦ rw b (elim (Bool-cases (leb x 65535)) [
      | inl c ↦ rw c (two_bytes m p x (ground (arith, c)))
      | inr c ↦ rw c (elim (Bool-cases (leb x 16777215)) [
        | inl d ↦ rw d (three_bytes m p x (ground (arith, d)))
        | inr d ↦
            (let all : leb x 4294967295 ≡ true = ground (arith, h) in
              rw (d, all) (four_bytes m p x h))
      ])
    ])
  ])
]
