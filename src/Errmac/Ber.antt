-- ===== src/Errmac/Ber.antt =====
-- The BER macros of errmac.h, on bytes that are unsigned and a number of 32 bits without a sign.
pub mod Lengths
pub mod Tags
use open_lib.Prelude.{
  ℕ, ◌+◌, ◌*◌, ◌/◌, ◌%◌, ◌^◌, ◌≤◌, ◌<◌, ◌≡◌, ◌⊎◌, inl, inr, refl, Bool-cases, true, ap, ◌∙◌, lt→ltb,
  arith, Mem, store, ltb, leb, ◌==◌, if◌then◌else◌,
}

-- `BER_LEN(p, x)`: the number, and `p` behind it. Behind a count of none or of more than four,
-- `x` stays the first byte.
unfoldable pub ber_len : Mem → ℕ → ℕ × ℕ
ber_len m p =
    let x = m p in
    let n = x % 128 in
    if ltb x 128
    then (x, p + 1)
    else if n == 1
    then (m (p + 1), p + 2)
    else if n == 2
    then (m (p + 1) * 2 ^ 8 + m (p + 2), p + 3)
    else if n == 3
    then (m (p + 1) * 2 ^ 16 + m (p + 2) * 2 ^ 8 + m (p + 3), p + 4)
    else if n == 4
    then (m (p + 1) * 2 ^ 24 + m (p + 2) * 2 ^ 16 + m (p + 3) * 2 ^ 8 + m (p + 4), p + 5)
    else (x, p + 1)

-- `BER_LEN_WRITE(p, x)`: the buffer, and `p` behind what was written.
unfoldable pub ber_len_write : Mem → ℕ → ℕ → Mem × ℕ
ber_len_write m p x =
    if leb x 0x7f
    then (store m p x, p + 1)
    else if leb x 255
    then (store (store m p 0x81) (p + 1) x, p + 2)
    else if leb x 65535
    then (store (store (store m p 0x82) (p + 1) (x / 2 ^ 8)) (p + 2) x, p + 3)
    else if leb x 16777215
    then (
      store (store (store (store m p 0x83) (p + 1) (x / 2 ^ 16)) (p + 2) (x / 2 ^ 8)) (p + 3) x,
      p + 4,
    )
    else if leb x 4294967295
    then (
      store
          (store (store (store (store m p 0x84) (p + 1) (x / 2 ^ 24)) (p + 2) (x / 2 ^ 16)) (p + 3)
            (x / 2 ^ 8))
          (p + 4) x,
      p + 5,
    )
    else (m, p)

-- `BER_TAG_WRITE(p, x)`: digits to the base 128, the most significant one first, all but the last one
-- with the high bit.
unfoldable pub ber_tag_write : Mem → ℕ → ℕ → Mem × ℕ
ber_tag_write m p x =
    if ltb x (2 ^ 7)
    then (store m p x, p + 1)
    else if ltb x (2 ^ 14)
    then (store (store m p (128 + x / 2 ^ 7 % 128)) (p + 1) (x % 128), p + 2)
    else if ltb x (2 ^ 21)
    then (
      store (store (store m p (128 + x / 2 ^ 14 % 128)) (p + 1) (128 + x / 2 ^ 7 % 128)) (p + 2)
          (x % 128),
      p + 3,
    )
    else if ltb x (2 ^ 28)
    then (
      store
          (store (store (store m p (128 + x / 2 ^ 21 % 128)) (p + 1) (128 + x / 2 ^ 14 % 128))
            (p + 2) (128 + x / 2 ^ 7 % 128))
          (p + 3) (x % 128),
      p + 4,
    )
    else (m, p)

-- `BER_UINT_WRITE(p, x)`
unfoldable pub ber_uint_write : Mem → ℕ → ℕ → Mem × ℕ
ber_uint_write m p x =
    if leb x 0x7f
    then (store m p x, p + 1)
    else if leb x 0x7fff
    then (store (store m p (x / 2 ^ 8)) (p + 1) x, p + 2)
    else if leb x 0x7fffff
    then (store (store (store m p (x / 2 ^ 16)) (p + 1) (x / 2 ^ 8)) (p + 2) x, p + 3)
    else if leb x 0x7fffffff
    then (
      store (store (store (store m p (x / 2 ^ 24)) (p + 1) (x / 2 ^ 16)) (p + 2) (x / 2 ^ 8))
          (p + 3) x,
      p + 4,
    )
    else (m, p)
