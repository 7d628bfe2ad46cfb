-- ===== src/Errmac.antt =====
-- The nibble and bit arrays of errmac.h. An array is a part of a buffer: `base` is where it starts.
pub mod Nibbles
pub mod Bitmap
pub mod Links
pub mod Url
pub mod Ber
use open_lib.Prelude.{ℕ, ◌+◌, ◌*◌, ◌/◌, ◌%◌, ◌^◌, Bool, Mem, store, ◌==◌, if◌then◌else◌}

-- `GET_NIBBLE(m + base, i)`
unfoldable pub get_nibble : Mem → ℕ → ℕ → ℕ
get_nibble m base i = if i % 2 == 1 then m (base + i / 2) % 16 else m (base + i / 2) / 16 % 16

-- `SET_NIBBLE(m + base, i, v)`. At an even `i` the new digits are `(v << 4) & 0xf`, which is
-- `v * 16 % 16`: the mask cuts off what the shift has moved. So the `|` there is a sum.
unfoldable pub set_nibble : Mem → ℕ → ℕ → ℕ → Mem
set_nibble m base i v =
    let old = m (base + i / 2) in
    if i % 2 == 1
    then store m (base + i / 2) (old / 16 % 16 * 16 + v % 16)
    else store m (base + i / 2) (old % 16 + v * 16 % 16)

-- `b & (1 << k)`, as a test
abbrev pub has_digit : ℕ → ℕ → Bool
has_digit b k = b / 2 ^ k % 2 == 1

-- `b | (1 << k)`
abbrev pub with_digit : ℕ → ℕ → ℕ
with_digit b k = if has_digit b k then b else b + 2 ^ k

-- `GET_BIT(a, i)`. The digit is number `i & 0x3` of byte `i >> 3`.
unfoldable pub get_bit : Mem → ℕ → Bool
get_bit a i = has_digit (a (i / 8)) (i % 4)

-- `SET_BIT(a, i, 1)`
unfoldable pub set_bit : Mem → ℕ → Mem
set_bit a i = store a (i / 8) (with_digit (a (i / 8)) (i % 4))
