-- ===== src/Errmac/Bitmap.antt =====
-- What SET_BIT sets.
use open_lib.Prelude.{
  ℕ, ◌/◌, ◌%◌, ◌≡◌, ◌<◌, refl, true, not, ◌&&◌, ◌||◌, Bool, arith, Mem, IsBytes, ◌==◌,
  if◌then◌else◌,
}
use open_lib.Prelude.Tables.{table, table_holds}
use open_lib.Errmac.{has_digit, with_digit, get_bit, set_bit}

-- The bits that share a place with bit `i`: `i` itself and its neighbour four away.
abbrev pub same_place : ℕ → ℕ → Bool
same_place i j = (i / 8 == j / 8) && (i % 4 == j % 4)

abbrev agree : Bool → Bool → Bool
agree p q = if p then q else not q

agree→eq : (p q : Bool) → agree p q ≡ true → p ≡ q
agree→eq p q h = ground arith

abbrev law : ℕ → ℕ → ℕ → Bool
law i j b = agree (has_digit (with_digit b i % 256) j) ((i == j) || has_digit b j)

digits_agree : table (λ i. table (λ j. table (law i j) 256) 4) 4 ≡ true
unfolding table
digits_agree = refl

has_digit-with_digit :
    (b i j : ℕ)
    → b < 256
    → i < 4
    → j < 4
    → has_digit (with_digit b i % 256) j ≡ ((i == j) || has_digit b j)
has_digit-with_digit b i j hb hi hj =
    let row = table_holds (λ i. table (λ j. table (law i j) 256) 4) 4 digits_agree i hi in
    let column = table_holds (λ j. table (law i j) 256) 4 row j hj in
    agree→eq _ _ (table_holds (law i j) 256 column b hb)

-- SET_BIT sets its bit, the neighbour that shares the place with it, and no other.
pub get_bit-set_bit :
    (a : Mem) (i j : ℕ) → IsBytes a → get_bit (set_bit a i) j ≡ (same_place i j || get_bit a j)
unfolding get_bit set_bit
get_bit-set_bit a i j h =
    ground (arith, has_digit-with_digit (a (i / 8)) (i % 4) (j % 4) (h (i / 8)))

pub set_bit-IsBytes : (a : Mem) (i : ℕ) → IsBytes a → IsBytes (set_bit a i)
unfolding set_bit
set_bit-IsBytes a i h k = ground (arith, h k)
