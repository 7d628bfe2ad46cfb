-- ===== src/Counters.antt =====
-- globalcounter.c and globalcounter.h: counters that are kept in an array. An `int` is its
-- bit pattern, so that -1 is 2 ^ 32 - 1; an index may be negative.
use open_lib.Prelude.{
  ℕ, zero, suc, ◌+◌, ◌-◌, ◌%◌, ◌^◌, Option, none, some, ltb, ◌==◌, if◌then◌else◌,
}
use open_lib.Prelude.Pointers.{update}
pub mod Range
pub mod Names

-- `negsuc n` is -(n + 1).
pub data ℤ : Type 0 where
  pos negsuc : ℕ → ℤ

-- `NUM_GLOBALCOUNTERS`; the array itself has one entry more.
abbrev pub num_globalcounters : ℕ
num_globalcounters = 20

abbrev pub minus_one : ℕ
minus_one = 2 ^ 32 - 1

-- The entry that an index stands for, when it is in range.
abbrev pub entry : ℤ → Option ℕ
entry (pos i) = if ltb i num_globalcounters then some i else none
entry (negsuc n) = none

unfoldable pub get_globalcounter : (ℕ → ℕ) → ℤ → ℕ
get_globalcounter globalcounters index = elim (entry index) [
  | none ↦ minus_one
  | some i ↦ globalcounters i
]

-- The value of the macro, and the array behind it.
unfoldable pub set_globalcounter : (ℕ → ℕ) → ℤ → ℕ → ℕ × (ℕ → ℕ)
set_globalcounter globalcounters index value = elim (entry index) [
  | none ↦ (minus_one, globalcounters)
  | some i ↦ (value, update globalcounters i value)
]

unfoldable pub add_to_globalcounter : (ℕ → ℕ) → ℤ → ℕ → ℕ × (ℕ → ℕ)
add_to_globalcounter globalcounters index value = elim (entry index) [
  | none ↦ (minus_one, globalcounters)
  | some i ↦ let sum = (globalcounters i + value) % 2 ^ 32 in (sum, update globalcounters i sum)
]

unfoldable pub reset_globalcounter : (ℕ → ℕ) → ℤ → ℕ × (ℕ → ℕ)
unfolding set_globalcounter
reset_globalcounter globalcounters index = set_globalcounter globalcounters index 0

-- The loop from `i` on, with the rounds that are left.
unfoldable pub reset_loop : ℕ → ℕ → (ℕ → ℕ) → (ℕ → ℕ)
unfolding reset_globalcounter
reset_loop zero i globalcounters = globalcounters
reset_loop (suc rounds) i globalcounters =
    reset_loop rounds (i + 1) (reset_globalcounter globalcounters (pos i)).1

unfoldable pub reset_allglobalcounters : (ℕ → ℕ) → (ℕ → ℕ)
unfolding reset_loop
reset_allglobalcounters globalcounters = reset_loop num_globalcounters 0 globalcounters
