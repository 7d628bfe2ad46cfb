-- ===== src/Counters/Range.antt =====
-- Which counters the operations change.
use open_lib.Prelude.{
  ℕ, zero, suc, ◌+◌, ◌%◌, ◌^◌, ◌≤◌, ◌<◌, none, some, ◌≡◌, ◌≢◌, refl, ap, ◌∙◌, ◌&&◌, ltb, leb,
  if◌then◌else◌, arith, ltb-false, lt→ltb,
}
use open_lib.Prelude.Pointers.{update}
use open_lib.Counters.{
  ℤ, pos, negsuc, minus_one, entry, get_globalcounter, set_globalcounter, add_to_globalcounter,
  reset_globalcounter, reset_loop, reset_allglobalcounters,
}

-- In the range an operation that gives the value `v` changes the one counter to it.
abbrev pub Changes : (ℕ → ℕ) → ℕ → ℕ → ℕ × (ℕ → ℕ) → Type 0
Changes cs i v r =
    (r.0 ≡ v) × (get_globalcounter r.1 (pos i) ≡ v) × ((j : ℕ) → j ≢ i → r.1 j ≡ cs j)

abbrev pub IsOutside : ℤ → Type 0
IsOutside (pos i) = 20 ≤ i
IsOutside (negsuc n) = Unit {0}

entry-outside : (index : ℤ) → IsOutside index → entry index ≡ none
entry-outside (pos i) h = rw (ltb-false i 20 h) refl
entry-outside (negsuc n) h = refl

entry-inside : (i : ℕ) → i < 20 → entry (pos i) ≡ some i
entry-inside i h = rw (lt→ltb i 20 h) refl

-- An array in which the one counter is written.
written : (cs : ℕ → ℕ) (i v : ℕ) → i < 20 → Changes cs i v (v, update cs i v)
unfolding get_globalcounter
written cs i v h =
    (refl, rw (entry-inside i h, get_globalcounter) (ground arith), λ j ne. ground arith)

-- Below 0 and from 20 on, nothing is read or written and the result is -1. In the range exactly the
-- one counter changes, by wrapping addition or to the value that is given, and is read as the
-- result.
pub add_set_bounds :
    (cs : ℕ → ℕ) (value : ℕ)
    → ((index : ℤ)
        → IsOutside index
        → (add_to_globalcounter cs index value ≡ (minus_one, cs))
          × (set_globalcounter cs index value ≡ (minus_one, cs))
          × (get_globalcounter cs index ≡ minus_one))
      × ((i : ℕ)
          → i < 20
          → Changes cs i ((cs i + value) % 2 ^ 32) (add_to_globalcounter cs (pos i) value)
            × Changes cs i value (set_globalcounter cs (pos i) value))
unfolding get_globalcounter set_globalcounter add_to_globalcounter
add_set_bounds cs value = (
  λ index out.
      let e = entry-outside index out in
      (
        rw (e, add_to_globalcounter) refl,
        rw (e, set_globalcounter) refl,
        rw (e, get_globalcounter) refl,
      ),
  λ i lt.
      let e = entry-inside i lt in
      (
        rw (e, add_to_globalcounter) (written cs i ((cs i + value) % 2 ^ 32) lt),
        rw (e, set_globalcounter) (written cs i value lt),
      ),
)

reset_one : (cs : ℕ → ℕ) (i : ℕ) → i < 20 → (reset_globalcounter cs (pos i)).1 ≡ update cs i 0
unfolding reset_globalcounter set_globalcounter
reset_one cs i h = rw (entry-inside i h, set_globalcounter) refl

reset_loop_lem :
    (rounds i : ℕ) (cs : ℕ → ℕ) (j : ℕ)
    → i + rounds ≤ 20
    → reset_loop rounds i cs j ≡ (if leb i j && ltb j (i + rounds) then 0 else cs j)
unfolding reset_loop
reset_loop_lem zero i cs j h = ground arith
reset_loop_lem (suc rounds) i cs j h =
    ap (λ c. reset_loop rounds (i + 1) c j) (reset_one cs i (omega arith))
    ∙ reset_loop_lem rounds (i + 1) (update cs i 0) j (omega arith)
    ∙ ground arith

-- The counters 0 to 19 become 0; the last entry of the array, 20, keeps its value.
pub reset_allglobalcounters_lem :
    (cs : ℕ → ℕ)
    → ((j : ℕ) → j < 20 → reset_allglobalcounters cs j ≡ 0)
      × (reset_allglobalcounters cs 20 ≡ cs 20)
unfolding reset_allglobalcounters
reset_allglobalcounters_lem cs = (
  λ j lt. reset_loop_lem 20 0 cs j (omega arith) ∙ ground arith,
  reset_loop_lem 20 0 cs 20 (omega arith),
)
