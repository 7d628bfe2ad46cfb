-- ===== src/Dts/Reassembly.antt =====
-- The map of received bytes in dts_data: what it says once some segments have come.
use open_lib.Prelude.{
  ℕ, zero, suc, ◌+◌, ◌%◌, ◌≤◌, ◌<◌, ◌≡◌, refl, sym, ap, ◌∙◌, ◌⊎◌, inl, inr, ◌↔◌, Bool, true, false,
  ◌&&◌, ◌||◌, Bool-cases, List, [], ◌∷◌, arith, Mem, IsBytes, ltb, leb,
}
use open_lib.Prelude.Lists.{All}
use native.Mathlib.Decide.{ℕ_discrete}
use open_lib.Errmac.{get_bit, set_bit}
use open_lib.Errmac.Bitmap.{same_place, get_bit-set_bit, set_bit-IsBytes}
use open_lib.Dts.Receive.{color_map, scan_map}

-- Does one of the `n` bits from `i` on share its place with bit `j`?
places : ℕ → ℕ → ℕ → Bool
places zero i j = false
places (suc n) i j = same_place i j || places n (i + 1) j

color_map-IsBytes : (n : ℕ) (map : Mem) (i : ℕ) → IsBytes map → IsBytes (color_map n map i)
unfolding color_map
color_map-IsBytes zero map i b = b
color_map-IsBytes (suc n) map i b =
    color_map-IsBytes n (set_bit map i) (i + 1) (set_bit-IsBytes map i b)

swap_or : (p q r : Bool) → (p || (q || r)) ≡ ((q || p) || r)
swap_or p q r = ground arith

get_bit-color_map :
    (n : ℕ) (map : Mem) (i j : ℕ)
    → IsBytes map
    → get_bit (color_map n map i) j ≡ (places n i j || get_bit map j)
unfolding color_map places
get_bit-color_map zero map i j b = refl
get_bit-color_map (suc n) map i j b =
    get_bit-color_map n (set_bit map i) (i + 1) j (set_bit-IsBytes map i b)
    ∙ ap (λ t. places n (i + 1) j || t) (get_bit-set_bit map i j b)
    ∙ swap_or (places n (i + 1) j) (same_place i j) (get_bit map j)

places-inside : (n i j : ℕ) → i ≤ j → j < i + n → places n i j ≡ true
unfolding places
places-inside zero i j lo hi = absurd (omega arith)
places-inside (suc n) i j lo hi = elim (ℕ_discrete i j) [
  | yes e ↦ rw (sym e) (ground arith)
  | no ne ↦ ground (arith, places-inside n (i + 1) j (omega (arith, ne)) (omega arith))
]

places-outside :
    (n i j : ℕ) → ((k : ℕ) → i ≤ k → k < i + n → same_place k j ≡ false) → places n i j ≡ false
unfolding places
places-outside zero i j h = refl
places-outside (suc n) i j h =
    rw
      (
        h i (omega arith) (omega arith),
        places-outside n (i + 1) j (λ k lo hi. h k (omega arith) (omega arith)),
      )
      refl

-- Of a C_PDU of `len` bytes: `size` bytes from a multiple of eight on, as many as another multiple
-- of eight, or all that follow.
abbrev pub IsAligned : ℕ → ℕ × ℕ → Type 0
IsAligned len (offset, size) = (offset % 8 ≡ 0) × ((size % 8 ≡ 0) ⊎ (offset + size ≡ len))

abbrev pub within : ℕ × ℕ → ℕ → Bool
within (offset, size) j = leb offset j && ltb j (offset + size)

abbrev pub covered : List (ℕ × ℕ) → ℕ → Bool
covered [] j = false
covered (s ∷ segs) j = within s j || covered segs j

apart :
    (len offset size j k : ℕ)
    → IsAligned len (offset, size)
    → j < len
    → within (offset, size) j ≡ false
    → offset ≤ k
    → k < offset + size
    → same_place k j ≡ false
apart len offset size j k (o, inl whole) hj out lo hi = ground (arith, o, whole)
apart len offset size j k (o, inr rest) hj out lo hi = ground (arith, o, rest)

places-within :
    (len offset size j : ℕ)
    → IsAligned len (offset, size)
    → j < len
    → places size offset j ≡ within (offset, size) j
places-within len offset size j al hj = elim (Bool-cases (within (offset, size) j)) [
  | inl yes_in ↦
      places-inside size offset j (ground (arith, yes_in)) (ground (arith, yes_in)) ∙ sym yes_in
  | inr out ↦
      places-outside size offset j (λ k lo hi. apart len offset size j k al hj out lo hi) ∙ sym out
]

-- The map when the segments have come, the last of the list first.
abbrev pub color_all : List (ℕ × ℕ) → Mem → Mem
color_all [] map = map
color_all ((offset, size) ∷ segs) map = color_map size (color_all segs map) offset

color_all-IsBytes : (segs : List (ℕ × ℕ)) (map : Mem) → IsBytes map → IsBytes (color_all segs map)
color_all-IsBytes [] map b = b
color_all-IsBytes ((offset, size) ∷ segs) map b =
    color_map-IsBytes size (color_all segs map) offset (color_all-IsBytes segs map b)

abbrev pub clear_map : Mem
clear_map i = 0

get_bit-color_all :
    (len : ℕ) (segs : List (ℕ × ℕ)) (j : ℕ)
    → All (IsAligned len) segs
    → j < len
    → get_bit (color_all segs clear_map) j ≡ covered segs j
unfolding get_bit
get_bit-color_all len [] j al hj = ground arith
get_bit-color_all len ((offset, size) ∷ segs) j (a, al) hj =
    get_bit-color_map size (color_all segs clear_map) offset j
      (color_all-IsBytes segs clear_map (λ i. omega arith))
    ∙ rw (places-within len offset size j a hj, get_bit-color_all len segs j al hj) refl

scan_map_iff :
    (n : ℕ) (map : Mem) (i : ℕ)
    → (scan_map n map i ≡ true) ↔ ((j : ℕ) → i ≤ j → j < i + n → get_bit map j ≡ true)
unfolding scan_map
scan_map_iff zero map i = (λ h j lo hi. absurd (omega arith), λ h. refl)
scan_map_iff (suc n) map i =
    let (to, from) = scan_map_iff n map (i + 1) in
    (
      λ h j lo hi. elim (ℕ_discrete i j) [
        | yes e ↦ rw (sym e) (ground arith)
        | no ne ↦ to (ground arith) j (omega (arith, ne)) (omega arith)
      ],
      λ h.
          rw (h i (omega arith) (omega arith), from (λ j lo hi. h j (omega arith) (omega arith)))
            refl,
    )

-- When a C_PDU's segments start at multiples of eight and have a multiple of eight bytes or go up to
-- the C_PDU's end, in whatever order they come and however often, then the scan of the map finds
-- the C_PDU complete exactly if each of its bytes is in one of them.
pub scan_map-color_all :
    (len : ℕ) (segs : List (ℕ × ℕ))
    → All (IsAligned len) segs
    → (scan_map len (color_all segs clear_map) 0 ≡ true)
      ↔ ((j : ℕ) → j < len → covered segs j ≡ true)
scan_map-color_all len segs al =
    let (to, from) = scan_map_iff len (color_all segs clear_map) 0 in
    (
      λ h j hj. sym (get_bit-color_all len segs j al hj) ∙ to h j (omega arith) (omega arith),
      λ h. from (λ j lo hi. get_bit-color_all len segs j al (omega arith) ∙ h j (omega arith)),
    )
