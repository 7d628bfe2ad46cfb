-- ===== src/Util/Hexdump.antt =====
-- hexdump keeps to its buffer, and its lines tell the bytes.
use open_lib.Prelude.{
  ℕ, zero, suc, ◌+◌, ◌-◌, ◌*◌, ◌/◌, ◌%◌, ◌≤◌, ◌<◌, ◌≡◌, refl, ◌∙◌, Mem, ltb, ◌==◌, if◌then◌else◌,
  arith, Bool-cases, eqb_iff, IsBytes, inl, inr,
}
use open_lib.Util.{hex_digit, column, put_byte, put_line, blank_line}

put_byte-behind : (buf : Mem) (i c j : ℕ) → i < 16 → 66 ≤ j → put_byte buf i c j ≡ buf j
unfolding put_byte
put_byte-behind buf i c j h k = ground arith

put_line-behind :
    (rounds : ℕ) (buf : Mem) (i : ℕ) (p : Mem) (j : ℕ)
    → i + rounds ≤ 16
    → 66 ≤ j
    → put_line rounds buf i p j ≡ buf j
unfolding put_line
put_line-behind zero buf i p j h k = refl
put_line-behind (suc rounds) buf i p j h k =
    put_line-behind rounds (put_byte buf i (p i)) (i + 1) p j (omega arith) k
    ∙ put_byte-behind buf i (p i) j (omega arith) k

-- What a hexadecimal digit stands for.
abbrev pub digit_value : ℕ → ℕ
digit_value d = if ltb d 65 then d - 48 else d - 55

hex_digit-value : (x : ℕ) → x < 16 → digit_value (hex_digit x) ≡ x
hex_digit-value x h = ground arith

-- A place that a byte does not write.
put_byte-elsewhere :
    (buf : Mem) (i c k : ℕ)
    → k < i
    → i < 16
    → (put_byte buf i c (column k) ≡ buf (column k))
      × (put_byte buf i c (column k + 1) ≡ buf (column k + 1))
unfolding put_byte
put_byte-elsewhere buf i c k h b = (ground arith, ground arith)

put_byte-digits :
    (buf : Mem) (i c : ℕ)
    → i < 16
    → (put_byte buf i c (column i) ≡ hex_digit (c / 16 % 16))
      × (put_byte buf i c (column i + 1) ≡ hex_digit (c % 16))
unfolding put_byte
put_byte-digits buf i c h = (ground arith, ground arith)

put_line-before :
    (rounds : ℕ) (buf : Mem) (i : ℕ) (p : Mem) (k : ℕ)
    → i + rounds ≤ 16
    → k < i
    → (put_line rounds buf i p (column k) ≡ buf (column k))
      × (put_line rounds buf i p (column k + 1) ≡ buf (column k + 1))
unfolding put_line
put_line-before zero buf i p k h lt = (refl, refl)
put_line-before (suc rounds) buf i p k h lt =
    let (a, b) =
      put_line-before rounds (put_byte buf i (p i)) (i + 1) p k (omega arith) (omega arith) in
    let (c, d) = put_byte-elsewhere buf i (p i) k lt (omega arith) in (a ∙ c, b ∙ d)

put_line-digits :
    (rounds : ℕ) (buf : Mem) (i : ℕ) (p : Mem) (k : ℕ)
    → i + rounds ≤ 16
    → i ≤ k
    → k < i + rounds
    → (put_line rounds buf i p (column k) ≡ hex_digit (p k / 16 % 16))
      × (put_line rounds buf i p (column k + 1) ≡ hex_digit (p k % 16))
unfolding put_line
put_line-digits zero buf i p k h lo hi = absurd (omega arith)
put_line-digits (suc rounds) buf i p k h lo hi = elim (Bool-cases (k == i)) [
  | inl e ↦
      let at_i : k ≡ i = (eqb_iff k i).0 e in
      let (a, b) =
        put_line-before rounds (put_byte buf i (p i)) (i + 1) p i (omega arith) (omega arith) in
      let (c, d) = put_byte-digits buf i (p i) (omega arith) in rw at_i (a ∙ c, b ∙ d)
  | inr ne ↦
      put_line-digits rounds (put_byte buf i (p i)) (i + 1) p k (omega arith) (ground arith)
        (omega arith)
]

-- A line of at most 16 bytes: behind the 66 columns of its buffer, from the terminating zero byte on,
-- nothing is written, and the two digits at the column of each byte give that byte back.
pub put_line_lem :
    (len : ℕ) (behind p : Mem)
    → len ≤ 16
    → IsBytes p
    → ((j : ℕ) → 66 ≤ j → put_line len (blank_line behind) 0 p j ≡ blank_line behind j)
      × ((k : ℕ)
          → k < len
          → digit_value (put_line len (blank_line behind) 0 p (column k)) * 16
              + digit_value (put_line len (blank_line behind) 0 p (column k + 1))
            ≡ p k)
put_line_lem len behind p h bytes = (
  λ j k. put_line-behind len (blank_line behind) 0 p j (omega arith) k,
  λ k lt.
      let (a, b) =
        put_line-digits len (blank_line behind) 0 p k (omega arith) (omega arith) (omega arith) in
      rw (a, b)
        (omega (
          arith,
          hex_digit-value (p k / 16 % 16) (omega arith),
          hex_digit-value (p k % 16) (omega arith),
          bytes k,
        )),
)
