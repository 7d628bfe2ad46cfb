-- ===== src/Prelude/Bits.antt =====
-- Laws of `bit_xor` at variables, from the digit recursion that the native operation stands for.
-- Each is proved on fuel that bounds the numbers, since both sides halve them.
use Prim.Native.Nat.{
  ℕ, zero, suc, ◌+◌, ◌*◌, ◌/◌, ◌%◌, ◌^◌, ◌≤◌, ◌<◌, bit_xor, digits, differ, bit_xor-bitwise,
}
use mathlib.Core.Path.{◌≡◌, refl, ap}
use native.Mathlib.Nat.{pow-suc}
use native.Mathlib.Omega.{arith}

abbrev xor_digits : ℕ → ℕ → ℕ → ℕ
xor_digits n a b = digits (λ r. r) differ n a b

xor_digits_fuel : (n k a b : ℕ) → a ≤ n → a ≤ k → xor_digits n a b ≡ xor_digits k a b
xor_digits_fuel zero zero a b p q = refl
xor_digits_fuel zero (suc k) zero b p q = refl
xor_digits_fuel zero (suc k) (suc a) b p q = absurd (omega arith)
xor_digits_fuel (suc n) zero zero b p q = refl
xor_digits_fuel (suc n) zero (suc a) b p q = absurd (omega arith)
xor_digits_fuel (suc n) (suc k) zero b p q = refl
xor_digits_fuel (suc n) (suc k) (suc a) b p q =
    rw (xor_digits_fuel n k (suc a / 2) (b / 2) (omega arith) (omega arith))

differ-zero : (y : ℕ) → differ y 0 ≡ y
differ-zero zero = refl
differ-zero (suc y) = refl

differ-parity : (x y : ℕ) → x < 2 → y < 2 → differ x y ≡ (x + y) % 2
differ-parity zero y p q = omega arith
differ-parity (suc zero) zero p q = refl
differ-parity (suc zero) (suc zero) p q = refl
differ-parity (suc zero) (suc (suc y)) p q = absurd (omega arith)
differ-parity (suc (suc x)) y p q = absurd (omega arith)

zero-bit_xor : (b : ℕ) → bit_xor 0 b ≡ b
zero-bit_xor b = bit_xor-bitwise 0 b

-- The lowest digit of the exclusive or, and the rest.
pub bit_xor_step : (a b : ℕ) → bit_xor a b ≡ bit_xor (a / 2) (b / 2) * 2 + (a % 2 + b % 2) % 2
bit_xor_step zero b = omega (arith, zero-bit_xor b, zero-bit_xor (b / 2))
bit_xor_step (suc a) b = omega (
  arith,
  bit_xor-bitwise (suc a) b,
  bit_xor-bitwise (suc a / 2) (b / 2),
  xor_digits_fuel a (suc a / 2) (suc a / 2) (b / 2) (omega arith) (omega arith),
  differ-parity (suc a % 2) (b % 2) (omega arith) (omega arith),
)

xor_cancel_fuel : (n a b : ℕ) → a ≤ n → b ≤ n → bit_xor (bit_xor a b) b ≡ a
xor_cancel_fuel zero a b p q =
    let e : a ≡ 0 = omega arith in let f : b ≡ 0 = omega arith in rw (e, f)
xor_cancel_fuel (suc n) a b p q = omega (
  arith,
  ap (λ (t : ℕ). bit_xor t (b / 2)) half,
  bit_xor_step a b,
  bit_xor_step (bit_xor a b) b,
  xor_cancel_fuel n (a / 2) (b / 2) (omega arith) (omega arith),
)
  where
    half : bit_xor a b / 2 ≡ bit_xor (a / 2) (b / 2)
    half = omega (arith, bit_xor_step a b)

pub xor_cancel : (a b : ℕ) → bit_xor (bit_xor a b) b ≡ a
xor_cancel a b = xor_cancel_fuel (a + b) a b (omega arith) (omega arith)

xor_comm_fuel : (n a b : ℕ) → a ≤ n → b ≤ n → bit_xor a b ≡ bit_xor b a
xor_comm_fuel zero a b p q = let e : a ≡ 0 = omega arith in let f : b ≡ 0 = omega arith in rw (e, f)
xor_comm_fuel (suc n) a b p q = omega (
  arith,
  bit_xor_step a b,
  bit_xor_step b a,
  xor_comm_fuel n (a / 2) (b / 2) (omega arith) (omega arith),
)

pub xor_comm : (a b : ℕ) → bit_xor a b ≡ bit_xor b a
xor_comm a b = xor_comm_fuel (a + b) a b (omega arith) (omega arith)

pub half-xor : (a b : ℕ) → bit_xor a b / 2 ≡ bit_xor (a / 2) (b / 2)
half-xor a b = omega (arith, bit_xor_step a b)

xor_assoc_fuel :
    (n a b c : ℕ) → a ≤ n → b ≤ n → c ≤ n → bit_xor (bit_xor a b) c ≡ bit_xor a (bit_xor b c)
xor_assoc_fuel zero a b c p q r =
    let e : a ≡ 0 = omega arith in
    let f : b ≡ 0 = omega arith in let g : c ≡ 0 = omega arith in rw (e, f, g)
xor_assoc_fuel (suc n) a b c p q r = omega (
  arith,
  bit_xor_step a b,
  bit_xor_step b c,
  bit_xor_step (bit_xor a b) c,
  bit_xor_step a (bit_xor b c),
  ap (λ (t : ℕ). bit_xor t (c / 2)) (half-xor a b),
  ap (λ (t : ℕ). bit_xor (a / 2) t) (half-xor b c),
  xor_assoc_fuel n (a / 2) (b / 2) (c / 2) (omega arith) (omega arith) (omega arith),
)

pub xor_assoc : (a b c : ℕ) → bit_xor (bit_xor a b) c ≡ bit_xor a (bit_xor b c)
xor_assoc a b c = xor_assoc_fuel (a + b + c) a b c (omega arith) (omega arith) (omega arith)

-- `w` digits stay `w` digits.
pub xor-lt_pow : (w a b : ℕ) → a < 2 ^ w → b < 2 ^ w → bit_xor a b < 2 ^ w
xor-lt_pow zero a b p q =
    let e : a ≡ 0 = omega arith in let f : b ≡ 0 = omega arith in rw (e, f) (omega arith)
xor-lt_pow (suc w) a b p q = omega (
  arith,
  bit_xor_step a b,
  pow-suc 2 w,
  xor-lt_pow w (a / 2) (b / 2) (omega (arith, pow-suc 2 w)) (omega (arith, pow-suc 2 w)),
)

-- A digit above both numbers passes through.
pub xor_top : (w a b : ℕ) → a < 2 ^ w → b < 2 ^ w → bit_xor a (2 ^ w + b) ≡ 2 ^ w + bit_xor a b
xor_top zero a b p q = let e : a ≡ 0 = omega arith in let f : b ≡ 0 = omega arith in rw (e, f)
xor_top (suc w) a b p q = omega (
  arith,
  bit_xor_step a b,
  bit_xor_step a (2 ^ suc w + b),
  pow-suc 2 w,
  ap (λ (t : ℕ). bit_xor (a / 2) t) half,
  xor_top w (a / 2) (b / 2) (omega (arith, pow-suc 2 w)) (omega (arith, pow-suc 2 w)),
)
  where
    half : (2 ^ suc w + b) / 2 ≡ 2 ^ w + b / 2
    half = omega (arith, pow-suc 2 w)
