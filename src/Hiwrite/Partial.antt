-- ===== src/Hiwrite/Partial.antt =====
-- A partial write of iovecs.
use open_lib.Prelude.{
  ℕ, zero, suc, ◌+◌, ◌-◌, ◌≤◌, List, [], ◌∷◌, ◌++◌, Mem, at, leb, ◌≡◌, refl, ap, ◌∙◌, sym,
  Bool-cases, inl, inr, fun_ext, arith,
}
use mathlib.Core.Path.{ap₂}
use mathlib.Core.List.{append_assoc}
use open_lib.Prelude.Lists.{length, length-append, drop, drop-append}
use open_lib.Hiios.{Iov, wire_len}
use open_lib.Hiwrite.{clear_iov}
use open_lib.Hiwrite.Loop.{prefix, bytes}

pub length-prefix : (m : Mem) (n : ℕ) → length (prefix m n) ≡ n
unfolding prefix
length-prefix m zero = refl
length-prefix m (suc n) = omega (arith, length-prefix (at m 1) n)

pub length-bytes : (vs : List Iov) → length (bytes vs) ≡ wire_len vs
unfolding bytes
length-bytes [] = refl
length-bytes (v ∷ vs) = omega (
  arith,
  length-append {0} (prefix v.iov_base v.iov_len) (bytes vs),
  length-prefix v.iov_base v.iov_len,
  length-bytes vs,
)

at-at : (m : Mem) (k n : ℕ) → at (at m k) n ≡ at m (k + n)
at-at m k n = fun_ext (λ i. ap m (omega arith))

drop-prefix :
    (m : Mem) (len n : ℕ) (ys : List ℕ)
    → n ≤ len
    → drop n (prefix m len ++ ys) ≡ prefix (at m n) (len - n) ++ ys
unfolding prefix
drop-prefix m len zero ys h =
    ap₂ (λ r k. prefix r k ++ ys) (fun_ext (λ i. ap m (omega arith))) (omega arith)
drop-prefix m zero (suc n) ys h = absurd (omega arith)
drop-prefix m (suc len) (suc n) ys h =
    drop-prefix (at m 1) len n ys (omega arith)
    ∙ ap₂ (λ r k. prefix r k ++ ys) (at-at m 1 n ∙ ap (at m) (omega arith)) (omega arith)

-- The iovecs that `clear_iov` leaves hold the bytes behind the first `n`, and what it reports is by
-- how much `n` exceeds their number.
pub bytes-clear_iov :
    (vs : List Iov) (n : ℕ)
    → (bytes (clear_iov vs n).0 ≡ drop n (bytes vs)) × ((clear_iov vs n).1 ≡ n - wire_len vs)
unfolding clear_iov bytes
bytes-clear_iov [] zero = (refl, refl)
bytes-clear_iov [] (suc n) = (refl, omega arith)
bytes-clear_iov (v ∷ vs) zero = (refl, omega arith)
bytes-clear_iov (v ∷ vs) (suc n) = elim (Bool-cases (leb v.iov_len (suc n))) [
  | inl fits ↦ rw fits (
      let (kept, left) = bytes-clear_iov vs (suc n - v.iov_len) in
      let len : length (prefix v.iov_base v.iov_len) ≡ v.iov_len =
        length-prefix v.iov_base v.iov_len in
      (
        kept
            ∙ ap (λ k. drop (suc n - k) (bytes vs)) (sym len)
            ∙ sym (drop-append (suc n) (prefix v.iov_base v.iov_len) (bytes vs) (ground arith)),
        omega (arith, left),
      ))
  | inr part ↦
      rw part
        (sym (drop-prefix v.iov_base v.iov_len (suc n) (bytes vs) (ground arith)), ground arith)
]

pub bytes-append : (us vs : List Iov) → bytes (us ++ vs) ≡ bytes us ++ bytes vs
unfolding bytes
bytes-append [] vs = refl
bytes-append (u ∷ us) vs =
    ap (λ r. prefix u.iov_base u.iov_len ++ r) (bytes-append us vs)
    ∙ sym (append_assoc (prefix u.iov_base u.iov_len) (bytes us) (bytes vs))
