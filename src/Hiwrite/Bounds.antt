-- ===== src/Hiwrite/Bounds.antt =====
-- How much hi_make_iov copies.
use open_lib.Prelude.{
  ℕ, zero, suc, ◌+◌, ◌≤◌, ◌<◌, true, Option, none, some, List, [], ◌∷◌, ◌++◌, ltb, leb, ◌≡◌, ◌≢◌,
  Bool-cases, inl, inr, arith,
}
use open_lib.Prelude.Lists.{length, length-append}
use open_lib.Hiios.{Iov, out_of_fuel, Result, ok, fault}
use open_lib.Hiwrite.{Writer, hi_n_iov, has_bytes, take_pdu, make_iov_loop, hi_make_iov}

-- A result that is not for want of fuel, and that fits.
abbrev pub Fits : ℕ → Result Writer → Type 0
Fits lim (ok w) = length w.iov ≤ lim
Fits lim (fault e) = e ≢ out_of_fuel

has_bytes-length : (vs : List Iov) → has_bytes vs ≡ true → 0 < length vs
has_bytes-length [] h = absurd (cc)
has_bytes-length (v ∷ vs) h = omega arith

make_iov_loop-Fits :
    (lim fuel : ℕ) (w : Writer) (next : Option ℕ)
    → length w.iov ≤ lim
    → lim < length w.iov + fuel
    → Fits lim (make_iov_loop lim fuel w next)
unfolding make_iov_loop
make_iov_loop-Fits lim fuel w none h k = h
make_iov_loop-Fits lim zero w (some p) h k = absurd (omega arith)
make_iov_loop-Fits lim (suc fuel) w (some p) h k =
    elim (Bool-cases (leb (length w.iov + length (w.pdus p).iov) lim)) [
      | inr large ↦ rw large h
      | inl fits ↦ rw fits (elim (Bool-cases (ltb 0 w.n_to_write)) [
        | inr wrong ↦ rw wrong (cc)
        | inl right ↦ rw right (elim (Bool-cases (has_bytes (w.pdus p).iov)) [
          | inr empty ↦ rw empty (cc)
          | inl some_bytes ↦ rw some_bytes (
              let grown : length (w.iov ++ (w.pdus p).iov) ≡ length w.iov + length (w.pdus p).iov =
                length-append w.iov (w.pdus p).iov in
              make_iov_loop-Fits lim fuel (take_pdu w p) (w.pdus p).wn (ground arith)
                (omega (arith, grown, has_bytes-length (w.pdus p).iov some_bytes)))
        ])
      ])
    ]

-- The array of HI_N_IOV iovecs is never left, and the rounds of hi_make_iov are never more than the
-- fuel, whatever the queue is.
pub hi_make_iov_bounds :
    (iov_max : ℕ) (w : Writer) → Fits (hi_n_iov iov_max) (hi_make_iov iov_max w)
unfolding hi_make_iov
hi_make_iov_bounds iov_max w =
    make_iov_loop-Fits (hi_n_iov iov_max) (suc (hi_n_iov iov_max)) (record w { iov = [] })
      w.to_write_consume (omega arith) (omega arith)
