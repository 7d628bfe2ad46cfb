-- ===== src/Hiwrite/Single.antt =====
-- One PDU whose iovecs are written in pieces: what hi_clear_iov leaves.
use open_lib.Prelude.{
  ℕ, zero, suc, ◌+◌, ◌-◌, ◌≤◌, ◌<◌, true, none, some, List, [], ◌∷◌, leb, ◌==◌, ◌≡◌, ◌≢◌, refl, ap,
  sym, ◌∙◌, eqb_iff, Bool-cases, inl, inr, arith,
}
use open_lib.Prelude.Lists.{length, All, length-drop}
use open_lib.Hiios.{Iov, ok, assertop, ◌>>=◌, ◌>>◌, wire_len}
use open_lib.Hiwrite.{Writer, set_pdu, clear_iov, release, release_all, settle, hi_clear_iov}
use open_lib.Hiwrite.Loop.{bytes}
use open_lib.Hiwrite.Partial.{bytes-clear_iov, length-bytes}

abbrev pub HasBytes : Iov → Type 0
HasBytes v = 0 < v.iov_len

abbrev pub total : List ℕ → ℕ
total [] = 0
total (c ∷ cs) = c + total cs

pub clear_iov-HasBytes : (vs : List Iov) (n : ℕ) → All HasBytes vs → All HasBytes (clear_iov vs n).0
unfolding clear_iov
clear_iov-HasBytes [] n h = tt
clear_iov-HasBytes (v ∷ vs) zero h = h
clear_iov-HasBytes (v ∷ vs) (suc n) h = elim (Bool-cases (leb v.iov_len (suc n))) [
  | inl fits ↦ rw fits (clear_iov-HasBytes vs (suc n - v.iov_len) h.1)
  | inr part ↦ rw part (ground arith, h.1)
]

pub wire_len-clear_iov : (vs : List Iov) (n : ℕ) → wire_len (clear_iov vs n).0 ≡ wire_len vs - n
wire_len-clear_iov vs n =
    sym (length-bytes (clear_iov vs n).0)
    ∙ ap length (bytes-clear_iov vs n).0
    ∙ length-drop n (bytes vs)
    ∙ ap (λ k. k - n) (length-bytes vs)

-- The connection writes `p` alone, a PDU that is no response, and nothing waits behind it.
pub record Writes (w : Writer) (p : ℕ) : Type 0 where
  pub busy : w.in_write ≡ some p
  pub alone : (w.pdus p).wn ≡ none
  pub no_req : (w.pdus p).req ≡ none
  pub last : w.to_write_consume ≡ none
  pub full : All HasBytes w.iov

-- hi_clear_iov, when the socket took `n` bytes of those that were left.
hi_clear_iov_settles :
    (fuel : ℕ) (w : Writer) (n : ℕ)
    → n ≤ wire_len w.iov
    → hi_clear_iov fuel w n
      ≡ settle fuel
          (record w { iov = (clear_iov w.iov n).0; n_written = w.n_written + n })
          (clear_iov w.iov n).0
unfolding hi_clear_iov
hi_clear_iov_settles fuel w n h =
    ap
      (λ k.
        assertop (k == 0)
        >> settle fuel (record w { iov = (clear_iov w.iov n).0; n_written = w.n_written + n })
            (clear_iov w.iov n).0)
      ((bytes-clear_iov w.iov n).1 ∙ (let e : n - wire_len w.iov ≡ 0 = omega arith in e))

-- What is left of the state once `p` is written.
abbrev pub done : Writer → ℕ → Writer
done w p = record w {
  pdus = (set_pdu w p (record (w.pdus p) { wn = none })).pdus;
  in_write = (w.pdus p).wn;
}

release_all-single :
    (fuel : ℕ) (w : Writer) (p : ℕ)
    → w.in_write ≡ some p
    → (w.pdus p).wn ≡ none
    → (w.pdus p).req ≡ none
    → release_all (suc fuel) (suc fuel) w w.in_write ≡ ok (done w p)
unfolding release_all
release_all-single fuel w p busy alone no_req =
    let w1 = done w p in
    let same : (p == p) ≡ true = (eqb_iff p p).1 refl in
    let e : (w1.pdus p).req ≡ none = rw same no_req in
    ap (release_all (suc fuel) (suc fuel) w) busy
    ∙ ap (λ o. release (suc fuel) w1 p o >>= λ w2. release_all (suc fuel) fuel w2 (w.pdus p).wn) e
    ∙ ap (release_all (suc fuel) fuel w1) alone

pub wire_len-pos : (v : Iov) (vs : List Iov) → All HasBytes (v ∷ vs) → 0 < wire_len (v ∷ vs)
wire_len-pos v vs h = omega (arith, h.0)

-- Fewer bytes than there are: they are taken off the front.
pub hi_clear_iov-part :
    (fuel : ℕ) (w : Writer) (n : ℕ)
    → n < wire_len w.iov
    → hi_clear_iov fuel w n
      ≡ ok (record w { iov = (clear_iov w.iov n).0; n_written = w.n_written + n })
hi_clear_iov-part fuel w n h =
    hi_clear_iov_settles fuel w n (omega arith)
    ∙ settle-some fuel (record w { iov = (clear_iov w.iov n).0; n_written = w.n_written + n })
        (clear_iov w.iov n).0
        (λ e. absurd (omega (arith, wire_len-clear_iov w.iov n, ap wire_len e)))
  where
    settle-some : (fuel : ℕ) (w : Writer) (vs : List Iov) → vs ≢ [] → settle fuel w vs ≡ ok w
    settle-some fuel w [] ne = absurd (ne refl)
    settle-some fuel w (v ∷ vs) ne = refl

-- All of them: the PDU is done.
pub hi_clear_iov-all :
    (fuel : ℕ) (w : Writer) (p : ℕ)
    → Writes w p
    → hi_clear_iov (suc fuel) w (wire_len w.iov)
      ≡ ok (done (record w { iov = []; n_written = w.n_written + wire_len w.iov }) p)
hi_clear_iov-all fuel w p h =
    let n = wire_len w.iov in
    let none_left : (clear_iov w.iov n).0 ≡ [] =
      no_bytes (clear_iov w.iov n).0 (clear_iov-HasBytes w.iov n h.full)
        (omega (arith, wire_len-clear_iov w.iov n)) in
    hi_clear_iov_settles (suc fuel) w n (omega arith)
    ∙ ap (λ vs. settle (suc fuel) (record w { iov = vs; n_written = w.n_written + n }) vs) none_left
    ∙ release_all-single fuel (record w { iov = []; n_written = w.n_written + n }) p h.busy h.alone
        h.no_req
  where
    no_bytes : (vs : List Iov) → All HasBytes vs → wire_len vs ≡ 0 → vs ≡ []
    no_bytes [] h e = refl
    no_bytes (v ∷ vs) h e = absurd (omega (arith, h.0))
