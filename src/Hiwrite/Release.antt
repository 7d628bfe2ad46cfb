-- ===== src/Hiwrite/Release.antt =====
-- hi_free_resp takes the response out of its request's list.
use open_lib.Prelude.{
  ℕ, zero, suc, ◌≤◌, ◌<◌, Bool, true, false, none, some, List, [], ◌∷◌, ◌≡◌, refl, ap, sym, subst,
  ◌∙◌, ◌==◌, eqb_iff, Bool-cases, inl, inr, if◌then◌else◌, arith,
}
use open_lib.Prelude.Lists.{length}
use open_lib.Prelude.Pointers.{update, member, Distinct, Chain, Chain-same}
use open_lib.Hiios.{null_pointer, Result, ok, fault, ◌>>=◌}
use open_lib.Hiwrite.{Pdu, Writer, set_pdu, push_free, unlink, unlink_resp, hi_free_resp}

-- The list without the element.
abbrev pub without : ℕ → List ℕ → List ℕ
without r [] = []
without r (x ∷ xs) = if x == r then xs else x ∷ without r xs

-- What unlinking `resp` from a list changes: some links inside the list.
record Unlinked (pdus pdus' : ℕ → Pdu) (p : ℕ) (ys : List ℕ) (resp : ℕ) : Type 0 where
  chained : Chain (λ x. (pdus' x).n) (some p) (p ∷ without resp ys)
  outside : (x : ℕ) → member x (p ∷ ys) ≡ false → (pdus' x).n ≡ (pdus x).n
  reals : (x : ℕ) → (pdus' x).reals ≡ (pdus x).reals

unlink-Unlinked :
    (fuel : ℕ) (pdus : ℕ → Pdu) (resp p : ℕ) (ys : List ℕ)
    → length ys < fuel
    → Chain (λ x. (pdus x).n) (some p) (p ∷ ys)
    → Distinct (p ∷ ys)
    → member resp ys ≡ true
    → (pdus' : ℕ → Pdu) × (unlink fuel pdus resp p ≡ ok pdus') × Unlinked pdus pdus' p ys resp
unfolding unlink
unlink-Unlinked zero pdus resp p ys enough c d m = absurd (omega arith)
unlink-Unlinked (suc fuel) pdus resp p [] enough c d m = absurd (cc)
unlink-Unlinked (suc fuel) pdus resp p (y ∷ ys) enough c d m =
    let found = update pdus p (record (pdus p) { n = (pdus resp).n }) in
    let step : (b : Bool)
        → (y == resp) ≡ b
        → unlink (suc fuel) pdus resp p ≡ (if b then ok found else unlink fuel pdus resp y) =
      λ b e.
        ap
          (λ o. elim o as (λ x. Result (ℕ → Pdu)) [
            | none ↦ fault null_pointer
            | some q ↦ if q == resp then ok found else unlink fuel pdus resp q
          ])
          c.1.0
        ∙ ap (λ b. if b then ok found else unlink fuel pdus resp y) e in
    elim (Bool-cases (y == resp)) [
      | inl e ↦
          let at_end : y ≡ resp = (eqb_iff y resp).0 e in
          let same : (p == p) ≡ true = (eqb_iff p p).1 refl in
          (
            found,
            step true e,
            record {
              chained =
                  rw (e, without)
                    (
                      refl,
                      Chain-same (λ x. (pdus x).n) (λ x. (found x).n) (found p).n ys
                          (λ x k. ground (arith, d.0))
                          (rw same
                            (subst (λ r. Chain (λ x. (pdus x).n) (pdus r).n ys) at_end c.1.1)),
                    );
              outside = λ x k. ground arith;
              reals = λ x. ground arith;
            },
          )
      | inr e ↦
          let (pdus', runs, u) =
            unlink-Unlinked fuel pdus resp y ys (omega arith) (refl, c.1.1) d.1 (ground arith) in
          (
            pdus',
            step false e ∙ runs,
            record {
              chained = rw (e, without) (refl, (u.outside p d.0 ∙ c.1.0, u.chained.1));
              outside = λ x k. u.outside x (ground arith);
              reals = u.reals;
            },
          )
    ]

first_resp :
    (fuel : ℕ) (w : Writer) (q resp x : ℕ)
    → (x == resp) ≡ true
    → unlink_resp fuel w q resp x ≡ ok (set_pdu w q (record (w.pdus q) { reals = (w.pdus x).n }))
first_resp fuel w q resp x e = rw e refl

later_resp :
    (fuel : ℕ) (w : Writer) (q resp x : ℕ) (pdus' : ℕ → Pdu)
    → (x == resp) ≡ false
    → unlink fuel w.pdus resp x ≡ ok pdus'
    → unlink_resp fuel w q resp x ≡ ok (record w { pdus = pdus' })
later_resp fuel w q resp x pdus' e runs = rw e (rw runs refl)

-- `resp` is one of the responses of the request `q`. It is taken out of their list, which keeps its
-- order, and goes to the front of the free list.
pub hi_free_resp-without :
    (fuel : ℕ) (w : Writer) (q resp : ℕ) (xs : List ℕ)
    → length xs ≤ fuel
    → Chain (λ x. (w.pdus x).n) (w.pdus q).reals xs
    → Distinct xs
    → member resp xs ≡ true
    → (w' : Writer) × (hi_free_resp fuel w q resp ≡ ok w')
      × Chain (λ x. (w'.pdus x).n) (w'.pdus q).reals (without resp xs)
      × (w'.free_pdus ≡ some resp)
      × ((w'.pdus resp).qel_n ≡ w.free_pdus)
unfolding hi_free_resp
hi_free_resp-without fuel w q resp [] enough c d m = absurd (cc)
hi_free_resp-without fuel w q resp (x ∷ xs) enough c d m =
    let same : (p : ℕ) → (p == p) ≡ true = λ p. (eqb_iff p p).1 refl in
    let start : hi_free_resp fuel w q resp
        ≡ (unlink_resp fuel w q resp x >>= λ w1. ok (push_free w1 resp)) =
      ap
        (λ o. elim o as (λ r. Result Writer) [
          | none ↦ fault null_pointer
          | some first ↦ unlink_resp fuel w q resp first >>= λ w1. ok (push_free w1 resp)
        ])
        c.0 in
    elim (Bool-cases (x == resp)) [
      | inl e ↦
          let w1 = set_pdu w q (record (w.pdus q) { reals = (w.pdus x).n }) in
          let w' = push_free w1 resp in
          let head : (w'.pdus q).reals ≡ (w.pdus x).n = ground arith in
          (
            w',
            start ∙ ap (λ r. r >>= λ w1. ok (push_free w1 resp)) (first_resp fuel w q resp x e),
            rw (e, without)
                (subst (λ o. Chain (λ y. (w'.pdus y).n) o xs) (sym head)
                  (Chain-same (λ y. (w.pdus y).n) (λ y. (w'.pdus y).n) (w.pdus x).n xs
                    (λ y k. ground arith) c.1)),
            refl,
            rw (same resp) refl,
          )
      | inr e ↦
          let (pdus', runs, u) =
            unlink-Unlinked fuel w.pdus resp x xs (omega arith) (refl, c.1) d (ground arith) in
          let w1 = record w { pdus = pdus' } in
          let w' = push_free w1 resp in
          let head : (w'.pdus q).reals ≡ some x = ground (arith, u.reals q, c.0) in
          (
            w',
            start
                ∙ ap (λ r. r >>= λ w1. ok (push_free w1 resp))
                    (later_resp fuel w q resp x pdus' e runs),
            rw (e, without)
                (subst (λ o. Chain (λ y. (w'.pdus y).n) o (x ∷ without resp xs)) (sym head)
                  (Chain-same (λ y. (pdus' y).n) (λ y. (w'.pdus y).n) (some x) (x ∷ without resp xs)
                    (λ y k. ground arith) u.chained)),
            refl,
            rw (same resp) refl,
          )
    ]
