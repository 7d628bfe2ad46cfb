-- ===== src/Pool/Reissue.antt =====
-- PDUs that are in use are handed out again.
use open_lib.Prelude.{
  ℕ, zero, suc, true, Option, none, some, List, [], ◌∷◌, ◌++◌, map, ◌≡◌, refl, ap, ◌∙◌, ◌==◌,
  eqb_iff, arith,
}
use open_lib.Prelude.Lists.{length}
use open_lib.Prelude.Pointers.{Chain, Chain-same}
use open_lib.Hiios.{ok, ◌>>=◌}
use open_lib.Pool.{reset, alloc_from, hi_pdu_alloc, allocated}
use open_lib.Hiwrite.{Writer, push_free, free_reals, hi_free_req}

allocated_step :
    (shf_free : Option ℕ) (k : ℕ) (w : Writer) (p : ℕ)
    → w.free_pdus ≡ some p
    → allocated shf_free (suc k) w
      ≡ some p ∷ allocated shf_free k (reset (record w { free_pdus = (w.pdus p).qel_n }) p)
unfolding allocated hi_pdu_alloc
allocated_step shf_free k w p h =
    ap
      (λ o. elim (alloc_from shf_free w o) as (λ x. List (Option ℕ)) [
        | none ↦ none ∷ allocated shf_free k w
        | some (q, w') ↦ some q ∷ allocated shf_free k w'
      ])
      h

allocated_first :
    (k : ℕ) (w : Writer) (p : ℕ)
    → w.free_pdus ≡ none
    → allocated (some p) (suc k) w
      ≡ some p ∷ allocated (some p) k (reset (record w { free_pdus = (w.pdus p).qel_n }) p)
unfolding allocated hi_pdu_alloc
allocated_first k w p h =
    ap
      (λ o. elim (alloc_from (some p) w o) as (λ x. List (Option ℕ)) [
        | none ↦ none ∷ allocated (some p) k w
        | some (q, w') ↦ some q ∷ allocated (some p) k w'
      ])
      h

-- A reset keeps the links of the free lists.
reset-qel_n : (w : Writer) (p x : ℕ) → ((reset w p).pdus x).qel_n ≡ (w.pdus x).qel_n
reset-qel_n w p x = ground arith

-- The calls return the thread's free list, and then the shuffler's first PDU.
thread_list :
    (first : ℕ) (xs : List ℕ) (w : Writer)
    → Chain (λ x. (w.pdus x).qel_n) w.free_pdus xs
    → allocated (some first) (suc (length xs)) w ≡ map some (xs ++ (first ∷ []))
unfolding allocated
thread_list first [] w h = allocated_first 0 w first h
thread_list first (x ∷ xs) w h =
    let w1 = reset (record w { free_pdus = (w.pdus x).qel_n }) x in
    allocated_step (some first) (suc (length xs)) w x h.0
    ∙ ap (λ r. some x ∷ r)
        (thread_list first xs w1 (
          Chain-same (λ y. (w.pdus y).qel_n) (λ y. (w1.pdus y).qel_n) (w.pdus x).qel_n xs
            (λ y m. reset-qel_n (record w { free_pdus = (w.pdus x).qel_n }) x y) h.1))

-- A thread without free PDUs takes as many as the shuffler has, and one more, while none is freed.
-- The calls return them in order, and at the end the first one again, which is in use.
pub hi_pdu_alloc_again :
    (x : ℕ) (xs : List ℕ) (w : Writer)
    → w.free_pdus ≡ none
    → Chain (λ y. (w.pdus y).qel_n) (some x) (x ∷ xs)
    → allocated (some x) (suc (suc (length xs))) w ≡ map some ((x ∷ xs) ++ (x ∷ []))
hi_pdu_alloc_again x xs w h c =
    let w1 = reset (record w { free_pdus = (w.pdus x).qel_n }) x in
    allocated_first (suc (length xs)) w x h
    ∙ ap (λ r. some x ∷ r)
        (thread_list x xs w1 (
          Chain-same (λ y. (w.pdus y).qel_n) (λ y. (w1.pdus y).qel_n) (w.pdus x).qel_n xs
            (λ y m. reset-qel_n (record w { free_pdus = (w.pdus x).qel_n }) x y) c.1))

-- The same pointer, so many times.
abbrev pub repeated : ℕ → ℕ → List (Option ℕ)
repeated zero p = []
repeated (suc k) p = some p ∷ repeated k p

looping :
    (shf_free : Option ℕ) (k : ℕ) (w : Writer) (p : ℕ)
    → w.free_pdus ≡ some p
    → (w.pdus p).qel_n ≡ some p
    → allocated shf_free k w ≡ repeated k p
unfolding allocated
looping shf_free zero w p h l = refl
looping shf_free (suc k) w p h l =
    let w1 = reset (record w { free_pdus = (w.pdus p).qel_n }) p in
    allocated_step shf_free k w p h
    ∙ ap (λ r. some p ∷ r)
        (looping shf_free k w1 p l
          (reset-qel_n (record w { free_pdus = (w.pdus p).qel_n }) p p ∙ l))

free_once :
    (fuel : ℕ) (w : Writer) (q : ℕ)
    → (w.pdus q).reals ≡ none
    → hi_free_req fuel w q ≡ ok (push_free w q)
unfolding hi_free_req free_reals
free_once fuel w q h = ap (λ o. free_reals fuel w o >>= λ w1. ok (push_free w1 q)) h

-- A request whose responses have been written is freed, and stays among the requests of its
-- connection: when that closes it is freed again. From then on every call returns that one PDU.
pub hi_free_req_twice :
    (shf_free : Option ℕ) (fuel k : ℕ) (w : Writer) (q : ℕ)
    → (w.pdus q).reals ≡ none
    → (w' : Writer) × ((hi_free_req fuel w q >>= λ w1. hi_free_req fuel w1 q) ≡ ok w')
      × (allocated shf_free k w' ≡ repeated k q)
hi_free_req_twice shf_free fuel k w q h =
    let w1 = push_free w q in
    let w2 = push_free w1 q in
    let same : (q == q) ≡ true = (eqb_iff q q).1 refl in
    (
      w2,
      ap (λ r. r >>= λ w1. hi_free_req fuel w1 q) (free_once fuel w q h)
          ∙ free_once fuel w1 q (rw same h),
      looping shf_free k w2 q refl (rw same refl),
    )
