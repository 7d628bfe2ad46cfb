-- ===== src/Errmac/Links.antt =====
-- The list macros of errmac.h, on nodes at addresses whose links are a store.
use open_lib.Prelude.{
  ℕ, zero, suc, ◌≤◌, ◌≡◌, refl, ◌∙◌, true, false, Option, none, some, List, [], ◌∷◌, arith,
}
use open_lib.Prelude.Lists.{length}
use open_lib.Prelude.Pointers.{update, member, Distinct, Chain, Chain-same}

-- The loop of `REVERSE_LIST_NEXT`, and that of `PREPEND_LIST`, which keeps the root: the links and the
-- root. The fuel bounds the number of nodes; `none` when it is used up.
unfoldable pub reverse_loop :
    ℕ → (ℕ → Option ℕ) → Option ℕ → Option ℕ → Option ((ℕ → Option ℕ) × Option ℕ)
reverse_loop fuel links root none = some (links, root)
reverse_loop zero links root (some node) = none
reverse_loop (suc fuel) links root (some node) =
    reverse_loop fuel (update links node root) (some node) (links node)

-- `REVERSE_LIST_NEXT(root, nodes, nxt)`
unfoldable pub reverse_list : ℕ → (ℕ → Option ℕ) → Option ℕ → Option ((ℕ → Option ℕ) × Option ℕ)
unfolding reverse_loop
reverse_list fuel links nodes = reverse_loop fuel links none nodes

-- The elements of the first list, in reverse order, in front of the second.
abbrev rev_onto : List ℕ → List ℕ → List ℕ
rev_onto [] xs = xs
rev_onto (y ∷ ys) xs = rev_onto ys (y ∷ xs)

abbrev Apart : List ℕ → List ℕ → Type 0
Apart xs ys = (p : ℕ) → member p xs ≡ true → member p ys ≡ false

-- The links lead from the root through `xs`, and from `nodes` through the distinct `ys`, none of
-- which is among `xs`. With fuel for the `ys`, the links then lead from the new root through the
-- `ys` in reverse order and then through `xs`, and no other link is changed.
pub reverse_loop-Chain :
    (fuel : ℕ) (links : ℕ → Option ℕ) (root nodes : Option ℕ) (xs ys : List ℕ)
    → Chain links root xs
    → Chain links nodes ys
    → Distinct ys
    → Apart xs ys
    → length ys ≤ fuel
    → (links' : ℕ → Option ℕ) × (root' : Option ℕ) × (reverse_loop fuel links root nodes
        ≡ some (links', root'))
      × Chain links' root' (rev_onto ys xs)
      × ((p : ℕ) → member p ys ≡ false → links' p ≡ links p)
unfolding reverse_loop
reverse_loop-Chain fuel links root nodes xs [] cx cy d apart enough =
    (links, root, rw (cy) refl, cx, λ p h. refl)
reverse_loop-Chain zero links root nodes xs (y ∷ ys) cx cy d apart enough =
    absurd (omega (arith, enough))
reverse_loop-Chain (suc fuel) links root nodes xs (y ∷ ys) cx cy d apart enough =
    let links1 = update links y root in
    let out : member y xs ≡ false = ground (arith, apart y) in
    let cx1 : Chain links1 (links1 y) xs =
      rw (here links y root) (Chain-same links links1 root xs (λ p m. ground (arith, m, out)) cx) in
    let cy1 : Chain links1 (links y) ys =
      Chain-same links links1 (links y) ys (λ p m. ground (arith, m, d.0)) cy.1 in
    let (links2, root2, runs, chain, others) =
      reverse_loop-Chain fuel links1 (some y) (links y) (y ∷ xs) ys (refl, cx1) cy1 d.1
        (λ p m. ground (arith, m, d.0, apart p)) (omega (arith, enough)) in
    (links2, root2, rw (cy.0) runs, chain, λ p m. others p (ground (arith, m)) ∙ ground (arith, m))
  where
    here : (f : ℕ → Option ℕ) (p : ℕ) (a : Option ℕ) → update f p a p ≡ a
    here f p a = ground arith
