-- ===== src/Prelude/Pointers.antt =====
-- Objects at addresses: a store is a function from addresses, and a list of objects is a chain of
-- links through it.
use open_lib.Prelude.Tests.{◌==◌, if◌then◌else◌}
use Prim.Native.Nat.{ℕ}
use mathlib.Core.Path.{◌≡◌, refl}
use mathlib.Core.Logic.{◌≢◌}
use mathlib.Core.Bool.{Bool, true, false, ◌||◌}
use mathlib.Core.Option.{Option, none, some}
use mathlib.Core.List.{List, [], ◌∷◌, ◌++◌}
use native.Mathlib.Omega.{arith}

-- `*p = a`
abbrev pub update {ℓ} : {A : Type ℓ} → (ℕ → A) → ℕ → A → ℕ → A
update f p a q = if q == p then a else f q

abbrev pub member : ℕ → List ℕ → Bool
member p [] = false
member p (x ∷ xs) = p == x || member p xs

abbrev pub Distinct : List ℕ → Type 0
Distinct [] = Unit {0}
Distinct (x ∷ xs) = (member x xs ≡ false) × Distinct xs

unfoldable pub last? : List ℕ → Option ℕ
last? [] = none
last? (x ∷ []) = some x
last? (x ∷ y ∷ ys) = last? (y ∷ ys)

-- From `start`, the links lead through the objects of the list and then end.
abbrev pub Chain : (ℕ → Option ℕ) → Option ℕ → List ℕ → Type 0
Chain next start [] = start ≡ none
Chain next start (x ∷ xs) = (start ≡ some x) × Chain next (next x) xs

pub member-append :
    (p : ℕ) (xs : List ℕ) (y : ℕ) → member p (xs ++ (y ∷ [])) ≡ (member p xs || p == y)
member-append p [] y = ground arith
member-append p (x ∷ xs) y = ground (arith, member-append p xs y)

pub member-last : (l : ℕ) (xs : List ℕ) → last? xs ≡ some l → member l xs ≡ true
unfolding last?
member-last l [] h = cc
member-last l (x ∷ []) h = ground arith
member-last l (x ∷ y ∷ ys) h = ground (arith, member-last l (y ∷ ys))

pub last?-some : (x : ℕ) (xs : List ℕ) → (l : ℕ) × (last? (x ∷ xs) ≡ some l)
unfolding last?
last?-some x [] = (x, refl)
last?-some x (y ∷ ys) = last?-some y ys

pub last-append : (xs : List ℕ) (y : ℕ) → last? (xs ++ (y ∷ [])) ≡ some y
unfolding last?
last-append [] y = refl
last-append (x ∷ []) y = refl
last-append (x ∷ z ∷ zs) y = last-append (z ∷ zs) y

pub append-Distinct :
    (xs : List ℕ) (y : ℕ) → Distinct xs → member y xs ≡ false → Distinct (xs ++ (y ∷ []))
append-Distinct [] y d h = (refl, tt)
append-Distinct (x ∷ xs) y d h =
    (ground (arith, member-append x xs y), append-Distinct xs y d.1 (ground arith))

-- A chain is not changed by links from objects outside it.
pub Chain-same :
    (f g : ℕ → Option ℕ) (start : Option ℕ) (xs : List ℕ)
    → ((p : ℕ) → member p xs ≡ true → g p ≡ f p)
    → Chain f start xs
    → Chain g start xs
Chain-same f g start [] h c = c
Chain-same f g start (x ∷ xs) h c =
    (c.0, rw (h x (ground arith)) (Chain-same f g (f x) xs (λ p m. h p (ground arith)) c.1))

-- A new last object: the old last one is linked to it.
pub Chain-append :
    (f g : ℕ → Option ℕ) (start : Option ℕ) (xs : List ℕ) (l y : ℕ)
    → Distinct xs
    → last? xs ≡ some l
    → g l ≡ some y
    → g y ≡ none
    → ((p : ℕ) → member p xs ≡ true → p ≢ l → g p ≡ f p)
    → Chain f start xs
    → Chain g start (xs ++ (y ∷ []))
unfolding last?
Chain-append f g start [] l y d e gl gy h c = absurd (cc)
Chain-append f g start (x ∷ []) l y d e gl gy h c =
    let xl : x ≡ l = ground arith in (c.0, (rw (xl, gl) refl, gy))
Chain-append f g start (x ∷ z ∷ zs) l y d e gl gy h c =
    let same : g x ≡ f x = h x (ground arith) (ground (arith, member-last l (z ∷ zs))) in
    (c.0, rw same (Chain-append f g (f x) (z ∷ zs) l y d.1 e gl gy (λ p m. h p (ground arith)) c.1))
