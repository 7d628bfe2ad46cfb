-- ===== src/Hiios/Outcome.antt =====
-- Predicates of the results that are no fault, along the way a handler is put together.
use open_lib.Prelude.{Bool, true, false, Option, none, some, ◌≡◌, refl, if◌then◌else◌}
use open_lib.Hiios.{Fault, Result, ok, fault, ◌>>=◌}

-- Every result that is no fault has `P`.
unfoldable pub AllOk : {A : Type 0} → (A → Type 0) → Result A → Type 0
AllOk P (ok a) = P a
AllOk P (fault e) = Unit {0}

pub AllOk-bind :
    {A B : Type 0} (Q : A → Type 0) (P : B → Type 0) (r : Result A) (f : A → Result B)
    → AllOk Q r
    → ((a : A) → Q a → AllOk P (f a))
    → AllOk P (r >>= f)
unfolding AllOk
AllOk-bind Q P (ok a) f h k = k a h
AllOk-bind Q P (fault e) f h k = tt

pub AllOk-any : {A : Type 0} (r : Result A) → AllOk (λ a. Unit {0}) r
unfolding AllOk
AllOk-any (ok a) = tt
AllOk-any (fault e) = tt

pub AllOk-ok : {A : Type 0} (P : A → Type 0) (a : A) → P a → AllOk P (ok a)
unfolding AllOk
AllOk-ok P a h = h

pub AllOk-fault : {A : Type 0} (P : A → Type 0) (e : Fault) → AllOk P (fault e)
unfolding AllOk
AllOk-fault P e = tt

pub if-AllOk :
    {A : Type 0} (P : A → Type 0) (b : Bool) (x y : Result A)
    → AllOk P x
    → AllOk P y
    → AllOk P (if b then x else y)
if-AllOk P true x y h k = h
if-AllOk P false x y h k = k

pub Option-AllOk :
    {A B : Type 0} (P : A → Type 0) (o : Option B) (x : Result A) (f : B → Result A)
    → AllOk P x
    → ((b : B) → AllOk P (f b))
    → AllOk P (elim o [ none ↦ x | some b ↦ f b ])
Option-AllOk P none x f h k = h
Option-AllOk P (some b) x f h k = k b

pub AllOk-weaken :
    {A : Type 0} (P Q : A → Type 0) (r : Result A) → AllOk P r → ((a : A) → P a → Q a) → AllOk Q r
unfolding AllOk
AllOk-weaken P Q (ok a) h k = k a h
AllOk-weaken P Q (fault e) h k = tt

-- The same, where the branches know what the option is.
pub Option-AllOk_known :
    {A B : Type 0} (P : A → Type 0) (o : Option B) (x : Result A) (f : B → Result A)
    → (o ≡ none → AllOk P x)
    → ((b : B) → o ≡ some b → AllOk P (f b))
    → AllOk P (elim o [ none ↦ x | some b ↦ f b ])
Option-AllOk_known P none x f h k = h refl
Option-AllOk_known P (some b) x f h k = k b refl
