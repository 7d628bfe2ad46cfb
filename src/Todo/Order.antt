-- ===== src/Todo/Order.antt =====
-- Who waits in the todo queue is served, in the order of arrival.
use open_lib.Prelude.{ℕ, Bool, false, List, [], ◌∷◌, ◌++◌, map, ◌≡◌, refl, ap, ◌∙◌}
use open_lib.Prelude.Pointers.{member}
use open_lib.Todo.{Shuffler, element, Event, produce, consume, handed_out}
use open_lib.Todo.Spec.{Fifo, enqueue, served}
use open_lib.Todo.Refinement.{Implements, handed_out-served}

-- As many `consume`s as the list has elements.
abbrev pub consume_each : List ℕ → List Event
consume_each [] = []
consume_each (x ∷ xs) = consume ∷ consume_each xs

served_all :
    (xs : List ℕ) (b : Bool)
    → served (record { items = xs; may_poll = b }) (consume_each xs) ≡ map element xs
unfolding served
served_all [] b = refl
served_all (x ∷ xs) b = ap (λ r. element x ∷ r) (served_all xs b)

enqueue_new :
    (q : Fifo) (p : ℕ)
    → member p q.items ≡ false
    → enqueue q p ≡ record { items = q.items ++ (p ∷ []); may_poll = q.may_poll }
enqueue_new q p h = rw h refl

-- An element that is produced while others wait, itself not among them, is handed out after them,
-- and they are handed out in the order in which they wait.
pub handed_out-produce :
    (shf : Shuffler) (q : Fifo) (p : ℕ)
    → Implements shf q
    → member p q.items ≡ false
    → handed_out shf (produce p ∷ consume_each (q.items ++ (p ∷ [])))
      ≡ map element (q.items ++ (p ∷ []))
unfolding served
handed_out-produce shf q p h new =
    handed_out-served (produce p ∷ consume_each (q.items ++ (p ∷ []))) shf q h
    ∙ ap (λ r. served r (consume_each (q.items ++ (p ∷ [])))) (enqueue_new q p new)
    ∙ served_all (q.items ++ (p ∷ [])) q.may_poll
