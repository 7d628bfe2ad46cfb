-- ===== src/Todo/Spec.antt =====
-- The todo queue without its links: a queue of distinct elements, and the token.
use open_lib.Prelude.{ℕ, Bool, true, false, Option, none, some, List, [], ◌∷◌, ◌++◌, if◌then◌else◌}
use open_lib.Prelude.Pointers.{member}
use open_lib.Todo.{Work, element, token, Event, produce, consume, polled}

pub record Fifo : Type 0 where
  pub items : List ℕ
  pub may_poll : Bool

-- An element that waits already is not queued again.
abbrev pub enqueue : Fifo → ℕ → Fifo
enqueue q p = if member p q.items then q else record q { items = q.items ++ (p ∷ []) }

-- The front, or the token when nothing waits.
abbrev pub dequeue : List ℕ → Bool → Option (Work × Fifo)
dequeue (x ∷ xs) b = some (element x, record { items = xs; may_poll = b })
dequeue [] true = some (token, record { items = []; may_poll = false })
dequeue [] false = none

unfoldable pub served : Fifo → List Event → List Work
served q [] = []
served q (produce p ∷ es) = served (enqueue q p) es
served q (polled ∷ es) = served (record q { may_poll = true }) es
served q (consume ∷ es) = elim (dequeue q.items q.may_poll) [
  | none ↦ served q es
  | some (work, q') ↦ work ∷ served q' es
]
