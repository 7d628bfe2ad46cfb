-- ===== src/Todo/Refinement.antt =====
-- The todo queue implements its specification.
use open_lib.Prelude.{
  ℕ, ◌⊎◌, Bool, true, false, Option, none, some, List, [], ◌∷◌, ◌≡◌, refl, ap, Bool-cases, inl, inr,
  ◌∙◌,
}
use mathlib.Core.Path.{ap₂}
use open_lib.Prelude.Pointers.{member}
use open_lib.Todo.{
  Shuffler, hi_todo_produce, hi_todo_consume_inlock, hi_todo_consume, return_token, next_work, Work,
  element, token, Event, produce, consume, polled, handed_out,
}
use open_lib.Todo.Spec.{Fifo, enqueue, dequeue, served}
use open_lib.Todo.Links.{
  IsQueue, hi_todo_produce-marked, produce-poll_tok, consume-poll_tok, produce-IsQueue,
  consume-IsQueue,
}

-- The linked queue stands for the abstract one.
pub record Implements (shf : Shuffler) (q : Fifo) : Type 0 where
  pub queue : IsQueue shf q.items
  pub flag : shf.poll_tok ≡ q.may_poll

pub produce-Implements :
    (shf : Shuffler) (q : Fifo) (qe : ℕ)
    → Implements shf q
    → Implements (hi_todo_produce shf qe) (enqueue q qe)
produce-Implements shf q qe h = elim (Bool-cases (member qe q.items)) [
  | inl old ↦ rw (hi_todo_produce-marked shf qe (h.queue.marked qe ∙ old)) (rw old h)
  | inr new ↦ rw new (record {
    queue = produce-IsQueue shf q.items qe new h.queue;
    flag = produce-poll_tok shf qe ∙ h.flag;
  })
]

works :
    (shf : Shuffler) (o : Option ℕ) (b : Bool)
    → shf.todo_consume ≡ o
    → shf.poll_tok ≡ b
    → hi_todo_consume shf ≡ next_work shf o b
unfolding hi_todo_consume
works shf o b h k = ap₂ (next_work shf) h k

-- The token is not part of the queue.
IsQueue-token :
    (shf : Shuffler) (items : List ℕ) (b : Bool)
    → IsQueue shf items
    → IsQueue (record shf { poll_tok = b }) items
IsQueue-token shf items b h = record {
  chained = h.chained;
  produced = h.produced;
  marked = h.marked;
  distinct = h.distinct;
  counted = h.counted;
}

-- `consume` hands out what the specification says, from a state that implements its state.
consume-Implements :
    (shf : Shuffler) (items : List ℕ) (b : Bool)
    → IsQueue shf items
    → shf.poll_tok ≡ b
    → ((hi_todo_consume shf ≡ none) × (dequeue items b ≡ none))
      ⊎ ((work : Work) × (shf' : Shuffler) × (q' : Fifo) × (hi_todo_consume shf ≡ some (work, shf'))
          × (dequeue items b ≡ some (work, q'))
          × Implements shf' q')
unfolding hi_todo_consume
consume-Implements shf (x ∷ xs) b h e = inr (
  element x,
  hi_todo_consume_inlock shf x,
  record { items = xs; may_poll = b },
  ap (λ o. next_work shf o shf.poll_tok) h.chained.0,
  refl,
  record { queue = consume-IsQueue shf x xs h; flag = consume-poll_tok shf x ∙ e },
)
consume-Implements shf [] true h e = inr (
  token,
  record shf { poll_tok = false },
  record { items = []; may_poll = false },
  works shf none true h.chained e,
  refl,
  record { queue = IsQueue-token shf [] false h; flag = refl },
)
consume-Implements shf [] false h e = inl (works shf none false h.chained e, refl)

pub return_token-Implements :
    (shf : Shuffler) (q : Fifo)
    → Implements shf q
    → Implements (return_token shf) (record q { may_poll = true })
unfolding return_token
return_token-Implements shf q h = record {
  queue = IsQueue-token shf q.items true h.queue;
  flag = refl;
}

-- A linked queue implements a list of waiting elements with a flag. In whatever order the threads then
-- produce elements, poll and consume, they get from the linked queue the work that the list hands out.
pub handed_out-served :
    (es : List Event) (shf : Shuffler) (q : Fifo)
    → Implements shf q
    → handed_out shf es ≡ served q es
unfolding handed_out served return_token
handed_out-served [] shf q h = refl
handed_out-served (produce qe ∷ es) shf q h =
    handed_out-served es (hi_todo_produce shf qe) (enqueue q qe) (produce-Implements shf q qe h)
handed_out-served (polled ∷ es) shf q h =
    handed_out-served es (return_token shf) (record q { may_poll = true })
      (record { queue = IsQueue-token shf q.items true h.queue; flag = refl })
handed_out-served (consume ∷ es) shf q h =
    elim (consume-Implements shf q.items q.may_poll h.queue h.flag) [
      | inl (waits, idle) ↦
          rw (waits, handed_out) (rw (idle, served) (handed_out-served es shf q h))
      | inr (work, shf', q', gives, hands, h') ↦
          rw (gives, handed_out)
            (rw (hands, served) (ap (λ r. work ∷ r) (handed_out-served es shf' q' h')))
    ]
