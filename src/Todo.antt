-- ===== src/Todo.antt =====
-- hiios.c: the todo queue of the shuffler, with its links. The queue elements stand at addresses;
-- the connections and PDUs that they are the first fields of are elsewhere.
use open_lib.Prelude.{
  ℕ, zero, suc, ◌+◌, ◌-◌, Bool, true, false, Option, none, some, List, [], ◌∷◌, if◌then◌else◌,
}
use open_lib.Prelude.Pointers.{update}
pub mod Spec
pub mod Links
pub mod Refinement
pub mod Order

-- `HI_POLL` and so on
pub data QelKind : Type 0 where
  poll pdu listen tcp_s tcp_c snmp : QelKind

-- `struct hi_qel`, without its lock
pub record Qel : Type 0 where
  pub n : Option ℕ
  pub kind : QelKind
  pub inqueue : Bool

-- The part of `struct hiios` that todo_mut protects. The flag `poll_tok.proto` says that a thread
-- may poll.
pub record Shuffler : Type 0 where
  pub qels : ℕ → Qel
  pub todo_consume : Option ℕ
  pub todo_produce : Option ℕ
  pub n_todo : ℕ
  pub poll_tok : Bool

-- `*qe = { n = n; inqueue = inqueue }`, the kind kept
abbrev pub set_qel : Shuffler → ℕ → Option ℕ → Bool → ℕ → Qel
set_qel shf qe n inqueue = update shf.qels qe (record (shf.qels qe) { n = n; inqueue = inqueue })

-- `todo_produce->n = qe`, or `todo_consume = qe` in an empty queue
abbrev pub link_last : Shuffler → ℕ → Option ℕ → Shuffler
link_last shf qe none = record shf { todo_consume = some qe }
link_last shf qe (some last) = record shf {
  qels = update shf.qels last (record (shf.qels last) { n = some qe });
}

-- `qe`, linked to, is the last element and marked.
abbrev pub appended : Shuffler → ℕ → Shuffler
appended shf qe = record shf {
  todo_produce = some qe;
  qels = set_qel shf qe none true;
  n_todo = shf.n_todo + 1;
}

unfoldable pub hi_todo_produce : Shuffler → ℕ → Shuffler
hi_todo_produce shf qe =
    if (shf.qels qe).inqueue then shf else appended (link_last shf qe shf.todo_produce) qe

-- `qe` is `shf->todo_consume`, which the caller has tested.
unfoldable pub hi_todo_consume_inlock : Shuffler → ℕ → Shuffler
hi_todo_consume_inlock shf qe =
    let next = (shf.qels qe).n in
    record shf {
      todo_consume = next;
      todo_produce = elim next [ none ↦ none | some p ↦ shf.todo_produce ];
      qels = set_qel shf qe none false;
      n_todo = shf.n_todo - 1;
    }

-- What a thread gets: an element of the queue, or the token to poll.
pub data Work : Type 0 where
  element : ℕ → Work
  token : Work

-- `todo_consume` and `poll_tok.proto`, as they are read; `none`: the thread waits for todo_cond.
abbrev pub next_work : Shuffler → Option ℕ → Bool → Option (Work × Shuffler)
next_work shf (some qe) flag = some (element qe, hi_todo_consume_inlock shf qe)
next_work shf none true = some (token, record shf { poll_tok = false })
next_work shf none false = none

unfoldable pub hi_todo_consume : Shuffler → Option (Work × Shuffler)
hi_todo_consume shf = next_work shf shf.todo_consume shf.poll_tok

-- The end of hi_poll: the next thread may poll.
unfoldable pub return_token : Shuffler → Shuffler
return_token shf = record shf { poll_tok = true }

-- What the threads do to the queue, in the order in which they get todo_mut.
pub data Event : Type 0 where
  produce : ℕ → Event
  consume : Event
  polled : Event

-- The work that is handed out. A `consume` that finds nothing waits, and changes nothing.
unfoldable pub handed_out : Shuffler → List Event → List Work
unfolding return_token
handed_out shf [] = []
handed_out shf (produce qe ∷ es) = handed_out (hi_todo_produce shf qe) es
handed_out shf (polled ∷ es) = handed_out (return_token shf) es
handed_out shf (consume ∷ es) = elim (hi_todo_consume shf) [
  | none ↦ handed_out shf es
  | some (work, shf') ↦ work ∷ handed_out shf' es
]
