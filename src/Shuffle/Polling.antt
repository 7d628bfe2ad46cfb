-- ===== src/Shuffle/Polling.antt =====
-- What hi_poll does to the todo queue.
use open_lib.Prelude.{
  ℕ, zero, suc, Bool, true, false, none, some, List, [], ◌∷◌, ◌≡◌, refl, ap, subst, ◌%◌, ◌∙◌,
  if◌then◌else◌, arith,
}
use mathlib.Core.Path.{ap₂}
use open_lib.Prelude.Pointers.{update, Chain}
use open_lib.Todo.{
  Shuffler, hi_todo_produce, hi_todo_consume, next_work, Event, consume, handed_out,
}
use open_lib.Todo.Spec.{Fifo, enqueue}
use open_lib.Todo.Refinement.{Implements, produce-Implements, return_token-Implements}
use open_lib.Shuffle.{Polled, Poller, wants_io, take_events, hi_poll}

-- The abstract queue behind the events.
abbrev pub enqueue_ready : (ℕ → Polled) → Fifo → List (ℕ × ℕ) → Fifo
enqueue_ready ios q [] = q
enqueue_ready ios q ((io, events) ∷ evs) =
    enqueue_ready ios (if wants_io (ios io).cur_need then enqueue q io else q) evs

ready_step :
    (b : Bool) (shf : Shuffler) (q : Fifo) (io : ℕ)
    → Implements shf q
    → Implements (if b then hi_todo_produce shf io else shf) (if b then enqueue q io else q)
ready_step true shf q io h = produce-Implements shf q io h
ready_step false shf q io h = h

-- Storing events leaves what a connection needs as it is.
take_events-Implements :
    (st : Poller) (ios : ℕ → Polled) (q : Fifo) (evs : List (ℕ × ℕ))
    → ((io : ℕ) → (st.ios io).cur_need ≡ (ios io).cur_need)
    → Implements st.shf q
    → Implements (take_events st evs).shf (enqueue_ready ios q evs)
unfolding take_events
take_events-Implements st ios q [] same h = h
take_events-Implements st ios q ((io, events) ∷ evs) same h =
    let b = wants_io (st.ios io).cur_need in
    let ios1 = update st.ios io (record (st.ios io) { events = events % 256 }) in
    subst
      (λ b'.
        Implements
          (take_events
            (record { shf = if b then hi_todo_produce st.shf io else st.shf; ios = ios1 }) evs).shf
          (enqueue_ready ios (if b' then enqueue q io else q) evs))
      (ap wants_io (same io))
      (take_events-Implements
        (record { shf = if b then hi_todo_produce st.shf io else st.shf; ios = ios1 }) ios
        (if b then enqueue q io else q) evs (λ x. stored x ∙ same x) (ready_step b st.shf q io h))
  where
    stored :
        (x : ℕ)
        → (update st.ios io (record (st.ios io) { events = events % 256 }) x).cur_need
          ≡ (st.ios x).cur_need
    stored x = ground arith

-- So many threads come for work.
abbrev pub consumers : ℕ → List Event
consumers zero = []
consumers (suc k) = consume ∷ consumers k

no_work : (k : ℕ) (shf : Shuffler) → hi_todo_consume shf ≡ none → handed_out shf (consumers k) ≡ []
unfolding handed_out
no_work zero shf h = refl
no_work (suc k) shf h = rw (h, handed_out) (no_work k shf h)

nothing_left :
    (shf : Shuffler) → shf.todo_consume ≡ none → shf.poll_tok ≡ false → hi_todo_consume shf ≡ none
unfolding hi_todo_consume
nothing_left shf h k = ap₂ (next_work shf) h k

Implements-empty :
    (shf : Shuffler) (q : Fifo) → q.items ≡ [] → Implements shf q → shf.todo_consume ≡ none
Implements-empty shf q e h = subst (Chain (λ p. (shf.qels p).n) shf.todo_consume) e h.queue.chained

-- hi_poll, called by the thread that took the token. When epoll_wait reports events, the queue behind
-- it is the old one with each reported connection that has no PDU, or one that needs more, in the
-- order of the reports and without repetition, and the token is back. When epoll_wait fails, the
-- token stays away: if no element waits, all further threads wait for ever.
pub hi_poll_lem :
    (st : Poller) (q : Fifo)
    → Implements st.shf q
    → ((evs : List (ℕ × ℕ))
        → Implements
            (hi_poll (some evs) st).shf
            (record (enqueue_ready st.ios q evs) { may_poll = true }))
      × ((k : ℕ)
          → q.items ≡ []
          → q.may_poll ≡ false
          → handed_out (hi_poll none st).shf (consumers k) ≡ [])
unfolding hi_poll
hi_poll_lem st q h = (
  λ evs.
      return_token-Implements (take_events st evs).shf (enqueue_ready st.ios q evs)
        (take_events-Implements st st.ios q evs (λ io. refl) h),
  λ k empty taken.
      no_work k st.shf (nothing_left st.shf (Implements-empty st.shf q empty h) (h.flag ∙ taken)),
)
