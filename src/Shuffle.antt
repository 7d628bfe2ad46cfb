-- ===== src/Shuffle.antt =====
-- The event loop of hiios.c: hi_poll, hi_in_out and hi_shuffle. The results of epoll_wait and the
-- handlers are arguments.
use open_lib.Prelude.{
  ℕ, zero, suc, ◌+◌, ◌-◌, ◌*◌, ◌/◌, ◌%◌, Bool, true, false, not, ◌||◌, Option, none, some, List, [],
  ◌∷◌, ltb, ◌==◌, if◌then◌else◌,
}
use open_lib.Prelude.Pointers.{update}
use open_lib.Todo.{
  QelKind, poll, pdu, listen, tcp_s, tcp_c, snmp, Shuffler, hi_todo_produce, hi_todo_consume,
  return_token, Work, element, token,
}
pub mod Polling

-- Of a connection: the events that were reported last, and `cur_pdu->need` when there is a `cur_pdu`.
pub record Polled : Type 0 where
  pub events : ℕ
  pub cur_need : Option ℕ

pub record Poller : Type 0 where
  pub shf : Shuffler
  pub ios : ℕ → Polled

-- `!io->cur_pdu || io->cur_pdu->need`
abbrev pub wants_io : Option ℕ → Bool
wants_io none = true
wants_io (some need) = not (need == 0)

-- The events that epoll_wait has reported, with the connections' addresses. `io->events` is a char.
unfoldable pub take_events : Poller → List (ℕ × ℕ) → Poller
take_events st [] = st
take_events st ((io, events) ∷ evs) =
    let ios = update st.ios io (record (st.ios io) { events = events % 256 }) in
    let shf = if wants_io (st.ios io).cur_need then hi_todo_produce st.shf io else st.shf in
    take_events (record { shf = shf; ios = ios }) evs

-- `none`: epoll_wait failed.
unfoldable pub hi_poll : Option (List (ℕ × ℕ)) → Poller → Poller
unfolding take_events return_token
hi_poll none st = st
hi_poll (some evs) st = let st1 = take_events st evs in record st1 { shf = return_token st1.shf }

-- EPOLLIN is 1, EPOLLOUT 4, EPOLLERR 8 and EPOLLHUP 16.
abbrev pub has_bit : ℕ → ℕ → Bool
has_bit events bit = events / bit % 2 == 1

module _ {S : Type 0} (close write read : ℕ → S → S) where
  -- The handlers are called for the connection at `io`.
  unfoldable pub hi_in_out : ℕ → ℕ → S → S
  hi_in_out events io st =
      let st1 = if has_bit events 4 then write io st else st in
      if has_bit events 16 || has_bit events 8
      then close io st
      else if has_bit events 1
      then read io st1
      else st1

-- What hi_shuffle calls, with the state of everything else.
pub record Handlers (S : Type 0) : Type 0 where
  pub polls : S → S
  pub accepts : ℕ → S → S
  pub in_out : ℕ → S → S
  pub process : ℕ → S → S

-- One round of hi_shuffle, behind hi_todo_consume: the kind of an element is `kind`. Other kinds are
-- logged.
abbrev pub serve : {S : Type 0} → Handlers S → (ℕ → QelKind) → Work → S → S
serve h kind token st = h.polls st
serve h kind (element qe) st = elim (kind qe) [
  | poll ↦ h.polls st
  | listen ↦ h.accepts qe st
  | tcp_c ↦ h.in_out qe st
  | tcp_s ↦ h.in_out qe st
  | pdu ↦ h.process qe st
  | snmp ↦ st
]
