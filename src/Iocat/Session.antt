-- ===== src/Iocat/Session.antt =====
-- iocat.c: the loop behind the options, and main.
use open_lib.Prelude.{ℕ, Bool, true, false, Option, none, some, List, [], ◌∷◌}
use open_lib.Hiwrite.Loop.{prefix}
use open_lib.Daemon.{Text}
use open_lib.Synccat.{text_of}
use open_lib.Iocat.{
  Numbers, Answer, fails, gives, chars, Tool, add_done, End, exits, all_done, waits, next, stop,
}
use open_lib.Iocat.Run.{write_all, options_loop}

-- How select ends, what read then returns, and what the writes of the port return.
pub data Event : Type 0 where
  select_failed timed_out neither : Event
  fd_ready : Answer → Event
  stdin_ready : Answer → List Answer → Event

-- The loop: how the tool ends. Each event comes with `continueRunning` as it is when the loop tests
-- it. At the end of the file on either side, the loop goes on.
unfoldable pub transfer : List (Bool × Event) → Tool → End × Tool
unfolding text_of prefix write_all
transfer [] t = (waits, t)
transfer ((false, event) ∷ events) t = (exits 0, t)
transfer ((true, select_failed) ∷ events) t = (exits 1, t)
transfer ((true, timed_out) ∷ events) t = (exits 2, t)
transfer ((true, neither) ∷ events) t = transfer events t
transfer ((true, fd_ready fails) ∷ events) t = (exits 3, t)
transfer ((true, fd_ready (gives n m)) ∷ events) t =
    transfer events (add_done (chars (text_of n m)) t)
transfer ((true, stdin_ready fails answers) ∷ events) t = (exits 3, t)
transfer ((true, stdin_ready (gives n m) answers) ∷ events) t =
    elim (write_all (prefix m n) n answers t) [
      | stop end t' ↦ (end, t')
      | next t' rest ↦ transfer events t'
    ]

-- Behind the options, with a descriptor or without.
abbrev pub behind_options : List (Bool × Event) → Tool → Option ℕ → End × Tool
behind_options events t none = (exits 0, t)
behind_options events t (some fd) = transfer events t

-- `args` starts with the name of the tool. `none`: the fuel for the options is used up.
unfoldable pub main :
    ℕ → Numbers → List Text → List Answer → List (Bool × Event) → Option (End × Tool)
unfolding transfer
main fuel lib args answers events =
    let start : Tool = record { argi = 1; fd = none; done = [] } in
    elim (options_loop fuel lib args answers start) [
      | none ↦ none
      | some (all_done, t) ↦ some (behind_options events t t.fd)
      | some (end, t) ↦ some (end, t)
    ]
