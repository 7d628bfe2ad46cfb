-- ===== src/Synccat.antt =====
-- processStdin of synccat.c: what was read from the standard input is written to the serial port.
use open_lib.Prelude.{
  ℕ, zero, suc, ◌+◌, ◌-◌, Bool, true, false, Option, none, some, List, [], ◌∷◌, ◌++◌, Mem, store,
  at, ltb, ◌==◌, if◌then◌else◌,
}
use open_lib.Hiwrite.Loop.{prefix}
pub mod Pieces

-- What write_port returns: a number of bytes or -1. What read returns: the same.
pub data Port : Type 0 where
  moved : ℕ → Port
  failed : Port

-- `bytes_written`, which an error makes one less: -1 when nothing has been written before.
abbrev pub failure : ℕ → Option ℕ
failure zero = none
failure (suc done) = some done

-- The loop, with `buffer[bytes_written] = '\0'` at its end. The result is what was sent and what is
-- returned, 1 or 0; `none`: there are no more results, and the program is in write.
unfoldable pub write_pieces : List Port → Mem → ℕ → ℕ → List ℕ → List ℕ × Option ℕ
write_pieces [] buffer size done sent = (sent, if ltb done size then none else some 1)
write_pieces (moved n ∷ ports) buffer size done sent =
    let rest =
      write_pieces ports (store buffer (done + n) 0) size (done + n)
        (sent ++ prefix (at buffer done) n) in
    if ltb done size then rest else (sent, some 1)
write_pieces (failed ∷ ports) buffer size done sent =
    let again : List ℕ × Option ℕ = elim (failure done) [
      | none ↦ (sent, some 0)
      | some less ↦ write_pieces ports (store buffer less 0) size less sent
    ] in
    if ltb done size then again else (sent, some 1)

unfoldable pub process_stdin : Port → Mem → List Port → List ℕ × Option ℕ
unfolding write_pieces
process_stdin failed buffer ports = ([], some 0)
process_stdin (moved size) buffer ports = write_pieces ports buffer size 0 []

-- `printf("%s", buffer)` of `n` bytes, which ends at the first zero.
unfoldable pub text_of : ℕ → Mem → List ℕ
text_of zero m = []
text_of (suc n) m = let rest = m 0 ∷ text_of n (at m 1) in if m 0 == 0 then [] else rest

-- What processSerial prints and returns.
unfoldable pub process_serial : Port → Mem → List ℕ × Bool
unfolding text_of
process_serial failed buffer = ([], false)
process_serial (moved bytes_read) buffer = (text_of bytes_read buffer, true)

-- How select ends: with -1, with 0, or with a descriptor from which can be read, and then what
-- reading and writing return. The serial port comes first when both are ready.
pub data Ready : Type 0 where
  select_failed timed_out neither : Ready
  serial_ready : Port → Mem → Ready
  stdin_ready : Port → Mem → List Port → Ready

-- What was written to the port and to the standard output.
pub record Session : Type 0 where
  pub sent : List ℕ
  pub printed : List ℕ

-- The loop of main: the return value, or `none` when it is in select or in write and there are no
-- more results. Each result comes with `continueRunning` as it is when the loop tests it.
unfoldable pub main_loop : List (Bool × Ready) → Session → Option (ℕ × Session)
unfolding process_serial process_stdin
main_loop [] s = none
main_loop ((false, ready) ∷ rest) s = some (0, s)
main_loop ((true, select_failed) ∷ rest) s = some (1, s)
main_loop ((true, timed_out) ∷ rest) s = some (2, s)
main_loop ((true, neither) ∷ rest) s = main_loop rest s
main_loop ((true, serial_ready port buffer) ∷ rest) s =
    let text = (process_serial port buffer).0 in
    let next = main_loop rest (record s { printed = s.printed ++ text }) in
    if (process_serial port buffer).1 then next else some (3, s)
main_loop ((true, stdin_ready port buffer ports) ∷ rest) s =
    let bytes = (process_stdin port buffer ports).0 in
    let s1 : Session = record s { sent = s.sent ++ bytes } in
    let next = main_loop rest s1 in
    elim (process_stdin port buffer ports).1 [
      | none ↦ none
      | some result ↦ if result == 0 then some (4, s1) else next
    ]
