-- ===== src/Hiwrite/Loop.antt =====
-- hi_write of hiwrite.c, over the results of its calls of writev.
use open_lib.Prelude.{ℕ, zero, suc, Option, none, some, List, [], ◌∷◌, ◌++◌, Mem, at}
use open_lib.Prelude.Lists.{take}
use open_lib.Hiios.{Iov, core_dump, Result, ok, fault, ◌>>=◌}
use open_lib.Hiwrite.{Writer, hi_make_iov, hi_clear_iov}

-- The first bytes of a buffer.
unfoldable pub prefix : Mem → ℕ → List ℕ
prefix m zero = []
prefix m (suc n) = m 0 ∷ prefix (at m 1) n

-- The bytes of iovecs.
unfoldable pub bytes : List Iov → List ℕ
bytes [] = []
bytes (v ∷ vs) = prefix v.iov_base v.iov_len ++ bytes vs

-- What writev returns, with errno: a number of bytes, 0, EINTR, EAGAIN or another error.
pub data Writev : Type 0 where
  wrote : ℕ → Writev
  wrote_none eintr eagain failed : Writev

-- Why hi_write ends: nothing is left, the socket takes no more, or hi_close was called. `waits`:
-- there are no more results, and the thread is in writev.
pub data Stop : Type 0 where
  drained full closing waits : Stop

-- A new iov is made when nothing is being written.
abbrev pub prepare : ℕ → Writer → Option ℕ → Result Writer
prepare iov_max w none = hi_make_iov iov_max w
prepare iov_max w (some p) = ok w

unfoldable pub hi_write : ℕ → ℕ → List Writev → Writer → Result (Stop × Writer)
hi_write iov_max fuel [] w = do
  w1 ← prepare iov_max w w.in_write
  ok (elim w1.in_write [ none ↦ drained | some p ↦ waits ], w1)
hi_write iov_max fuel (wrote n ∷ rs) w = do
  w1 ← prepare iov_max w w.in_write
  elim w1.in_write [
    | none ↦ ok (drained, w1)
    | some p ↦ (do
      w2 ← hi_clear_iov fuel (record w1 { sent = w1.sent ++ take n (bytes w1.iov) }) n
      hi_write iov_max fuel rs w2)
  ]
hi_write iov_max fuel (wrote_none ∷ rs) w = do
  w1 ← prepare iov_max w w.in_write
  elim w1.in_write [ none ↦ ok (drained, w1) | some p ↦ fault core_dump ]
hi_write iov_max fuel (eintr ∷ rs) w = do
  w1 ← prepare iov_max w w.in_write
  elim w1.in_write [ none ↦ ok (drained, w1) | some p ↦ hi_write iov_max fuel rs w1 ]
hi_write iov_max fuel (eagain ∷ rs) w = do
  w1 ← prepare iov_max w w.in_write
  ok (elim w1.in_write [ none ↦ drained | some p ↦ full ], w1)
hi_write iov_max fuel (failed ∷ rs) w = do
  w1 ← prepare iov_max w w.in_write
  ok (elim w1.in_write [ none ↦ drained | some p ↦ closing ], w1)
