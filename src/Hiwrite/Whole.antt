-- ===== src/Hiwrite/Whole.antt =====
-- A PDU that is sent on an idle connection is written, in as many pieces as the socket takes.
use open_lib.Prelude.{
  ℕ, suc, ◌+◌, ◌≤◌, ◌<◌, true, Option, none, some, List, [], ◌∷◌, ◌++◌, map, ◌==◌, ◌≡◌, refl, ap,
  ◌∙◌, eqb_iff, arith,
}
use mathlib.Core.List.{append_assoc}
use open_lib.Prelude.Lists.{length, All, take, take-drop, take_all}
use open_lib.Hiios.{Iov, Result, ok, ◌>>=◌, wire_len}
use open_lib.Hiwrite.{
  Writer, hi_n_iov, has_bytes, take_pdu, make_iov_loop, hi_make_iov, clear_iov, hi_clear_iov,
}
use open_lib.Hiwrite.Loop.{bytes, Writev, wrote, Stop, drained, waits, prepare, hi_write}
use open_lib.Hiwrite.Partial.{bytes-clear_iov, length-bytes}
use open_lib.Hiwrite.Lost.{hi_make_iov-single}
use open_lib.Hiwrite.Single.{
  HasBytes, total, clear_iov-HasBytes, wire_len-clear_iov, wire_len-pos, Writes, done,
  hi_clear_iov-part, hi_clear_iov-all,
}

-- While `p` is written, a round of hi_write takes the next result.
hi_write_busy :
    (iov_max fuel n : ℕ) (rs : List Writev) (w : Writer) (p : ℕ)
    → w.in_write ≡ some p
    → hi_write iov_max fuel (wrote n ∷ rs) w
      ≡ hi_clear_iov fuel (record w { sent = w.sent ++ take n (bytes w.iov) }) n
        >>= hi_write iov_max fuel rs
unfolding hi_write
hi_write_busy iov_max fuel n rs w p busy =
    let go : Writer → Option ℕ → Result (Stop × Writer) = λ w1 o. elim o [
      | none ↦ ok (drained, w1)
      | some p ↦
          hi_clear_iov fuel (record w1 { sent = w1.sent ++ take n (bytes w1.iov) }) n
          >>= hi_write iov_max fuel rs
    ] in
    ap (λ o. prepare iov_max w o >>= λ w1. go w1 w1.in_write) busy ∙ ap (go w) busy

-- With nothing to write it returns at once.
hi_write_idle :
    (iov_max fuel : ℕ) (w : Writer)
    → w.in_write ≡ none
    → w.to_write_consume ≡ none
    → hi_write iov_max fuel [] w ≡ ok (drained, record w { iov = [] })
unfolding hi_write hi_make_iov make_iov_loop
hi_write_idle iov_max fuel w idle empty =
    let stop : Option ℕ → Stop = λ o. elim o [ none ↦ drained | some p ↦ waits ] in
    let lim = hi_n_iov iov_max in
    ap (λ o. prepare iov_max w o >>= λ w1. ok (stop w1.in_write, w1)) idle
    ∙ ap
        (λ o.
          make_iov_loop lim (suc lim) (record w { iov = [] }) o >>= λ w1. ok (stop w1.in_write, w1))
        empty
    ∙ ap (λ o. ok (stop o, record w { iov = [] })) idle

-- All that `p` still has goes out, and then hi_write returns.
abbrev WritesAll : ℕ → ℕ → List ℕ → Writer → Type 0
WritesAll iov_max fuel cs w =
    (w' : Writer) × (hi_write iov_max (suc fuel) (map wrote cs) w ≡ ok (drained, w'))
    × (w'.sent ≡ w.sent ++ bytes w.iov)
    × (w'.in_write ≡ none)

pieces :
    (iov_max fuel : ℕ) (cs : List ℕ) (w : Writer) (p : ℕ)
    → Writes w p
    → 0 < wire_len w.iov
    → All (λ c. 0 < c) cs
    → total cs ≡ wire_len w.iov
    → WritesAll iov_max fuel cs w
pieces iov_max fuel [] w p h some_left pos sum = absurd (omega arith)
pieces iov_max fuel (c ∷ []) w p h some_left pos sum =
    let w1 = record w { sent = w.sent ++ take c (bytes w.iov) } in
    let h1 : Writes w1 p = record {
      busy = h.busy;
      alone = h.alone;
      no_req = h.no_req;
      last = h.last;
      full = h.full;
    } in
    let all : c ≡ wire_len w.iov = omega (arith, sum) in
    let w2 = done (record w1 { iov = []; n_written = w.n_written + wire_len w.iov }) p in
    (
      record w2 { iov = [] },
      hi_write_busy iov_max (suc fuel) c [] w p h.busy
          ∙ ap (λ r. r >>= hi_write iov_max (suc fuel) [])
              (ap (hi_clear_iov (suc fuel) w1) all ∙ hi_clear_iov-all fuel w1 p h1)
          ∙ hi_write_idle iov_max (suc fuel) w2 h.alone h.last,
      ap (λ r. w.sent ++ r) (take_all c (bytes w.iov) (omega (arith, length-bytes w.iov))),
      h.alone,
    )
pieces iov_max fuel (c ∷ d ∷ cs) w p h some_left pos sum =
    let w1 = record w { sent = w.sent ++ take c (bytes w.iov) } in
    let w2 = record w1 { iov = (clear_iov w.iov c).0; n_written = w.n_written + c } in
    let left = wire_len-clear_iov w.iov c in
    let h2 : Writes w2 p = record {
      busy = h.busy;
      alone = h.alone;
      no_req = h.no_req;
      last = h.last;
      full = clear_iov-HasBytes w.iov c h.full;
    } in
    let (w', runs, sent, idle) =
      pieces iov_max fuel (d ∷ cs) w2 p h2 (omega (arith, left, sum, pos.1.0)) pos.1
        (omega (arith, left, sum)) in
    (
      w',
      hi_write_busy iov_max (suc fuel) c (map wrote (d ∷ cs)) w p h.busy
          ∙ ap (λ r. r >>= hi_write iov_max (suc fuel) (map wrote (d ∷ cs)))
              (hi_clear_iov-part (suc fuel) w1 c (omega (arith, sum, pos.1.0)))
          ∙ runs,
      sent
          ∙ append_assoc w.sent (take c (bytes w.iov)) (bytes (clear_iov w.iov c).0)
          ∙ ap (λ r. w.sent ++ r)
              (ap (λ r. take c (bytes w.iov) ++ r) (bytes-clear_iov w.iov c).0
                ∙ take-drop c (bytes w.iov)),
      idle,
    )

-- A PDU that is no response waits alone on an idle connection, its iovecs all with bytes.
pub record IsReady (iov_max : ℕ) (w : Writer) (p : ℕ) : Type 0 where
  pub idle : w.in_write ≡ none
  pub first : w.to_write_consume ≡ some p
  pub alone : (w.pdus p).wn ≡ none
  pub no_req : (w.pdus p).req ≡ none
  pub counted : 0 < w.n_to_write
  pub full : All HasBytes (w.pdus p).iov
  pub some_iov : 0 < length (w.pdus p).iov
  pub fits : length (w.pdus p).iov ≤ hi_n_iov iov_max

first_has_bytes : (vs : List Iov) → 0 < length vs → All HasBytes vs → has_bytes vs ≡ true
first_has_bytes [] h k = absurd (omega arith)
first_has_bytes (v ∷ vs) h k = ground (arith, k.0)

some_wire : (vs : List Iov) → 0 < length vs → All HasBytes vs → 0 < wire_len vs
some_wire [] h k = absurd (omega arith)
some_wire (v ∷ vs) h k = wire_len-pos v vs k

module _ (iov_max : ℕ) (w : Writer) (p : ℕ) (ready : IsReady iov_max w p) where
  -- The state behind hi_make_iov.
  abbrev taken : Writer
  taken = take_pdu (record w { iov = [] }) p

  made : hi_make_iov iov_max w ≡ ok taken
  made =
      hi_make_iov-single iov_max w p ready.first ready.alone ready.counted
        (first_has_bytes (w.pdus p).iov ready.some_iov ready.full) ready.fits

  taken-Writes : Writes taken p
  taken-Writes =
      let same : (p == p) ≡ true = (eqb_iff p p).1 refl in
      record {
        busy = refl;
        alone = rw same ready.idle;
        no_req = rw same ready.no_req;
        last = ready.alone;
        full = ready.full;
      }

  -- The first round makes the iovecs, and goes on as a round of the state behind that.
  hi_write-made :
      (fuel n : ℕ) (rs : List Writev)
      → hi_write iov_max fuel (wrote n ∷ rs) w ≡ hi_write iov_max fuel (wrote n ∷ rs) taken
  unfolding hi_write
  hi_write-made fuel n rs =
      let go : Writer → Result (Stop × Writer) = λ w1. elim w1.in_write [
        | none ↦ ok (drained, w1)
        | some p ↦
            hi_clear_iov fuel (record w1 { sent = w1.sent ++ take n (bytes w1.iov) }) n
            >>= hi_write iov_max fuel rs
      ] in
      ap (λ o. prepare iov_max w o >>= go) ready.idle ∙ ap (λ r. r >>= go) made

  -- The connection is writing nothing, and one PDU is alone in its queue; it is the response to no
  -- request, is counted, and has at least one iovec, at most HI_N_IOV, each with bytes. Each writev
  -- succeeds and takes at least one byte, and together they take as many bytes as the PDU has. However they
  -- divide these, hi_write sends exactly these bytes, in their order, and returns with nothing to
  -- write.
  pub hi_write-pieces :
      (fuel : ℕ) (cs : List ℕ)
      → All (λ c. 0 < c) cs
      → total cs ≡ wire_len (w.pdus p).iov
      → (w' : Writer) × (hi_write iov_max (suc fuel) (map wrote cs) w ≡ ok (drained, w'))
        × (w'.sent ≡ w.sent ++ bytes (w.pdus p).iov)
        × (w'.in_write ≡ none)
  hi_write-pieces fuel [] pos sum =
      absurd (omega (arith, some_wire (w.pdus p).iov ready.some_iov ready.full, sum))
  hi_write-pieces fuel (c ∷ cs) pos sum =
      let (w', runs, sent, ends) =
        pieces iov_max fuel (c ∷ cs) taken p taken-Writes
          (some_wire (w.pdus p).iov ready.some_iov ready.full) pos sum in
      (w', hi_write-made (suc fuel) c (map wrote cs) ∙ runs, sent, ends)
