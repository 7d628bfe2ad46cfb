-- ===== src/Hiwrite/Faithful.antt =====
-- The bytes that writev takes are those of the PDUs, in order, however it cuts them.
use open_lib.Prelude.{
  ℕ, zero, suc, ◌+◌, Option, none, some, List, [], ◌∷◌, ◌++◌, ltb, leb, ◌==◌, ◌≡◌, refl, ap, ◌∙◌,
  sym,
}
use mathlib.Core.Path.{ap₂}
use mathlib.Core.List.{append_assoc}
use open_lib.Prelude.Lists.{length, take, drop, take-drop}
use open_lib.Hiios.{Iov, core_dump, Result, ok, ◌>>=◌, assertop}
use open_lib.Hiios.Outcome.{
  AllOk, AllOk-weaken, AllOk-bind, AllOk-any, AllOk-ok, AllOk-fault, if-AllOk, Option-AllOk_known,
}
use open_lib.Hiwrite.{
  Writer, link_req, link_write, hi_send0, hi_n_iov, has_bytes, take_pdu, make_iov_loop, hi_make_iov,
  release_all, clear_iov, settle, hi_clear_iov,
}
use open_lib.Hiwrite.Freeing.{Keeps, release_all-Keeps}
use open_lib.Hiwrite.Loop.{
  bytes, Writev, wrote, wrote_none, eintr, eagain, failed, Stop, drained, prepare, hi_write,
}
use open_lib.Hiwrite.Partial.{bytes-clear_iov, bytes-append}

-- What was sent and what waits in the iovecs is what was copied into them, and nothing waits
-- when no PDU is being written.
pub record IsFaithful (w : Writer) : Type 0 where
  pub in_order : w.sent ++ bytes w.iov ≡ bytes w.copied
  pub idle : w.in_write ≡ none → w.iov ≡ []

settle-IsFaithful :
    (fuel : ℕ) (w : Writer) (p : ℕ) (rest : List Iov)
    → w.in_write ≡ some p
    → w.sent ++ bytes rest ≡ bytes w.copied
    → AllOk IsFaithful (settle fuel (record w { iov = rest }) rest)
unfolding AllOk
settle-IsFaithful fuel w p (v ∷ vs) busy h = record { in_order = h; idle = λ idle. absurd (cc) }
settle-IsFaithful fuel w p [] busy h =
    let w1 = record w { iov = [] } in
    AllOk-weaken (Keeps w1) IsFaithful (release_all fuel fuel w1 w1.in_write)
      (release_all-Keeps fuel fuel w1 w1 w1.in_write
        (record { sent = refl; iov = refl; copied = refl }))
      (λ w2 k. record { in_order = rw (k.sent, k.iov, k.copied) h; idle = λ idle. k.iov })

pub hi_clear_iov-IsFaithful :
    (fuel : ℕ) (w : Writer) (p n : ℕ)
    → w.in_write ≡ some p
    → IsFaithful w
    → AllOk IsFaithful (hi_clear_iov fuel (record w { sent = w.sent ++ take n (bytes w.iov) }) n)
unfolding hi_clear_iov
hi_clear_iov-IsFaithful fuel w p n busy f =
    AllOk-bind (λ u. Unit {0}) IsFaithful (assertop ((clear_iov w.iov n).1 == 0)) _ (AllOk-any _)
      (λ u h.
        settle-IsFaithful fuel
          (record w { n_written = w.n_written + n; sent = w.sent ++ take n (bytes w.iov) }) p
          (clear_iov w.iov n).0 busy
          (ap (λ r. (w.sent ++ take n (bytes w.iov)) ++ r) (bytes-clear_iov w.iov n).0
            ∙ append_assoc w.sent (take n (bytes w.iov)) (drop n (bytes w.iov))
            ∙ ap (λ r. w.sent ++ r) (take-drop n (bytes w.iov))
            ∙ f.in_order))

take_pdu-IsFaithful : (w : Writer) (p : ℕ) → IsFaithful w → IsFaithful (take_pdu w p)
take_pdu-IsFaithful w p f = record {
  in_order =
      ap (λ r. w.sent ++ r) (bytes-append w.iov (w.pdus p).iov)
      ∙ sym (append_assoc w.sent (bytes w.iov) (bytes (w.pdus p).iov))
      ∙ ap (λ r. r ++ bytes (w.pdus p).iov) f.in_order
      ∙ sym (bytes-append w.copied (w.pdus p).iov);
  idle = λ idle. absurd (cc);
}

make_iov_loop-IsFaithful :
    (lim fuel : ℕ) (w : Writer) (next : Option ℕ)
    → IsFaithful w
    → AllOk IsFaithful (make_iov_loop lim fuel w next)
unfolding make_iov_loop AllOk
make_iov_loop-IsFaithful lim fuel w none f = f
make_iov_loop-IsFaithful lim zero w (some p) f = tt
make_iov_loop-IsFaithful lim (suc fuel) w (some p) f =
    if-AllOk IsFaithful (leb (length w.iov + length (w.pdus p).iov) lim) _ _
      (AllOk-bind (λ u. Unit {0}) IsFaithful (assertop (ltb 0 w.n_to_write)) _ (AllOk-any _)
        (λ u h.
          AllOk-bind (λ u. Unit {0}) IsFaithful (assertop (has_bytes (w.pdus p).iov)) _
            (AllOk-any _)
            (λ u k.
              make_iov_loop-IsFaithful lim fuel (take_pdu w p) (w.pdus p).wn
                (take_pdu-IsFaithful w p f))))
      f

prepare-IsFaithful :
    (iov_max : ℕ) (w : Writer) (busy : Option ℕ)
    → w.in_write ≡ busy
    → IsFaithful w
    → AllOk IsFaithful (prepare iov_max w busy)
unfolding AllOk hi_make_iov
prepare-IsFaithful iov_max w (some p) e f = f
prepare-IsFaithful iov_max w none e f =
    make_iov_loop-IsFaithful (hi_n_iov iov_max) (suc (hi_n_iov iov_max)) (record w { iov = [] })
      w.to_write_consume
      (record {
        in_order = ap (λ r. w.sent ++ bytes r) (sym (f.idle e)) ∙ f.in_order;
        idle = λ i. refl;
      })

-- What `hi_send0` leaves alone.
abbrev Same : Writer → Writer → Type 0
Same w w' =
    (w'.sent ≡ w.sent) × (w'.iov ≡ w.iov) × (w'.copied ≡ w.copied) × (w'.in_write ≡ w.in_write)

link_req-Same : (w : Writer) (req : Option ℕ) (resp : ℕ) → Same w (link_req w req resp)
link_req-Same w none resp = (refl, refl, refl, refl)
link_req-Same w (some q) resp = (refl, refl, refl, refl)

link_write-Same :
    (w w' : Writer) (resp : ℕ) (last : Option ℕ) → Same w w' → Same w (link_write w' resp last)
link_write-Same w w' resp none s = s
link_write-Same w w' resp (some last) s = s

pub hi_send0-IsFaithful :
    (w : Writer) (req : Option ℕ) (resp : ℕ) → IsFaithful w → IsFaithful (hi_send0 w req resp)
unfolding hi_send0
hi_send0-IsFaithful w req resp f =
    let w1 = link_req w req resp in
    let (sent, iov, copied, in_write) =
      link_write-Same w w1 resp w1.to_write_produce (link_req-Same w req resp) in
    record {
      in_order = ap₂ (λ a b. a ++ bytes b) sent iov ∙ f.in_order ∙ ap bytes (sym copied);
      idle = λ i. iov ∙ f.idle (sym in_write ∙ i);
    }

-- When a round of hi_write finds a PDU to write, what the round does next keeps `P`.
round :
    (P : Stop × Writer → Type 0) (iov_max : ℕ) (w : Writer) (idle : Writer → Result (Stop × Writer))
    (busy : Writer → ℕ → Result (Stop × Writer))
    → IsFaithful w
    → ((w1 : Writer) → IsFaithful w1 → AllOk P (idle w1))
    → ((w1 : Writer) (p : ℕ) → w1.in_write ≡ some p → IsFaithful w1 → AllOk P (busy w1 p))
    → AllOk P (
        prepare iov_max w w.in_write >>= λ w1. elim w1.in_write [
          | none ↦ idle w1
          | some p ↦ busy w1 p
        ])
round P iov_max w idle busy f h k =
    AllOk-bind IsFaithful P (prepare iov_max w w.in_write) _
      (prepare-IsFaithful iov_max w w.in_write refl f)
      (λ w1 f1.
        Option-AllOk_known P w1.in_write (idle w1) (busy w1) (λ e. h w1 f1) (λ p e. k w1 p e f1))

abbrev Kept : Stop × Writer → Type 0
Kept r = IsFaithful r.1

ended :
    (iov_max : ℕ) (w : Writer) (stop : Writer → Stop)
    → IsFaithful w
    → AllOk Kept (prepare iov_max w w.in_write >>= λ w1. ok (stop w1, w1))
ended iov_max w stop f =
    AllOk-bind IsFaithful Kept (prepare iov_max w w.in_write) _
      (prepare-IsFaithful iov_max w w.in_write refl f) (λ w1 f1. AllOk-ok Kept (stop w1, w1) f1)

-- The bytes that were sent, followed by those that wait in the iovecs, are what was copied into the
-- iovecs, in that order, and no iovecs wait when no PDU is being written. When hi_write ends without
-- a fault, whatever writev has returned, this holds again.
pub hi_write-IsFaithful :
    (iov_max fuel : ℕ) (rs : List Writev) (w : Writer)
    → IsFaithful w
    → AllOk (λ r. IsFaithful r.1) (hi_write iov_max fuel rs w)
unfolding hi_write
hi_write-IsFaithful iov_max fuel [] w f = ended iov_max w _ f
hi_write-IsFaithful iov_max fuel (wrote n ∷ rs) w f =
    round Kept iov_max w _ _ f (λ w1 f1. AllOk-ok Kept (drained, w1) f1)
      (λ w1 p e f1.
        AllOk-bind IsFaithful Kept _ _ (hi_clear_iov-IsFaithful fuel w1 p n e f1)
          (λ w2 f2. hi_write-IsFaithful iov_max fuel rs w2 f2))
hi_write-IsFaithful iov_max fuel (wrote_none ∷ rs) w f =
    round Kept iov_max w _ _ f (λ w1 f1. AllOk-ok Kept (drained, w1) f1)
      (λ w1 p e f1. AllOk-fault Kept core_dump)
hi_write-IsFaithful iov_max fuel (eintr ∷ rs) w f =
    round Kept iov_max w _ _ f (λ w1 f1. AllOk-ok Kept (drained, w1) f1)
      (λ w1 p e f1. hi_write-IsFaithful iov_max fuel rs w1 f1)
hi_write-IsFaithful iov_max fuel (eagain ∷ rs) w f = ended iov_max w _ f
hi_write-IsFaithful iov_max fuel (failed ∷ rs) w f = ended iov_max w _ f
