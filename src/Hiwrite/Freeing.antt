-- ===== src/Hiwrite/Freeing.antt =====
-- The functions of hiwrite.c that free PDUs leave what is written as it is.
use open_lib.Prelude.{ℕ, zero, suc, Option, none, some, ◌==◌, ◌≡◌}
use open_lib.Hiios.{null_pointer, Result, ok, fault, ◌>>=◌}
use open_lib.Hiios.Outcome.{
  AllOk, AllOk-bind, AllOk-any, AllOk-ok, AllOk-fault, if-AllOk, Option-AllOk,
}
use open_lib.Hiwrite.{
  Writer, push_free, unlink, unlink_resp, hi_free_resp, free_reals, hi_free_req, release,
  release_all,
}

-- Freeing PDUs does not touch what is written.
pub record Keeps (w w' : Writer) : Type 0 where
  pub sent : w'.sent ≡ w.sent
  pub iov : w'.iov ≡ w.iov
  pub copied : w'.copied ≡ w.copied

free_reals-Keeps :
    (fuel : ℕ) (w w' : Writer) (next : Option ℕ)
    → Keeps w w'
    → AllOk (Keeps w) (free_reals fuel w' next)
unfolding free_reals AllOk
free_reals-Keeps fuel w w' none k = k
free_reals-Keeps zero w w' (some p) k = tt
free_reals-Keeps (suc fuel) w w' (some p) k =
    free_reals-Keeps fuel w (push_free w' p) (w'.pdus p).n
      (record { sent = k.sent; iov = k.iov; copied = k.copied })

-- A step that ends with an object on the free list.
push_free-Keeps :
    (w : Writer) (r : Result Writer) (p : ℕ)
    → AllOk (Keeps w) r
    → AllOk (Keeps w) (r >>= λ w1. ok (push_free w1 p))
push_free-Keeps w r p h = AllOk-bind (Keeps w) (Keeps w) r _ h (λ w1 k.
    AllOk-ok (Keeps w) (push_free w1 p) (record { sent = k.sent; iov = k.iov; copied = k.copied }))

hi_free_req-Keeps :
    (fuel : ℕ) (w w' : Writer) (q : ℕ) → Keeps w w' → AllOk (Keeps w) (hi_free_req fuel w' q)
unfolding hi_free_req
hi_free_req-Keeps fuel w w' q k =
    push_free-Keeps w (free_reals fuel w' (w'.pdus q).reals) q
      (free_reals-Keeps fuel w w' (w'.pdus q).reals k)

unlink_resp-Keeps :
    (fuel : ℕ) (w w' : Writer) (q resp first : ℕ)
    → Keeps w w'
    → AllOk (Keeps w) (unlink_resp fuel w' q resp first)
unfolding AllOk
unlink_resp-Keeps fuel w w' q resp first k =
    if-AllOk (Keeps w) (first == resp) _ _
      (record { sent = k.sent; iov = k.iov; copied = k.copied })
      (AllOk-bind (λ pdus. Unit {0}) (Keeps w) (unlink fuel w'.pdus resp first) _ (AllOk-any _)
        (λ pdus u. record { sent = k.sent; iov = k.iov; copied = k.copied }))

hi_free_resp-Keeps :
    (fuel : ℕ) (w w' : Writer) (q resp : ℕ)
    → Keeps w w'
    → AllOk (Keeps w) (hi_free_resp fuel w' q resp)
unfolding hi_free_resp
hi_free_resp-Keeps fuel w w' q resp k =
    Option-AllOk (Keeps w) (w'.pdus q).reals (fault null_pointer) _
      (AllOk-fault (Keeps w) null_pointer)
      (λ first.
        push_free-Keeps w (unlink_resp fuel w' q resp first) resp
          (unlink_resp-Keeps fuel w w' q resp first k))

release-Keeps :
    (fuel : ℕ) (w w' : Writer) (p : ℕ) (req : Option ℕ)
    → Keeps w w'
    → AllOk (Keeps w) (release fuel w' p req)
unfolding AllOk
release-Keeps fuel w w' p none k = k
release-Keeps fuel w w' p (some q) k =
    AllOk-bind (Keeps w) (Keeps w) (hi_free_resp fuel w' q p) _ (hi_free_resp-Keeps fuel w w' q p k)
      (λ w1 k1.
        Option-AllOk (Keeps w) (w1.pdus q).reals (hi_free_req fuel w1 q) (λ r. ok w1)
          (hi_free_req-Keeps fuel w w1 q k1) (λ r. k1))

pub release_all-Keeps :
    (fuel rounds : ℕ) (w w' : Writer) (next : Option ℕ)
    → Keeps w w'
    → AllOk (Keeps w) (release_all fuel rounds w' next)
unfolding release_all AllOk
release_all-Keeps fuel rounds w w' none k = k
release_all-Keeps fuel zero w w' (some p) k = tt
release_all-Keeps fuel (suc rounds) w w' (some p) k =
    AllOk-bind (Keeps w) (Keeps w) (release fuel _ p _) _
      (release-Keeps fuel w _ p _ (record { sent = k.sent; iov = k.iov; copied = k.copied }))
      (λ w2 k2. release_all-Keeps fuel rounds w w2 (w'.pdus p).wn k2)
