-- ===== src/Hiwrite.antt =====
-- hiwrite.c: the queue of PDUs that a connection has still to write, with its links, and the loops
-- that write it. A PDU is an address in a store; its bytes are in the iovecs that `hi_send1` to
-- `hi_send3` set. One connection writes; the requests may belong to others.
use open_lib.Prelude.{
  ℕ, zero, suc, ◌+◌, ◌-◌, Bool, true, false, not, Option, none, some, List, [], ◌∷◌, ◌++◌, ltb, leb,
  ◌==◌, at, if◌then◌else◌,
}
use open_lib.Prelude.Lists.{length}
use open_lib.Prelude.Pointers.{update}
use open_lib.Hiios.{
  Iov, core_dump, null_pointer, out_of_fuel, Result, ok, fault, ◌>>=◌, ◌>>◌, assertop,
}
pub mod Loop
pub mod Partial
pub mod Freeing
pub mod Faithful
pub mod Bounds
pub mod Lost
pub mod Single
pub mod Whole
pub mod Release

-- The links of `struct hi_pdu`, and its `iov` up to `n_iov`.
pub record Pdu : Type 0 where
  pub qel_n : Option ℕ
  pub n : Option ℕ
  pub wn : Option ℕ
  pub req : Option ℕ
  pub reals : Option ℕ
  pub iov : List Iov

-- The PDUs and the thread's free list; of the connection `io`, `iov_cur` up to `n_iov`, the queues
-- and the counters. `sent` and `copied` record the bytes that writev took, and the iovecs that
-- `hi_make_iov` copied.
pub record Writer : Type 0 where
  pub pdus : ℕ → Pdu
  pub free_pdus : Option ℕ
  pub iov : List Iov
  pub in_write : Option ℕ
  pub to_write_consume : Option ℕ
  pub to_write_produce : Option ℕ
  pub n_to_write : ℕ
  pub n_written : ℕ
  pub n_pdu_out : ℕ
  pub sent : List ℕ
  pub copied : List Iov

abbrev pub set_pdu : Writer → ℕ → Pdu → Writer
set_pdu w p pdu = record w { pdus = update w.pdus p pdu }

-- The response joins `req->reals`.
abbrev pub link_req : Writer → Option ℕ → ℕ → Writer
link_req w none resp = set_pdu w resp (record (w.pdus resp) { req = none; n = none })
link_req w (some q) resp =
    let w1 = set_pdu w resp (record (w.pdus resp) { req = some q; n = (w.pdus q).reals }) in
    set_pdu w1 q (record (w1.pdus q) { reals = some resp })

-- `to_write_produce->qel.n = &resp->qel`, or `to_write_consume = resp` in an empty queue
abbrev pub link_write : Writer → ℕ → Option ℕ → Writer
link_write w resp none = record w { to_write_consume = some resp }
link_write w resp (some last) = set_pdu w last (record (w.pdus last) { qel_n = some resp })

-- hi_send0 up to its call of hi_write.
unfoldable pub hi_send0 : Writer → Option ℕ → ℕ → Writer
hi_send0 w req resp =
    let w1 = link_req w req resp in
    let w2 = link_write w1 resp w1.to_write_produce in
    record w2 {
      to_write_produce = some resp;
      pdus = update w2.pdus resp (record (w2.pdus resp) { qel_n = none });
      n_to_write = w2.n_to_write + 1;
      n_pdu_out = w2.n_pdu_out + 1;
    }

-- hi_send1, hi_send2 and hi_send3, by the iovecs that they are given.
unfoldable pub hi_send3 : Writer → Option ℕ → ℕ → List Iov → Writer
hi_send3 w req resp iov = hi_send0 (set_pdu w resp (record (w.pdus resp) { iov = iov })) req resp

abbrev pub hi_n_iov : ℕ → ℕ
hi_n_iov iov_max = if ltb iov_max 32 then iov_max else 32

-- `pdu->n_iov && pdu->iov[0].iov_len`
abbrev pub has_bytes : List Iov → Bool
has_bytes [] = false
has_bytes (v ∷ vs) = not (v.iov_len == 0)

-- A PDU moves from `to_write` to `in_write`.
abbrev pub take_pdu : Writer → ℕ → Writer
take_pdu w p =
    let next = (w.pdus p).wn in
    record w {
      iov = w.iov ++ (w.pdus p).iov;
      copied = w.copied ++ (w.pdus p).iov;
      to_write_consume = next;
      to_write_produce = elim next [ none ↦ none | some q ↦ w.to_write_produce ];
      n_to_write = w.n_to_write - 1;
      pdus = update w.pdus p (record (w.pdus p) { wn = w.in_write });
      in_write = some p;
    }

-- The rounds of hi_make_iov; `next` is `to_write_consume`.
unfoldable pub make_iov_loop : ℕ → ℕ → Writer → Option ℕ → Result Writer
make_iov_loop lim fuel w none = ok w
make_iov_loop lim zero w (some p) = fault out_of_fuel
make_iov_loop lim (suc fuel) w (some p) =
    let more =
      assertop (ltb 0 w.n_to_write)
      >> (assertop (has_bytes (w.pdus p).iov)
          >> make_iov_loop lim fuel (take_pdu w p) (w.pdus p).wn) in
    if leb (length w.iov + length (w.pdus p).iov) lim then more else ok w

unfoldable pub hi_make_iov : ℕ → Writer → Result Writer
hi_make_iov iov_max w =
    make_iov_loop (hi_n_iov iov_max) (suc (hi_n_iov iov_max)) (record w { iov = [] })
      w.to_write_consume

-- `for (; 1; pdu = pdu->n) if (pdu->n == resp) ...`: a chain without `resp` ends in a null pointer.
unfoldable pub unlink : ℕ → (ℕ → Pdu) → ℕ → ℕ → Result (ℕ → Pdu)
unlink zero pdus resp p = fault out_of_fuel
unlink (suc fuel) pdus resp p = elim (pdus p).n [
  | none ↦ fault null_pointer
  | some q ↦
      let rest = unlink fuel pdus resp q in
      if q == resp then ok (update pdus p (record (pdus p) { n = (pdus resp).n })) else rest
]

-- `resp` leaves the list that starts with `first`, of the request `q`.
abbrev pub unlink_resp : ℕ → Writer → ℕ → ℕ → ℕ → Result Writer
unlink_resp fuel w q resp first =
    if first == resp
    then ok (set_pdu w q (record (w.pdus q) { reals = (w.pdus first).n }))
    else (do pdus ← unlink fuel w.pdus resp first; ok (record w { pdus = pdus }))

-- `pdu->qel.n = hit->free_pdus; hit->free_pdus = pdu`
abbrev pub push_free : Writer → ℕ → Writer
push_free w p = record w {
  pdus = update w.pdus p (record (w.pdus p) { qel_n = w.free_pdus });
  free_pdus = some p;
}

-- `q` is `resp->req`, which the caller has tested.
unfoldable pub hi_free_resp : ℕ → Writer → ℕ → ℕ → Result Writer
hi_free_resp fuel w q resp = elim (w.pdus q).reals [
  | none ↦ fault null_pointer
  | some first ↦ (do w1 ← unlink_resp fuel w q resp first; ok (push_free w1 resp))
]

-- The dependent responses, from `next` on.
unfoldable pub free_reals : ℕ → Writer → Option ℕ → Result Writer
free_reals fuel w none = ok w
free_reals zero w (some p) = fault out_of_fuel
free_reals (suc fuel) w (some p) = free_reals fuel (push_free w p) (w.pdus p).n

unfoldable pub hi_free_req : ℕ → Writer → ℕ → Result Writer
unfolding free_reals
hi_free_req fuel w q = do w1 ← free_reals fuel w (w.pdus q).reals; ok (push_free w1 q)

-- The loop of hi_clear_iov over the iovecs: those that are left, and the bytes that are.
unfoldable pub clear_iov : List Iov → ℕ → List Iov × ℕ
clear_iov [] n = ([], n)
clear_iov (v ∷ vs) zero = (v ∷ vs, 0)
clear_iov (v ∷ vs) (suc n) =
    let rest = clear_iov vs (suc n - v.iov_len) in
    if leb v.iov_len (suc n)
    then rest
    else (record { iov_base = at v.iov_base (suc n); iov_len = v.iov_len - suc n } ∷ vs, 0)

-- A PDU that has been written is freed if it is a response, and its request behind the last one.
abbrev pub release : ℕ → Writer → ℕ → Option ℕ → Result Writer
release fuel w p none = ok w
release fuel w p (some q) = do
  w1 ← hi_free_resp fuel w q p
  elim (w1.pdus q).reals [ none ↦ hi_free_req fuel w1 q | some r ↦ ok w1 ]

-- The list `in_write` is emptied.
unfoldable pub release_all : ℕ → ℕ → Writer → Option ℕ → Result Writer
release_all fuel rounds w none = ok w
release_all fuel zero w (some p) = fault out_of_fuel
release_all fuel (suc rounds) w (some p) = do
  let next = (w.pdus p).wn
  let w1 = record (set_pdu w p (record (w.pdus p) { wn = none })) { in_write = next }
  w2 ← release fuel w1 p (w1.pdus p).req
  release_all fuel rounds w2 next

-- While something is left to write nothing is freed.
abbrev pub settle : ℕ → Writer → List Iov → Result Writer
settle fuel w [] = release_all fuel fuel w w.in_write
settle fuel w (v ∷ vs) = ok w

unfoldable pub hi_clear_iov : ℕ → Writer → ℕ → Result Writer
unfolding clear_iov
hi_clear_iov fuel w n = do
  let (rest, left) = clear_iov w.iov n
  let w1 = record w { iov = rest; n_written = w.n_written + n }
  assertop (left == 0)
  settle fuel w1 rest
