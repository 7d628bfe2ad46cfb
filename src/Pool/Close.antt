-- ===== src/Pool/Close.antt =====
-- hi_close of hiios.c, and hi_add_fd for the next connection with the same descriptor.
use open_lib.Prelude.{
  ℕ, zero, suc, ◌+◌, ◌≤◌, Bool, false, true, not, Option, none, some, List, [], ◌∷◌, ◌≡◌, refl, ap,
  sym, subst, ◌∙◌, ◌^◌, ltb, if◌then◌else◌, arith,
}
use open_lib.Prelude.Lists.{length}
use open_lib.Prelude.Pointers.{member, Chain, Chain-same}
use open_lib.Hiios.{Result, ok, fault, out_of_fuel, ◌>>=◌, ◌>>◌, assertop}
use open_lib.Hiwrite.{Writer, push_free, free_reals, hi_free_req}
use open_lib.Pool.{reset, hi_pdu_alloc}
use open_lib.Todo.{QelKind}

-- A slot of `shf->ios`: what concerns reading. `sis_clean` works on the SAP table, see Sis/Bind.
pub record Slot : Type 0 where
  pub fd : ℕ
  pub kind : QelKind
  pub inqueue : Bool
  pub cur_pdu : Option ℕ
  pub reqs : Option ℕ
  pub writer : Writer

-- `for (pdu = io->reqs; pdu; pdu = pdu->n) hi_free_req(hit, pdu)`
unfoldable pub close_reqs : ℕ → Writer → Option ℕ → Result Writer
close_reqs fuel w none = ok w
close_reqs zero w (some p) = fault out_of_fuel
close_reqs (suc fuel) w (some p) = do
  w1 ← hi_free_req (suc fuel) w p
  close_reqs fuel w1 (w1.pdus p).n

abbrev pub close_cur : ℕ → Writer → Option ℕ → Result Writer
close_cur fuel w none = ok w
close_cur fuel w (some p) = hi_free_req fuel w p

-- The descriptor is marked as free.
unfoldable pub hi_close : ℕ → Slot → Result Slot
unfolding close_reqs
hi_close fuel io = do
  assertop (not io.inqueue)
  w1 ← close_reqs fuel io.writer io.reqs
  w2 ← close_cur fuel w1 io.cur_pdu
  ok (record io { writer = w2; fd = if ltb io.fd (2 ^ 31) then io.fd + 2 ^ 31 else io.fd })

-- What hi_add_fd sets, once the event file has the descriptor.
unfoldable pub hi_add_fd : Slot → ℕ → QelKind → Slot
hi_add_fd io fd kind = record io { fd = fd; kind = kind }

-- A request without responses is put on the free list.
free_bare :
    (fuel : ℕ) (w : Writer) (q : ℕ)
    → (w.pdus q).reals ≡ none
    → hi_free_req fuel w q ≡ ok (push_free w q)
unfolding hi_free_req free_reals
free_bare fuel w q h = ap (λ o. free_reals fuel w o >>= λ w1. ok (push_free w1 q)) h

push_free-n : (w : Writer) (q x : ℕ) → ((push_free w q).pdus x).n ≡ (w.pdus x).n
push_free-n w q x = ground arith

push_free-reals : (w : Writer) (q x : ℕ) → ((push_free w q).pdus x).reals ≡ (w.pdus x).reals
push_free-reals w q x = ground arith

abbrev IsBare : Writer → List ℕ → Type 0
IsBare w xs = (x : ℕ) → member x xs ≡ true → (w.pdus x).reals ≡ none

-- Requests that have no responses can all be freed.
close_reqs-Chain :
    (fuel : ℕ) (w : Writer) (next : Option ℕ) (xs : List ℕ)
    → length xs ≤ fuel
    → Chain (λ x. (w.pdus x).n) next xs
    → IsBare w xs
    → (w' : Writer) × (close_reqs fuel w next ≡ ok w')
      × ((x : ℕ) → (w'.pdus x).reals ≡ (w.pdus x).reals)
unfolding close_reqs
close_reqs-Chain fuel w next [] enough c bare = (w, ap (close_reqs fuel w) c, λ x. refl)
close_reqs-Chain zero w next (x ∷ xs) enough c bare = absurd (omega arith)
close_reqs-Chain (suc fuel) w next (x ∷ xs) enough c bare =
    let w1 = push_free w x in
    let (w', runs, rest) =
      close_reqs-Chain fuel w1 (w1.pdus x).n xs (omega arith)
        (subst (λ o. Chain (λ y. (w1.pdus y).n) o xs) (sym (push_free-n w x x))
          (Chain-same (λ y. (w.pdus y).n) (λ y. (w1.pdus y).n) (w.pdus x).n xs
            (λ y m. push_free-n w x y) c.1))
        (λ y m. push_free-reals w x y ∙ bare y (ground (arith, m))) in
    (
      w',
      ap (close_reqs (suc fuel) w) c.0
          ∙ ap (λ r. r >>= λ w1. close_reqs fuel w1 (w1.pdus x).n)
              (free_bare (suc fuel) w x (bare x (ground arith)))
          ∙ runs,
      λ y. rest y ∙ push_free-reals w x y,
    )

-- A connection that is in no queue is closed while a PDU is being read; the requests in its list, for
-- which there is fuel, and that PDU, have no responses. Its slot keeps the PDU, also for the next connection with this descriptor, and the
-- next call of hi_pdu_alloc hands out the same PDU.
pub hi_close-hi_add_fd :
    (fuel : ℕ) (io : Slot) (p : ℕ) (xs : List ℕ) (shf_free : Option ℕ) (fd : ℕ) (kind : QelKind)
    → io.inqueue ≡ false
    → io.cur_pdu ≡ some p
    → length xs ≤ fuel
    → Chain (λ x. (io.writer.pdus x).n) io.reqs xs
    → ((x : ℕ) → member x xs ≡ true → (io.writer.pdus x).reals ≡ none)
    → (io.writer.pdus p).reals ≡ none
    → (io' : Slot) × (hi_close fuel io ≡ ok io')
      × ((hi_add_fd io' fd kind).cur_pdu ≡ some p)
      × (w : Writer) × (hi_pdu_alloc shf_free io'.writer ≡ some (p, w))
unfolding hi_close hi_add_fd hi_pdu_alloc
hi_close-hi_add_fd fuel io p xs shf_free fd kind idle cur enough c bare bare_p =
    let (w1, runs, rest) = close_reqs-Chain fuel io.writer io.reqs xs enough c bare in
    let w2 = push_free w1 p in
    let end : Writer → Slot =
      λ w. record io { writer = w; fd = if ltb io.fd (2 ^ 31) then io.fd + 2 ^ 31 else io.fd } in
    (
      end w2,
      ap
            (λ b.
              assertop (not b)
              >> (close_reqs fuel io.writer io.reqs >>= λ w1.
                  close_cur fuel w1 io.cur_pdu >>= λ w2. ok (end w2)))
            idle
          ∙ ap (λ r. r >>= λ w1. close_cur fuel w1 io.cur_pdu >>= λ w2. ok (end w2)) runs
          ∙ ap (λ o. close_cur fuel w1 o >>= λ w2. ok (end w2)) cur
          ∙ ap (λ r. r >>= λ w2. ok (end w2)) (free_bare fuel w1 p (rest p ∙ bare_p)),
      cur,
      reset (record w2 { free_pdus = (w2.pdus p).qel_n }) p,
      refl,
    )
