-- ===== src/Pool/New.antt =====
-- The pool that hi_new_shuffler of hiios.c builds.
use open_lib.Prelude.{
  ℕ, zero, suc, ◌+◌, ◌-◌, ◌<◌, none, some, List, [], ◌∷◌, ◌++◌, map, ◌≡◌, refl, ap, sym, subst, ◌∙◌,
  ltb, if◌then◌else◌, arith,
}
use open_lib.Prelude.Lists.{length}
use open_lib.Prelude.Pointers.{update, Chain}
use open_lib.Hiwrite.{Pdu, Writer}
use open_lib.Pool.{allocated}
use open_lib.Pool.Reissue.{hi_pdu_alloc_again}

-- ZMALLOCN: all links are 0.
abbrev pub zeroed : Pdu
zeroed = record { qel_n = none; n = none; wn = none; req = none; reals = none; iov = [] }

-- `for (; i; --i) pdus[i-1].qel.n = pdus + i`
unfoldable pub link_pool : ℕ → (ℕ → Pdu) → (ℕ → Pdu)
link_pool zero pdus = pdus
link_pool (suc i) pdus = link_pool i (update pdus i (record (pdus i) { qel_n = some (suc i) }))

-- The PDUs of a new shuffler with `npdu` of them, which is not 0, and a thread that has none. The
-- shuffler's list starts with the PDU 0.
unfoldable pub new_pool : ℕ → Writer
unfolding link_pool
new_pool npdu = record {
  pdus = link_pool (npdu - 1) (λ p. zeroed);
  free_pdus = none;
  iov = [];
  in_write = none;
  to_write_consume = none;
  to_write_produce = none;
  n_to_write = 0;
  n_written = 0;
  n_pdu_out = 0;
  sent = [];
  copied = [];
}

-- So many numbers from `i` on.
abbrev pub from_on : ℕ → ℕ → List ℕ
from_on i zero = []
from_on i (suc k) = i ∷ from_on (suc i) k

link_pool_lem :
    (i : ℕ) (pdus : ℕ → Pdu) (p : ℕ)
    → (link_pool i pdus p).qel_n ≡ (if ltb p i then some (suc p) else (pdus p).qel_n)
unfolding link_pool
link_pool_lem zero pdus p = ground arith
link_pool_lem (suc i) pdus p =
    link_pool_lem i (update pdus i (record (pdus i) { qel_n = some (suc i) })) p ∙ ground arith

link_pool-Chain :
    (k i n : ℕ)
    → i + k ≡ n
    → Chain (λ p. (link_pool n (λ q. zeroed) p).qel_n) (some i) (from_on i (suc k))
link_pool-Chain zero i n h = (refl, link_pool_lem n (λ q. zeroed) i ∙ ground arith)
link_pool-Chain (suc k) i n h =
    let e : (link_pool n (λ q. zeroed) i).qel_n ≡ some (suc i) =
      link_pool_lem n (λ q. zeroed) i ∙ ground arith in
    (
      refl,
      subst (λ o. Chain (λ p. (link_pool n (λ q. zeroed) p).qel_n) o (from_on (suc i) (suc k)))
          (sym e) (link_pool-Chain k (suc i) n (omega arith)),
    )

length-from_on : (i k : ℕ) → length (from_on i k) ≡ k
length-from_on i zero = refl
length-from_on i (suc k) = omega (arith, length-from_on (suc i) k)

-- A thread takes PDUs from a new shuffler, and frees none. It gets each of the `npdu` once, in
-- order, and the next call returns the PDU 0 again, where it should fail.
pub hi_pdu_alloc-new_pool :
    (npdu : ℕ)
    → 0 < npdu
    → allocated (some 0) (suc npdu) (new_pool npdu) ≡ map some (from_on 0 npdu ++ (0 ∷ []))
unfolding new_pool
hi_pdu_alloc-new_pool zero h = absurd (omega arith)
hi_pdu_alloc-new_pool (suc k) h =
    ap (λ m. allocated (some 0) (suc (suc m)) (new_pool (suc k))) (sym (length-from_on 1 k))
    ∙ hi_pdu_alloc_again 0 (from_on 1 k) (new_pool (suc k)) refl
        (link_pool-Chain k 0 (suc k - 1) (omega arith))
