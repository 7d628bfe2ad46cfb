-- ===== src/Conns/Chains.antt =====
-- The list of the connections of the first DTS spec.
use open_lib.Prelude.{
  ℕ, zero, suc, refl, ap, false, Option, none, some, List, [], ◌∷◌, ◌≡◌, sym, subst, ◌∙◌, arith,
}
use open_lib.Prelude.Pointers.{update, member, Chain, Chain-same}
use open_lib.Conns.{Remote, Table, s5066_dts, link_first, accept_dts}

-- The first connection of the first spec of DTS, the one that gets the data of the clients.
abbrev pub first_of : List Remote → Option ℕ
first_of [] = none
first_of (hs ∷ rest) = hs.conns

abbrev pub first_dts : Table → Option ℕ
first_dts t = first_of (t.specs s5066_dts)

update_same : (f : ℕ → Option ℕ) (p : ℕ) (a : Option ℕ) → update f p a p ≡ a
update_same f p a = ground arith

link_first_lem :
    (t : Table) (io : ℕ) (hs : List Remote)
    → (first_dts (link_first t io hs) ≡ some io)
      × ((p : ℕ) → (link_first t io hs).n p ≡ update t.n io (first_of hs) p)
link_first_lem t io [] = (refl, λ p. refl)
link_first_lem t io (hs ∷ rest) = (refl, λ p. refl)

accept_dts_lem :
    (t : Table) (io : ℕ)
    → (first_dts (accept_dts t io) ≡ some io)
      × ((p : ℕ) → (accept_dts t io).n p ≡ update t.n io (first_dts t) p)
unfolding accept_dts
accept_dts_lem t io = link_first_lem _ io (t.specs s5066_dts)

accept_dts-n : (t : Table) (io : ℕ) → (accept_dts t io).n io ≡ first_dts t
accept_dts-n t io = (accept_dts_lem t io).1 io ∙ update_same t.n io (first_dts t)

-- The connection `k` links behind the one at `o`.
abbrev pub follow : (ℕ → Option ℕ) → ℕ → Option ℕ → Option ℕ
follow n zero o = o
follow n (suc k) none = none
follow n (suc k) (some io) = follow n k (n io)

follow-loop : (n : ℕ → Option ℕ) (io k : ℕ) → n io ≡ some io → follow n k (some io) ≡ some io
follow-loop n io zero e = refl
follow-loop n io (suc k) e = ap (follow n k) e ∙ follow-loop n io k e

-- The links of the table lead from its first DTS connection through `ios`. A connection that is not
-- among them is accepted: it is the first, the one that gets the data of the clients, and the links
-- lead on through those that were accepted before it. But when the descriptor that is accepted is the
-- first of them, every number of links leads from it to itself: the others are no longer reached.
pub accept_dts-Chain :
    (t : Table) (io : ℕ) (ios : List ℕ)
    → Chain t.n (first_dts t) ios
    → (member io ios ≡ false → Chain (accept_dts t io).n (first_dts (accept_dts t io)) (io ∷ ios))
      × (first_dts t ≡ some io
          → (k : ℕ) → follow (accept_dts t io).n k (first_dts (accept_dts t io)) ≡ some io)
accept_dts-Chain t io ios c = (
  λ out. (
    (accept_dts_lem t io).0,
    subst (λ o. Chain (accept_dts t io).n o ios) (sym (accept_dts-n t io))
        (Chain-same t.n (accept_dts t io).n (first_dts t) ios
          (λ p m. (accept_dts_lem t io).1 p ∙ ground arith) c),
  ),
  λ first k.
      ap (follow (accept_dts t io).n k) (accept_dts_lem t io).0
      ∙ follow-loop (accept_dts t io).n io k (accept_dts-n t io ∙ first),
)
