-- ===== src/Pool.antt =====
-- hi_pdu_alloc of hiread.c, with the links of the free lists: the thread's, which the functions of
-- hiwrite.c extend, and the shuffler's, whose head no function changes once it has been built.
use open_lib.Prelude.{
  ℕ, zero, suc, ◌+◌, Bool, true, false, ◌||◌, Option, none, some, List, [], ◌∷◌, ◌++◌, map, ◌≡◌,
  ◌≢◌, refl, ap, sym, subst, ◌∙◌, ◌==◌, if◌then◌else◌, eqb_iff, arith,
}
use open_lib.Prelude.Lists.{length}
use open_lib.Prelude.Pointers.{update, member, Distinct, Chain, Chain-same}
use open_lib.Hiios.{Result, ok, ◌>>=◌}
use open_lib.Hiwrite.{Pdu, Writer, set_pdu, push_free, free_reals, hi_free_req}
pub mod Reissue
pub mod Close
pub mod New

-- `retpdu` of hi_pdu_alloc, for the links.
abbrev pub reset : Writer → ℕ → Writer
reset w p = set_pdu w p (record (w.pdus p) { req = none; reals = none; n = none })

-- The thread's free list, or what follows the shuffler's first free PDU.
abbrev pub alloc_from : Option ℕ → Writer → Option ℕ → Option (ℕ × Writer)
alloc_from shf_free w (some p) = some (p, reset (record w { free_pdus = (w.pdus p).qel_n }) p)
alloc_from none w none = none
alloc_from (some p) w none = some (p, reset (record w { free_pdus = (w.pdus p).qel_n }) p)

unfoldable pub hi_pdu_alloc : Option ℕ → Writer → Option (ℕ × Writer)
hi_pdu_alloc shf_free w = alloc_from shf_free w w.free_pdus

-- What a number of calls return.
unfoldable pub allocated : Option ℕ → ℕ → Writer → List (Option ℕ)
unfolding hi_pdu_alloc
allocated shf_free zero w = []
allocated shf_free (suc k) w = elim (hi_pdu_alloc shf_free w) [
  | none ↦ none ∷ allocated shf_free k w
  | some (p, w') ↦ some p ∷ allocated shf_free k w'
]
