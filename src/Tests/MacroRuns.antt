-- ===== src/Tests/MacroRuns.antt =====
-- Runs of the macros of errmac.h.
use open_lib.Prelude.{
  ℕ, ◌≡◌, refl, Option, none, some, [], ◌∷◌, Mem, IsBytes, arith, ◌==◌, if◌then◌else◌, false,
}
use open_lib.Errmac.Links.{reverse_loop, reverse_loop-Chain}
use open_lib.Errmac.Url.{meaning, url_decode, url_decode-meaning, Replaced}
use open_lib.Prelude.Pointers.{member, Chain}

-- The nodes 1, 2 and 3, in this order.
abbrev three_nodes : ℕ → Option ℕ
three_nodes p = if p == 1 then some 2 else if p == 2 then some 3 else none

reverse_loop-Chain_example :
    (links' : ℕ → Option ℕ) × (root' : Option ℕ) × (reverse_loop 3 three_nodes none (some 1)
      ≡ some (links', root'))
    × Chain links' root' (3 ∷ 2 ∷ 1 ∷ [])
    × ((p : ℕ) → member p (1 ∷ 2 ∷ 3 ∷ []) ≡ false → links' p ≡ three_nodes p)
reverse_loop-Chain_example =
    reverse_loop-Chain 3 three_nodes none (some 1) [] (1 ∷ 2 ∷ 3 ∷ []) refl
      (refl, (refl, (refl, refl))) (refl, (refl, (refl, tt))) (λ p h. absurd (cc)) (omega arith)

-- The text a%42+.
abbrev text : Mem
text i =
    if i == 0
    then 97
    else if i == 1
    then 37
    else if i == 2
    then 52
    else if i == 3
    then 50
    else if i == 4
    then 43
    else 0

text-IsBytes : IsBytes text
text-IsBytes i = ground arith

url_decode-meaning_example : Replaced text 0 (97 ∷ 66 ∷ 32 ∷ []) 5 (url_decode 5 text 0 0 5)
unfolding meaning
url_decode-meaning_example =
    url_decode-meaning 5 text 0 0 5 5 text-IsBytes (omega arith) refl (omega arith)
