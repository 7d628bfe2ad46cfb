-- ===== src/Errmac/Url.antt =====
-- URL_DECODE of errmac.h, in place in one buffer.
use open_lib.Prelude.{
  ℕ, zero, suc, ◌+◌, ◌-◌, ◌*◌, ◌%◌, ◌≤◌, ◌<◌, ◌≡◌, refl, subst, sym, ap, ◌∙◌, Bool, true, false,
  ◌&&◌, ◌||◌, List, [], ◌∷◌, arith, Mem, IsBytes, store, store-IsBytes, ◌⊎◌, ltb, leb, ◌==◌,
  if◌then◌else◌, Bool-cases, inl, inr, lt→ltb, ltb-false,
}

-- `IN_RANGE(x, a, b)`
abbrev in_range : ℕ → ℕ → ℕ → Bool
in_range x a b = leb a x && leb x b

-- `IS_HEX(x)`
abbrev is_hex : ℕ → Bool
is_hex x = in_range x 48 57 || (in_range x 65 70 || in_range x 97 102)

-- `HEX(x)`
abbrev hex : ℕ → ℕ
hex x = if in_range x 48 57 then x - 48 else x % 8 + 9

-- An escape that is complete: `%` and two digits.
abbrev escapes : ℕ → ℕ → ℕ → Bool
escapes a b c = a == 37 && (is_hex b && is_hex c)

-- What one character that starts no escape stands for.
abbrev plus_to_space : ℕ → ℕ
plus_to_space a = if a == 43 then 32 else a

-- The loop from `old` to `last`, which writes at `cv`: the buffer, and `cv` behind the loop. Each round
-- needs fuel. The two digits of an escape have no bit in common, once the first is shifted.
unfoldable pub url_decode : ℕ → Mem → ℕ → ℕ → ℕ → Mem × ℕ
url_decode zero m old cv last = (m, cv)
url_decode (suc fuel) m old cv last =
    let a = m old in
    let escaped =
      url_decode fuel (store m cv (hex (m (old + 1)) * 16 + hex (m (old + 2)))) (old + 3) (cv + 1)
        last in
    let one = url_decode fuel (store m cv (plus_to_space a)) (old + 1) (cv + 1) last in
    if ltb old last
    then if ltb (old + 2) last && escapes a (m (old + 1)) (m (old + 2)) then escaped else one
    else (m, cv)

-- What a text of escapes and other characters stands for.
unfoldable pub meaning : List ℕ → List ℕ
meaning [] = []
meaning (a ∷ []) = plus_to_space a ∷ []
meaning (a ∷ b ∷ []) = plus_to_space a ∷ plus_to_space b ∷ []
meaning (a ∷ b ∷ c ∷ rest) =
    let later = meaning rest in
    let one = meaning (b ∷ c ∷ rest) in
    if escapes a b c then (hex b * 16 + hex c) ∷ later else plus_to_space a ∷ one

-- `n` bytes from `p` on.
abbrev slice : Mem → ℕ → ℕ → List ℕ
slice m p zero = []
slice m p (suc n) = m p ∷ slice m (p + 1) n

slice-same : (f g : Mem) (p n : ℕ) → ((i : ℕ) → p ≤ i → f i ≡ g i) → slice f p n ≡ slice g p n
slice-same f g p zero h = refl
slice-same f g p (suc n) h =
    ap (λ x. x ∷ slice f (p + 1) n) (h p (omega arith))
    ∙ ap (λ xs. g p ∷ xs) (slice-same f g (p + 1) n (λ i le. h i (omega (arith, le))))

hex-small : (x : ℕ) → is_hex x ≡ true → hex x < 16
hex-small x h = ground (arith, h)

-- Of the buffer `m`, at most `n` bytes from `cv` on have been replaced, by `out`, and no other.
abbrev pub Replaced : Mem → ℕ → List ℕ → ℕ → Mem × ℕ → Type 0
Replaced m cv out n r =
    (k : ℕ) × (r.1 ≡ cv + k)
    × (k ≤ n)
    × (slice r.0 cv k ≡ out)
    × ((i : ℕ) → (i < cv) ⊎ (cv + k ≤ i) → r.0 i ≡ m i)

after_store :
    (m : Mem) (cv v n n' : ℕ) (out : List ℕ) (r : Mem × ℕ)
    → v < 256
    → n < n'
    → Replaced (store m cv v) (cv + 1) out n r
    → Replaced m cv (v ∷ out) n' r
after_store m cv v n n' out r small lt (k, at_end, le, holds, others) =
    let here : r.0 cv ≡ v = others cv (inl (omega arith)) ∙ ground (arith, small) in
    (
      suc k,
      omega (arith, at_end),
      omega (arith, le, lt),
      ap (λ x. x ∷ slice r.0 (cv + 1) k) here ∙ ap (λ xs. v ∷ xs) holds,
      λ i out_of. elim out_of [
        | inl a ↦ others i (inl (omega (arith, a))) ∙ ground (arith, a)
        | inr b ↦ others i (inr (omega (arith, b))) ∙ ground (arith, b)
      ],
    )

plus_to_space-small : (a : ℕ) → a < 256 → plus_to_space a < 256
plus_to_space-small a h = ground (arith, h)

-- One round has stored `v`, and the others see the bytes from `q` on as they were.
after_round :
    (m : Mem) (cv v q n n' : ℕ) (r : Mem × ℕ)
    → v < 256
    → cv < q
    → n < n'
    → Replaced (store m cv v) (cv + 1) (meaning (slice (store m cv v) q n)) n r
    → Replaced m cv (v ∷ meaning (slice m q n)) n' r
after_round m cv v q n n' r small front lt later = after_store m cv v n n' _ r small lt (
    subst (λ xs. Replaced (store m cv v) (cv + 1) (meaning xs) n r)
      (slice-same (store m cv v) m q n (λ i le. ground (arith, le, front))) later)

meaning-plain :
    (m : Mem) (old n : ℕ)
    → escapes (m old) (m (old + 1)) (m (old + 2)) ≡ false
    → meaning (slice m old (suc (suc (suc n))))
      ≡ plus_to_space (m old) ∷ meaning (slice m (old + 1) (suc (suc n)))
unfolding meaning
meaning-plain m old n h =
    let third : m (old + 1 + 1) ≡ m (old + 2) = ap m (omega arith) in
    let h' : escapes (m old) (m (old + 1)) (m (old + 1 + 1)) ≡ false =
      ap (λ c. escapes (m old) (m (old + 1)) c) third ∙ h in
    rw h' refl

-- The byte that an escape is converted to.
abbrev escaped_byte : Mem → ℕ → ℕ
escaped_byte m old = hex (m (old + 1)) * 16 + hex (m (old + 2))

meaning-escape :
    (m : Mem) (old n : ℕ)
    → escapes (m old) (m (old + 1)) (m (old + 2)) ≡ true
    → meaning (slice m old (suc (suc (suc n)))) ≡ escaped_byte m old ∷ meaning (slice m (old + 3) n)
unfolding meaning
meaning-escape m old n h =
    let third : m (old + 1 + 1) ≡ m (old + 2) = ap m (omega arith) in
    let h' : escapes (m old) (m (old + 1)) (m (old + 1 + 1)) ≡ true =
      ap (λ c. escapes (m old) (m (old + 1)) c) third ∙ h in
    rw h' (
      ap (λ c. (hex (m (old + 1)) * 16 + hex c) ∷ meaning (slice m (old + 1 + 1 + 1) n)) third
      ∙ ap (λ p. escaped_byte m old ∷ meaning (slice m p n)) (omega arith))

escaped_byte-small :
    (m : Mem) (old : ℕ)
    → escapes (m old) (m (old + 1)) (m (old + 2)) ≡ true
    → escaped_byte m old < 256
escaped_byte-small m old h =
    let first = hex-small (m (old + 1)) (ground (arith, h)) in
    let second = hex-small (m (old + 2)) (ground (arith, h)) in omega (arith, first, second)

module _ (fuel : ℕ) (m : Mem) (old cv last : ℕ) (le : cv ≤ old) (more : old < last) where
  plain_round :
      (n : ℕ)
      → IsBytes m
      → (ltb (old + 2) last && escapes (m old) (m (old + 1)) (m (old + 2))) ≡ false
      → (let m' = store m cv (plus_to_space (m old)) in
          Replaced m'
            (cv + 1)
            (meaning (slice m' (old + 1) n))
            n
            (url_decode fuel m' (old + 1) (cv + 1) last))
      → Replaced m cv
          (plus_to_space (m old) ∷ meaning (slice m (old + 1) n))
          (suc n)
          (url_decode (suc fuel) m old cv last)
  unfolding url_decode
  plain_round n b h later =
      rw (lt→ltb old last more, h)
        (after_round m cv (plus_to_space (m old)) (old + 1) n (suc n) _
          (plus_to_space-small (m old) (b old)) (omega (arith, le)) (omega arith) later)

  escape_round :
      (n : ℕ)
      → old + 2 < last
      → escapes (m old) (m (old + 1)) (m (old + 2)) ≡ true
      → (let m' = store m cv (escaped_byte m old) in
          Replaced m'
            (cv + 1)
            (meaning (slice m' (old + 3) n))
            n
            (url_decode fuel m' (old + 3) (cv + 1) last))
      → Replaced m cv
          (escaped_byte m old ∷ meaning (slice m (old + 3) n))
          (suc (suc (suc n)))
          (url_decode (suc fuel) m old cv last)
  unfolding url_decode
  escape_round n lt h later =
      rw (lt→ltb old last more, lt→ltb (old + 2) last lt, h)
        (after_round m cv (escaped_byte m old) (old + 3) n (suc (suc (suc n))) _
          (escaped_byte-small m old h) (omega (arith, le)) (omega arith) later)

-- From `old` on there are `n` bytes up to `last`, and the converted ones are written at `cv`, which may
-- be `old` or lie in front of it. With fuel for each byte, the loop leaves from `cv` on what these
-- bytes stood for before, not more bytes than there were; `cv` is moved behind it, and the rest
-- of the buffer, in front of the first one and behind it, is unchanged.
pub url_decode-meaning :
    (fuel : ℕ) (m : Mem) (old cv last n : ℕ)
    → IsBytes m
    → cv ≤ old
    → last ≡ old + n
    → n ≤ fuel
    → Replaced m cv (meaning (slice m old n)) n (url_decode fuel m old cv last)
unfolding url_decode meaning
url_decode-meaning zero m old cv last zero b le e enough =
    (0, omega arith, omega arith, refl, λ i h. refl)
url_decode-meaning zero m old cv last (suc n) b le e enough = absurd (omega (arith, enough))
url_decode-meaning (suc fuel) m old cv last zero b le e enough =
    rw (ltb-false old last (omega (arith, e))) (0, omega arith, omega arith, refl, λ i h. refl)
url_decode-meaning (suc fuel) m old cv last (suc zero) b le e enough =
    plain_round fuel m old cv last le (omega (arith, e)) 0 b (ground (arith, e)) (
      url_decode-meaning fuel (store m cv (plus_to_space (m old))) (old + 1) (cv + 1) last 0
        (store-IsBytes m cv (plus_to_space (m old)) b) (omega (arith, le)) (omega (arith, e))
        (omega (arith, enough)))
url_decode-meaning (suc fuel) m old cv last (suc (suc zero)) b le e enough =
    plain_round fuel m old cv last le (omega (arith, e)) 1 b (ground (arith, e)) (
      url_decode-meaning fuel (store m cv (plus_to_space (m old))) (old + 1) (cv + 1) last 1
        (store-IsBytes m cv (plus_to_space (m old)) b) (omega (arith, le)) (omega (arith, e))
        (omega (arith, enough)))
url_decode-meaning (suc fuel) m old cv last (suc (suc (suc n))) b le e enough =
    elim (Bool-cases (escapes (m old) (m (old + 1)) (m (old + 2)))) [
      | inl h ↦
          subst (λ out. Replaced m cv out (suc (suc (suc n))) (url_decode (suc fuel) m old cv last))
            (sym (meaning-escape m old n h))
            (escape_round fuel m old cv last le (omega (arith, e)) n (omega (arith, e)) h (
              url_decode-meaning fuel (store m cv (escaped_byte m old)) (old + 3) (cv + 1) last n
                (store-IsBytes m cv (escaped_byte m old) b) (omega (arith, le)) (omega (arith, e))
                (omega (arith, enough))))
      | inr h ↦
          subst (λ out. Replaced m cv out (suc (suc (suc n))) (url_decode (suc fuel) m old cv last))
            (sym (meaning-plain m old n h))
            (plain_round fuel m old cv last le (omega (arith, e)) (suc (suc n)) b
              (ground (arith, h))
              (url_decode-meaning fuel (store m cv (plus_to_space (m old))) (old + 1) (cv + 1) last
                (suc (suc n)) (store-IsBytes m cv (plus_to_space (m old)) b) (omega (arith, le))
                (omega (arith, e)) (omega (arith, enough))))
    ]
