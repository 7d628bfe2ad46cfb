-- ===== src/Smtp/EndOfMail.antt =====
-- The end of a message that smtp_data of smtp.c looks for.
use open_lib.Prelude.{
  ℕ, zero, suc, ◌+◌, ◌-◌, ◌*◌, ◌≤◌, ◌<◌, ◌≡◌, ◌⊎◌, refl, ap, subst, inl, inr, Bool, not, ◌&&◌, ◌||◌,
  true, false, Mem, arith, ltb, ltb→lt, eqb_iff, Bool-cases, ◌==◌, if◌then◌else◌,
}
use open_lib.Smtp.{is_eol}
use open_lib.Smtp.Server.{Search, found, stopped, find_end, look_for_dot, to_newline}

-- A line starts at `b`: behind a newline at `p` or later, or at `p` itself, if `first` says so.
abbrev pub starts_line : Bool → Mem → ℕ → ℕ → Bool
starts_line first m p b = (first && b == p) || (ltb p b && m (b - 1) == 10)

-- The line at `b` is a dot alone, and ends in front of `q`.
abbrev pub dot_line : Mem → ℕ → ℕ → Bool
dot_line m b q =
    m b == 46
    && ((m (b + 1) == 10 && q == b + 2) || (m (b + 1) == 13 && (m (b + 2) == 10 && q == b + 3)))

-- No dot stands alone in a line that starts where `before` says and ends at `lim` or before.
abbrev pub NoEnd : Bool → Mem → ℕ → ℕ → (ℕ → Bool) → Type 0
NoEnd first m p lim before =
    (b q : ℕ) → before b ≡ true → starts_line first m p b ≡ true → dot_line m b q ≡ true → lim < q

-- The answer of a search: the first dot that stands alone in its line, or that there is none.
abbrev pub IsAnswer : Bool → Mem → ℕ → ℕ → Search → Type 0
IsAnswer first m p lim (found q) =
    (b : ℕ) × (starts_line first m p b ≡ true)
    × (dot_line m b q ≡ true)
    × NoEnd first m p lim (λ c. ltb c b)
IsAnswer first m p lim (stopped q) = NoEnd first m p lim (λ c. true)

pub to_newline-between :
    (n : ℕ) (m : Mem) (p lim : ℕ)
    → p ≤ lim
    → (p ≤ to_newline n m p lim) × (to_newline n m p lim ≤ lim)
unfolding to_newline
to_newline-between zero m p lim h = (omega arith, h)
to_newline-between (suc n) m p lim h = elim (Bool-cases (m p == 10 || ltb (lim - p) 3)) [
  | inl stop ↦ rw stop (omega arith, h)
  | inr on ↦
      let more : 3 ≤ lim - p = ground (arith, on) in
      let (lo, hi) = to_newline-between n m (p + 1) lim (omega (arith, more)) in
      rw on (omega (arith, lo), hi)
]

-- In front of the place that is found there is no newline, and there is one there, or the end is near.
to_newline_first :
    (n : ℕ) (m : Mem) (p lim : ℕ)
    → lim - p ≤ n
    → ((i : ℕ) → p ≤ i → i < to_newline n m p lim → (m i == 10) ≡ false)
      × ((m (to_newline n m p lim) == 10 || ltb (lim - to_newline n m p lim) 3) ≡ true)
unfolding to_newline
to_newline_first zero m p lim h = (λ i lo hi. absurd (omega (arith, lo, hi)), ground (arith, h))
to_newline_first (suc n) m p lim h = elim (Bool-cases (m p == 10 || ltb (lim - p) 3)) [
  | inl stop ↦ rw stop (λ i lo hi. absurd (omega (arith, lo, hi)), stop)
  | inr on ↦
      let (none_before, there) = to_newline_first n m (p + 1) lim (omega (arith, h)) in
      rw on (
        λ i lo hi. elim (Bool-cases (i == p)) [
          | inl e ↦ (let same = (eqb_iff i p).0 e in ground (arith, on, same))
          | inr ne ↦ none_before i (ground (arith, lo, ne)) hi
        ],
        there,
      )
]

-- The same answer for another start, where no line that starts only there is a dot in front of `lim`.
IsAnswer-from :
    (f g : Bool) (m : Mem) (p p' lim : ℕ) (s : Search)
    → ((b : ℕ) → starts_line f m p b ≡ true → starts_line g m p' b ≡ true)
    → ((b q : ℕ)
        → starts_line g m p' b ≡ true
        → dot_line m b q ≡ true
        → (starts_line f m p b ≡ true) ⊎ (lim < q))
    → IsAnswer f m p lim s
    → IsAnswer g m p' lim s
IsAnswer-from f g m p p' lim (found q) there back (b, st, dot, first) = (
  b,
  there b st,
  dot,
  λ c r lt sc dc. elim (back c r sc dc) [ inl sf ↦ first c r lt sf dc | inr far ↦ far ],
)
IsAnswer-from f g m p p' lim (stopped q) there back none_at_all =
    λ c r lt sc dc. elim (back c r sc dc) [ inl sf ↦ none_at_all c r lt sf dc | inr far ↦ far ]

if-IsAnswer :
    (f : Bool) (m : Mem) (p lim : ℕ) (b : Bool) (x y : Search)
    → (b ≡ true → IsAnswer f m p lim x)
    → (b ≡ false → IsAnswer f m p lim y)
    → IsAnswer f m p lim (if b then x else y)
if-IsAnswer f m p lim true x y h k = h refl
if-IsAnswer f m p lim false x y h k = k refl

-- A newline stands at another place than a byte that is none.
other : (m : Mem) (i p v : ℕ) → m p ≡ v → m i ≡ 10 → (v == 10) ≡ false → (i == p) ≡ false
other m i p v e newline ne = elim (Bool-cases (i == p)) [
  | inl h ↦
      (let same : m i ≡ m p = ap m ((eqb_iff i p).0 h) in
        absurd (ground (arith, same, e, newline, ne)))
  | inr h ↦ h
]

-- Where the lines start for the two searches.
at_newline :
    (m : Mem) (q p b : ℕ)
    → p ≤ q
    → m q ≡ 10
    → starts_line true m (q + 1) b ≡ true
    → starts_line false m p b ≡ true
at_newline m q p b lo e sb = elim (Bool-cases (b == q + 1)) [
  | inl h ↦
      (let same : b ≡ q + 1 = (eqb_iff b (q + 1)).0 h in
        let back : m (b - 1) ≡ m q = ap m (omega (arith, same)) in
        ground (arith, lo, e, same, back))
  | inr h ↦ ground (arith, lo, h, sb)
]

behind_newline :
    (m : Mem) (q p b : ℕ)
    → m q ≡ 10
    → (p ≤ b - 1 → b - 1 < q → (m (b - 1) == 10) ≡ false)
    → starts_line false m p b ≡ true
    → starts_line true m (q + 1) b ≡ true
behind_newline m q p b e no_line sb = ground (arith, sb, no_line)

no_dot :
    (m : Mem) (p b r : ℕ)
    → not (m p == 46 && is_eol (m (p + 1))) ≡ true
    → starts_line true m p b ≡ true
    → dot_line m b r ≡ true
    → starts_line false m p b ≡ true
no_dot m p b r e sb db = elim (Bool-cases (b == p)) [
  | inl h ↦
      (let same : b ≡ p = (eqb_iff b p).0 h in
        let at_p : dot_line m p r ≡ true = subst (λ c. dot_line m c r ≡ true) same db in
        absurd (ground (arith, e, at_p)))
  | inr h ↦ ground (arith, h, sb)
]

at_the_end :
    (m : Mem) (p b r lim : ℕ)
    → m p ≡ 46
    → m (p + 1) ≡ 13
    → p + 2 ≡ lim
    → starts_line true m p b ≡ true
    → dot_line m b r ≡ true
    → lim < r
at_the_end m p b r lim dot cr eq sb db = elim (Bool-cases (b == p)) [
  | inl h ↦
      (let same : b ≡ p = (eqb_iff b p).0 h in
        let at_p : dot_line m p r ≡ true = subst (λ c. dot_line m c r ≡ true) same db in
        ground (arith, cr, eq, at_p))
  | inr h ↦
      (let not_p : (b - 1 == p) ≡ false = other m (b - 1) p 46 dot (ground (arith, sb, h)) refl in
        let not_cr : (b - 1 == p + 1) ≡ false =
          other m (b - 1) (p + 1) 13 cr (ground (arith, sb, h)) refl in
        ground (arith, eq, h, sb, db, not_p, not_cr))
]

cr_alone :
    (m : Mem) (p b r : ℕ)
    → m p ≡ 46
    → m (p + 1) ≡ 13
    → not (m (p + 2) == 10) ≡ true
    → starts_line true m p b ≡ true
    → dot_line m b r ≡ true
    → starts_line false m (p + 2) b ≡ true
cr_alone m p b r dot cr e sb db = elim (Bool-cases (b == p)) [
  | inl h ↦
      (let same : b ≡ p = (eqb_iff b p).0 h in
        let at_p : dot_line m p r ≡ true = subst (λ c. dot_line m c r ≡ true) same db in
        absurd (ground (arith, cr, e, at_p)))
  | inr h ↦
      (let not_p : (b - 1 == p) ≡ false = other m (b - 1) p 46 dot (ground (arith, sb, h)) refl in
        let not_cr : (b - 1 == p + 1) ≡ false =
          other m (b - 1) (p + 1) 13 cr (ground (arith, sb, h)) refl in
        ground (arith, h, sb, not_p, not_cr))
]

pub search-IsAnswer :
    (n : ℕ) (m : Mem) (lim : ℕ)
    → ((p : ℕ) → p ≤ lim + 1 → 2 * (lim - p) + 2 ≤ n → IsAnswer false m p lim (find_end n m p lim))
      × ((p : ℕ) → p < lim → 2 * (lim - p) + 3 ≤ n → IsAnswer true m p lim (look_for_dot n m p lim))
unfolding find_end look_for_dot
search-IsAnswer zero m lim = (λ p h f. absurd (omega arith), λ p h f. absurd (omega arith))
search-IsAnswer (suc n) m lim =
    let (ends, dots) = search-IsAnswer n m lim in
    (
      λ p h f.
          let q = to_newline (lim - p) m p lim in
          if-IsAnswer false m p lim (ltb (lim - p) 3) _ _
            (λ e. let lt = ltb→lt (lim - p) 3 e in λ b r u sb db. ground (arith, lt, sb, db))
            (λ far.
              let more : 3 ≤ lim - p = ground (arith, far) in
              let (lo, hi) = to_newline-between (lim - p) m p lim (omega arith) in
              let (no_line, line) = to_newline_first (lim - p) m p lim (omega arith) in
              if-IsAnswer false m p lim (ltb (lim - q) 3) _ _
                (λ e.
                  let lt = ltb→lt (lim - q) 3 e in
                  λ b r u sb db. ground (arith, lt, sb, db, no_line (b - 1)))
                (λ far'.
                  let more' : 3 ≤ lim - q = ground (arith, far') in
                  let newline : m q ≡ 10 = ground (arith, line, far') in
                  IsAnswer-from true false m (q + 1) p lim _
                    (λ b sb. at_newline m q p b lo newline sb)
                    (λ b r sb db. inl (behind_newline m q p b newline (no_line (b - 1)) sb))
                    (dots (q + 1) (omega (arith, more')) (omega (arith, lo, more'))))),
      λ p h f.
          if-IsAnswer true m p lim (not (m p == 46 && is_eol (m (p + 1)))) _ _
            (λ e.
              IsAnswer-from false true m p p lim _ (λ b sb. ground (arith, sb))
                (λ b r sb db. inl (no_dot m p b r e sb db)) (ends p (omega arith) (omega arith)))
            (λ e1.
              if-IsAnswer true m p lim (m (p + 1) == 10) _ _
                (λ e.
                  (p, ground arith, ground (arith, e, e1), λ c r lt sc dc. ground (arith, lt, sc)))
                (λ e2.
                  let dot : m p ≡ 46 = ground (arith, e1) in
                  let cr : m (p + 1) ≡ 13 = ground (arith, e1, e2) in
                  if-IsAnswer true m p lim (p + 2 == lim) _ _
                    (λ e.
                      let eq = (eqb_iff (p + 2) lim).0 e in
                      λ b r u sb db. at_the_end m p b r lim dot cr eq sb db)
                    (λ e3.
                      if-IsAnswer true m p lim (not (m (p + 2) == 10)) _ _
                        (λ e.
                          IsAnswer-from false true m (p + 2) p lim _ (λ b sb. ground (arith, sb))
                            (λ b r sb db. inl (cr_alone m p b r dot cr e sb db))
                            (ends (p + 2) (omega arith) (omega arith)))
                        (λ e4. (
                          p,
                          ground arith,
                          ground (arith, dot, cr, e4),
                          λ c r lt sc dc. ground (arith, lt, sc),
                        ))))),
    )
