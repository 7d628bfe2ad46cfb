-- ===== src/Iocat/Hex.antt =====
-- The option -wx of iocat.c: which bytes are written, and which option comes next.
use open_lib.Prelude.{
  ℕ, zero, suc, ◌+◌, ◌-◌, ◌≤◌, ◌<◌, ◌≡◌, refl, sym, ap, ◌∙◌, true, false, Option, none, some, List,
  [], ◌∷◌, ◌++◌, arith, leb, map,
}
use open_lib.Prelude.Lists.{length, drop, length-drop, All}
use open_lib.Counters.Names.{nth}
use open_lib.Daemon.{Text, ℤ}
use open_lib.Iocat.{Numbers, Answer, Tool, action_of, find_action}
use open_lib.Iocat.Run.{
  is_dash, byte_of, more_byte, hex_loop, write_hex, write_all, needs_value, round,
}

-- An argument that is a number, with its value.
abbrev pub IsNumber : Numbers → Text × ℤ → Type 0
IsNumber lib (a, b) = (is_dash a ≡ false) × (lib.scan a ≡ some b)

abbrev pub text_at : Text × ℤ → Text
text_at (a, b) = a

abbrev pub byte_at : Text × ℤ → ℕ
byte_at (a, b) = byte_of b

hex_more :
    (lib : Numbers) (a b : Text) (rest : List Text) (n : ℕ)
    → is_dash a ≡ false
    → n < 1025
    → hex_loop lib (a ∷ b ∷ rest) n ≡ more_byte (lib.scan a) (hex_loop lib (b ∷ rest) (n + 1))
unfolding hex_loop
hex_more lib a b rest n h lt =
    let room : leb 1025 n ≡ false = ground (arith, lt) in rw (h, room, hex_loop) refl

hex_front :
    (lib : Numbers) (a : Text) (xs : List (Text × ℤ)) (l : Text) (rest : List Text) (n : ℕ)
    → is_dash a ≡ false
    → n < 1025
    → hex_loop lib (a ∷ (map text_at xs ++ (l ∷ rest))) n
      ≡ more_byte (lib.scan a) (hex_loop lib (map text_at xs ++ (l ∷ rest)) (n + 1))
hex_front lib a [] l rest n h lt = hex_more lib a l rest n h lt
hex_front lib a (x ∷ xs) l rest n h lt =
    hex_more lib a (text_at x) (map text_at xs ++ (l ∷ rest)) n h lt

-- Behind the numbers in front, the loop has the result that it has there.
hex_numbers :
    (lib : Numbers) (xs : List (Text × ℤ)) (l : Text) (rest : List Text) (n : ℕ) (used : ℕ)
    → All (IsNumber lib) xs
    → length xs + n ≤ 1025
    → hex_loop lib (l ∷ rest) (length xs + n) ≡ some ([], used)
    → hex_loop lib (map text_at xs ++ (l ∷ rest)) n ≡ some (map byte_at xs, length xs + used)
hex_numbers lib [] l rest n used h room e =
    let start : n ≡ 0 + n = omega arith in
    let same : used ≡ 0 + used = omega arith in
    ap (hex_loop lib (l ∷ rest)) start ∙ e ∙ ap (λ u. some ([], u)) same
hex_numbers lib ((a, b) ∷ xs) l rest n used h room e =
    let later : length xs + (n + 1) ≡ suc (length xs) + n = omega arith in
    let same : suc (length xs + used) ≡ suc (length xs) + used = omega arith in
    hex_front lib a xs l rest n h.0.0 (omega (arith, room))
    ∙ ap (λ s. more_byte s (hex_loop lib (map text_at xs ++ (l ∷ rest)) (n + 1))) h.0.1
    ∙ ap (more_byte (some b)) (
        hex_numbers lib xs l rest (n + 1) used h.1 (omega (arith, room))
          (ap (hex_loop lib (l ∷ rest)) later ∙ e))
    ∙ ap (λ u. some (byte_of b ∷ map byte_at xs, u)) same

abbrev first : List Text → Option Text
first [] = none
first (x ∷ xs) = some x

abbrev behind : List Text → List Text
behind [] = []
behind (x ∷ xs) = xs

nth-drop :
    (args : List Text) (i : ℕ) (a : Text) (rest : List Text)
    → drop i args ≡ a ∷ rest
    → (nth args i ≡ some a) × (drop (i + 1) args ≡ rest)
nth-drop [] zero a rest h = absurd (cc)
nth-drop [] (suc i) a rest h = absurd (cc)
nth-drop (x ∷ args) zero a rest h = (ap first h, ap behind h)
nth-drop (x ∷ args) (suc i) a rest h =
    let (here, after) = nth-drop args i a rest h in
    let one : suc i + 1 ≡ suc (i + 1) = omega arith in
    (here, ap (λ k. drop k (x ∷ args)) one ∙ after)

-- The argument behind the numbers.
nth-behind :
    (args : List Text) (i : ℕ) (xs : List (Text × ℤ)) (l : Text) (rest : List Text)
    → drop i args ≡ map text_at xs ++ (l ∷ rest)
    → nth args (i + length xs) ≡ some l
nth-behind args i [] l rest h =
    let e : i + 0 ≡ i = omega arith in ap (nth args) e ∙ (nth-drop args i l rest h).0
nth-behind args i (x ∷ xs) l rest h =
    let e : i + suc (length xs) ≡ i + 1 + length xs = omega arith in
    ap (nth args) e
    ∙ nth-behind args (i + 1) xs l rest
        (nth-drop args i (text_at x) (map text_at xs ++ (l ∷ rest)) h).1

length-numbers :
    (xs : List (Text × ℤ)) (l : Text) (rest : List Text)
    → length (map text_at xs ++ (l ∷ rest)) ≡ length xs + 1 + length rest
length-numbers [] l rest = omega arith
length-numbers (x ∷ xs) l rest = omega (arith, length-numbers xs l rest)

length-bytes : (xs : List (Text × ℤ)) → length (map byte_at xs) ≡ length xs
length-bytes [] = refl
length-bytes (x ∷ xs) = ap suc (length-bytes xs)

hex_loop-dash :
    (lib : Numbers) (opt : Text) (rest : List Text) (n : ℕ)
    → is_dash opt ≡ true
    → hex_loop lib (opt ∷ rest) n ≡ some ([], 0)
unfolding hex_loop
hex_loop-dash lib opt [] n dash = rw dash refl
hex_loop-dash lib opt (r ∷ rest) n dash = rw dash refl

hex_loop-last :
    (lib : Numbers) (a : Text) (b : ℤ) (n : ℕ)
    → IsNumber lib (a, b)
    → n < 1025
    → hex_loop lib (a ∷ []) n ≡ some ([], 1)
unfolding hex_loop
hex_loop-last lib a b n h lt =
    let room : leb 1025 n ≡ false = ground (arith, lt) in rw (h.0, room, h.1) refl

-- `-wx`
abbrev pub wx_text : Text
wx_text = 45 ∷ 119 ∷ 120 ∷ []

round-hex_loop :
    (lib : Numbers) (args : List Text) (answers : List Answer) (t : Tool) (v : Text)
    (rest : List Text)
    → nth args t.argi ≡ some wx_text
    → drop (t.argi + 1) args ≡ v ∷ rest
    → round lib args answers t
      ≡ write_hex (hex_loop lib (v ∷ rest) 0) answers (record t { argi = t.argi + 1 })
unfolding round action_of find_action
round-hex_loop lib args answers t v rest here behind =
    let back : t.argi + 2 - 1 ≡ t.argi + 1 = omega arith in
    rw (here, (nth-drop args (t.argi + 1) v rest behind).0, round, needs_value, back, behind) refl

round-numbers :
    (lib : Numbers) (args : List Text) (answers : List Answer) (t : Tool) (xs : List (Text × ℤ))
    (l : Text) (rest : List Text) (used : ℕ)
    → nth args t.argi ≡ some wx_text
    → drop (t.argi + 1) args ≡ map text_at xs ++ (l ∷ rest)
    → All (IsNumber lib) xs
    → length xs ≤ 1025
    → hex_loop lib (l ∷ rest) (length xs) ≡ some ([], used)
    → round lib args answers t
      ≡ write_all
          (map byte_at xs)
          (length xs)
          answers
          (record t { argi = t.argi + 1 + (length xs + used) + 1 })
round-numbers lib args answers t xs l rest used here after h room e =
    let same : length xs + 0 ≡ length xs = omega arith in
    starts xs after
    ∙ ap (λ r. write_hex r answers (record t { argi = t.argi + 1 }))
        (hex_numbers lib xs l rest 0 used h (omega (arith, room))
          (ap (hex_loop lib (l ∷ rest)) same ∙ e))
    ∙ ap
        (λ k.
          write_all (map byte_at xs) k answers
            (record t { argi = t.argi + 1 + (length xs + used) + 1 }))
        (length-bytes xs)
  where
    starts :
        (ys : List (Text × ℤ))
        → drop (t.argi + 1) args ≡ map text_at ys ++ (l ∷ rest)
        → round lib args answers t
          ≡ write_hex
              (hex_loop lib (map text_at ys ++ (l ∷ rest)) 0)
              answers
              (record t { argi = t.argi + 1 })
    starts [] after' = round-hex_loop lib args answers t l rest here after'
    starts (y ∷ ys) after' =
        round-hex_loop lib args answers t (text_at y) (map text_at ys ++ (l ∷ rest)) here after'

-- The option -wx with the numbers `xs`, at most 1025 of them. When an option follows, all the bytes
-- are written, and that option is passed over: the argument behind it is taken for the next option.
-- When the numbers are the last arguments, the last of them is not written.
pub round-wx :
    (lib : Numbers) (args : List Text) (answers : List Answer) (t : Tool) (xs : List (Text × ℤ))
    → nth args t.argi ≡ some wx_text
    → All (IsNumber lib) xs
    → length xs ≤ 1025
    → ((opt : Text) (rest : List Text)
        → is_dash opt ≡ true
        → drop (t.argi + 1) args ≡ map text_at xs ++ (opt ∷ rest)
        → let t' : Tool = record t { argi = t.argi + length xs + 2 } in
          (round lib args answers t ≡ write_all (map byte_at xs) (length xs) answers t')
          × (nth args (t.argi + length xs + 1) ≡ some opt))
      × ((a : Text) (b : ℤ)
          → length xs < 1025
          → IsNumber lib (a, b)
          → drop (t.argi + 1) args ≡ map text_at xs ++ (a ∷ [])
          → let t' : Tool = record t { argi = length args + 1 } in
            round lib args answers t ≡ write_all (map byte_at xs) (length xs) answers t')
round-wx lib args answers t xs here h room = (
  λ opt rest dash after.
      let index : t.argi + 1 + (length xs + 0) + 1 ≡ t.argi + length xs + 2 = omega arith in
      let there : t.argi + 1 + length xs ≡ t.argi + length xs + 1 = omega arith in
      (
        round-numbers lib args answers t xs opt rest 0 here after h room
              (hex_loop-dash lib opt rest (length xs) dash)
            ∙ ap (λ i. write_all (map byte_at xs) (length xs) answers (record t { argi = i }))
                index,
        sym (ap (nth args) there) ∙ nth-behind args (t.argi + 1) xs opt rest after,
      ),
  λ a b lt num after.
      let index : t.argi + 1 + (length xs + 1) + 1 ≡ length args + 1 =
        omega (arith, length-drop (t.argi + 1) args, ap length after, length-numbers xs a []) in
      round-numbers lib args answers t xs a [] 1 here after h room
        (hex_loop-last lib a b (length xs) num lt)
      ∙ ap (λ i. write_all (map byte_at xs) (length xs) answers (record t { argi = i })) index,
)
