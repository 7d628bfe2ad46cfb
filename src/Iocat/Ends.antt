-- ===== src/Iocat/Ends.antt =====
-- The options of iocat.c are carried out to an end.
use open_lib.Prelude.{
  ℕ, zero, suc, ◌+◌, ◌-◌, ◌≤◌, ◌<◌, ◌≡◌, ◌≢◌, refl, ap, ◌∙◌, Bool, true, false, Option-cases, inl,
  inr, Option, none, some, List, [], ◌∷◌, arith, if◌then◌else◌, ltb,
}
use open_lib.Prelude.Lists.{length, drop, All}
use open_lib.Counters.Names.{nth}
use open_lib.Daemon.{Text, ℤ, pos, negsuc}
use open_lib.Iocat.{
  Call, Reading, Action, finish, opens, inherits, bits, closes, jumps, execs, writes, hexes,
  prints_license, plain, valued, reads, action_of, Numbers, Answer, fails, gives, tcgetattr,
  tcsetattr_cflag, called, add_done, all_done, Tool, End, Step, next, stop,
}
use open_lib.Iocat.Run.{
  perform, write_all, bits_ok, set_bits, open_device, read_some, read_size, is_dash, hex_loop,
  write_hex, execute, with_value, needs_value, carry_out, round, options_loop,
}

-- When the loop goes on, then from the index `n` or a later one.
abbrev Ahead : ℕ → Step → Type 0
Ahead n (next t answers) = n ≤ t.argi
Ahead n (stop end t) = Unit {0}

perform-Ahead :
    (n : ℕ) (calls : List Call) (v : Text) (answers : List Answer) (t : Tool)
    → n ≤ t.argi
    → Ahead n (perform calls v answers t)
unfolding perform
perform-Ahead n [] v answers t h = h
perform-Ahead n (c ∷ calls) v [] t h = tt
perform-Ahead n (c ∷ calls) v (fails ∷ answers) t h = tt
perform-Ahead n (c ∷ calls) v (gives k m ∷ answers) t h = perform-Ahead n calls v answers _ h

write_all-Ahead :
    (n : ℕ) (bytes : List ℕ) (pending : ℕ) (answers : List Answer) (t : Tool)
    → n ≤ t.argi
    → Ahead n (write_all bytes pending answers t)
unfolding write_all
write_all-Ahead n bytes zero answers t h = h
write_all-Ahead n bytes (suc pending) [] t h = tt
write_all-Ahead n bytes (suc pending) (fails ∷ answers) t h = tt
write_all-Ahead n bytes (suc pending) (gives k m ∷ answers) t h =
    write_all-Ahead n bytes (suc pending - k) answers t h

if-Ahead : (n : ℕ) (b : Bool) (x y : Step) → Ahead n x → Ahead n y → Ahead n (if b then x else y)
if-Ahead n true x y hx hy = hx
if-Ahead n false x y hx hy = hy

option-Ahead {ℓ} :
    {A : Type ℓ} (n : ℕ) (o : Option A) (x : Step) (f : A → Step)
    → Ahead n x
    → ((a : A) → o ≡ some a → Ahead n (f a))
    → Ahead n (elim o [ none ↦ x | some a ↦ f a ])
option-Ahead n none x f hx hf = hx
option-Ahead n (some a) x f hx hf = hf a refl

set_bits-Ahead :
    (n : ℕ) (v : Text) (answers : List Answer) (t : Tool)
    → n ≤ t.argi
    → Ahead n (set_bits v answers t)
unfolding set_bits
set_bits-Ahead n v [] t h = tt
set_bits-Ahead n v (fails ∷ answers) t h = tt
set_bits-Ahead n v (gives k m ∷ answers) t h =
    if-Ahead n (bits_ok v) _ _
      (perform-Ahead n (tcsetattr_cflag ∷ []) v answers (add_done (called tcgetattr v) t) h) tt

open_device-Ahead :
    (n : ℕ) (answers : List Answer) (t : Tool) → n ≤ t.argi → Ahead n (open_device answers t)
unfolding open_device
open_device-Ahead n [] t h = tt
open_device-Ahead n (fails ∷ answers) t h = tt
open_device-Ahead n (gives k m ∷ answers) t h = h

read_some-Ahead :
    (n : ℕ) (how : Reading) (answers : List Answer) (t : Tool)
    → n ≤ t.argi
    → Ahead n (read_some how answers t)
unfolding read_some
read_some-Ahead n how [] t h = tt
read_some-Ahead n how (fails ∷ answers) t h = tt
read_some-Ahead n how (gives zero m ∷ answers) t h = h
read_some-Ahead n how (gives (suc k) m ∷ answers) t h = h

read_size-Ahead :
    (n : ℕ) (size : Option ℤ) (how : Reading) (answers : List Answer) (t : Tool)
    → n ≤ t.argi
    → Ahead n (read_size size how answers t)
unfolding read_size
read_size-Ahead n none how answers t h = tt
read_size-Ahead n (some (negsuc k)) how answers t h = tt
read_size-Ahead n (some (pos k)) how answers t h =
    if-Ahead n (ltb 1025 k) _ _ tt (read_some-Ahead n how answers t h)

write_hex-Ahead :
    (n : ℕ) (r : Option (List ℕ × ℕ)) (answers : List Answer) (t : Tool)
    → n ≤ t.argi
    → Ahead n (write_hex r answers t)
write_hex-Ahead n none answers t h = tt
write_hex-Ahead n (some (bytes, used)) answers t h =
    write_all-Ahead n bytes (length bytes) answers _ (omega (arith, h))

execute-Ahead : (n : ℕ) (answers : List Answer) (t : Tool) → Ahead n (execute answers t)
execute-Ahead n [] t = tt
execute-Ahead n (fails ∷ answers) t = tt
execute-Ahead n (gives k m ∷ answers) t = tt

with_value-Ahead :
    (lib : Numbers) (args : List Text) (action : Action) (v : Text) (answers : List Answer)
    (t : Tool) (n : ℕ)
    → action ≢ jumps
    → n + 1 ≤ t.argi
    → Ahead n (with_value lib args action v answers t)
with_value-Ahead lib args (valued calls) v answers t n ne h =
    perform-Ahead n calls v answers t (omega (arith, h))
with_value-Ahead lib args opens v answers t n ne h =
    open_device-Ahead n answers t (omega (arith, h))
with_value-Ahead lib args inherits v answers t n ne h = omega (arith, h)
with_value-Ahead lib args bits v answers t n ne h = set_bits-Ahead n v answers t (omega (arith, h))
with_value-Ahead lib args jumps v answers t n ne h = absurd (ne refl)
with_value-Ahead lib args execs v answers t n ne h = execute-Ahead n answers t
with_value-Ahead lib args (reads how) v answers t n ne h =
    read_size-Ahead n (lib.scan v) how answers t (omega (arith, h))
with_value-Ahead lib args writes v answers t n ne h =
    write_all-Ahead n v (length v) answers t (omega (arith, h))
with_value-Ahead lib args hexes v answers t n ne h =
    write_hex-Ahead n (hex_loop lib (drop (t.argi - 1) args) 0) answers _ (omega (arith, h))
with_value-Ahead lib args finish v answers t n ne h = omega (arith, h)
with_value-Ahead lib args closes v answers t n ne h = omega (arith, h)
with_value-Ahead lib args prints_license v answers t n ne h = omega (arith, h)
with_value-Ahead lib args (plain calls) v answers t n ne h = omega (arith, h)

needs_value-Ahead :
    (lib : Numbers) (args : List Text) (action : Action) (answers : List Answer) (t : Tool)
    → action ≢ jumps
    → Ahead (t.argi + 1) (needs_value lib args action answers t)
needs_value-Ahead lib args action answers t ne =
    option-Ahead (t.argi + 1) (nth args (t.argi + 1)) _ _ tt (λ v e.
      with_value-Ahead lib args action v answers (record t { argi = t.argi + 2 }) (t.argi + 1) ne
        (omega arith))

carry_out-Ahead :
    (lib : Numbers) (args : List Text) (action : Action) (answers : List Answer) (t : Tool)
    → action ≢ jumps
    → Ahead (t.argi + 1) (carry_out lib args action answers t)
carry_out-Ahead lib args finish answers t ne = tt
carry_out-Ahead lib args closes answers t ne = omega arith
carry_out-Ahead lib args prints_license answers t ne = tt
carry_out-Ahead lib args (plain calls) answers t ne =
    perform-Ahead (t.argi + 1) calls [] answers _ (omega arith)
carry_out-Ahead lib args opens answers t ne = needs_value-Ahead lib args opens answers t ne
carry_out-Ahead lib args inherits answers t ne = needs_value-Ahead lib args inherits answers t ne
carry_out-Ahead lib args bits answers t ne = needs_value-Ahead lib args bits answers t ne
carry_out-Ahead lib args jumps answers t ne = absurd (ne refl)
carry_out-Ahead lib args execs answers t ne = needs_value-Ahead lib args execs answers t ne
carry_out-Ahead lib args writes answers t ne = needs_value-Ahead lib args writes answers t ne
carry_out-Ahead lib args hexes answers t ne = needs_value-Ahead lib args hexes answers t ne
carry_out-Ahead lib args (valued calls) answers t ne =
    needs_value-Ahead lib args (valued calls) answers t ne
carry_out-Ahead lib args (reads how) answers t ne =
    needs_value-Ahead lib args (reads how) answers t ne

-- No argument is `-goto`.
abbrev pub NoJump : List Text → Type 0
NoJump args = All (λ a. action_of a ≢ some jumps) args

nth-NoJump :
    (args : List Text) (i : ℕ) (a : Text)
    → NoJump args
    → nth args i ≡ some a
    → (action_of a ≢ some jumps) × (i < length args)
nth-NoJump [] i a h e = absurd (cc)
nth-NoJump (x ∷ args) zero a h e =
    (λ j. h.0 (ap action_of (ap (λ o. elim o [ none ↦ x | some y ↦ y ]) e) ∙ j), omega arith)
nth-NoJump (x ∷ args) (suc i) a h e =
    let (ne, lt) = nth-NoJump args i a h.1 e in (ne, omega (arith, lt))

-- Another round is made only from an argument, and goes on behind it.
round-Ahead :
    (lib : Numbers) (args : List Text) (answers : List Answer) (t : Tool)
    → NoJump args
    → Ahead (t.argi + 1) (round lib args answers t)
unfolding round
round-Ahead lib args answers t h = option-Ahead (t.argi + 1) (nth args t.argi) _ _ tt (λ a e.
    if-Ahead (t.argi + 1) (is_dash a) _ _
      (option-Ahead (t.argi + 1) (action_of a) _ _ tt (λ action e'.
        carry_out-Ahead lib args action answers t
          (λ j. (nth-NoJump args t.argi a h e).0 (e' ∙ ap some j))))
      tt)

-- The loop behind a round that has come to `s`.
loop-Ahead :
    (fuel : ℕ) (lib : Numbers) (args : List Text) (t : Tool) (s : Step)
    → Ahead (t.argi + 1) s
    → ((t' : Tool) (answers : List Answer)
        → t.argi + 1 ≤ t'.argi
        → (end : End) × (t'' : Tool) × (options_loop fuel lib args answers t' ≡ some (end, t'')))
    → (end : End) × (t'' : Tool) × ((elim s [
      | stop end t' ↦ some (end, t')
      | next t' answers' ↦ options_loop fuel lib args answers' t'
    ])
        ≡ some (end, t''))
loop-Ahead fuel lib args t (next t' answers) h go = go t' answers h
loop-Ahead fuel lib args t (stop end t') h go = (end, t', refl)

-- When no argument is `-goto`, as many rounds as there are arguments, and one more, are enough: the
-- options end by one of the ends, or the results of the system calls are used up and the tool waits.
options_loop-NoJump :
    (fuel : ℕ) (lib : Numbers) (args : List Text) (answers : List Answer) (t : Tool)
    → NoJump args
    → length args - t.argi < fuel
    → (end : End) × (t' : Tool) × (options_loop fuel lib args answers t ≡ some (end, t'))
unfolding options_loop
options_loop-NoJump zero lib args answers t h enough = absurd (omega arith)
options_loop-NoJump (suc fuel) lib args answers t h enough = elim (Option-cases (nth args t.argi)) [
  | inl e ↦ (all_done, t, rw (e, round, options_loop) refl)
  | inr (a, e) ↦
      loop-Ahead fuel lib args t (round lib args answers t) (round-Ahead lib args answers t h)
        (λ t' answers' later.
          options_loop-NoJump fuel lib args answers' t' h
            (omega (arith, enough, later, (nth-NoJump args t.argi a h e).1)))
]
