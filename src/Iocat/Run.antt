-- ===== src/Iocat/Run.antt =====
-- iocat.c: one option, and all of them.
use open_lib.Prelude.{
  ℕ, zero, suc, ◌+◌, ◌-◌, ◌%◌, Bool, false, ◌&&◌, ◌||◌, Option, none, some, List, [], ◌∷◌, ◌++◌,
  map, Mem, ltb, leb, ◌==◌, if◌then◌else◌,
}
use open_lib.Prelude.Lists.{length, drop}
use open_lib.S5066.{sign_extend}
use open_lib.Hiwrite.Loop.{prefix}
use open_lib.Counters.Names.{nth}
use open_lib.Daemon.{Text, ℤ, pos, negsuc}
use open_lib.Synccat.{text_of}
use open_lib.Iocat.{
  Call, tcgetattr, tcsetattr_cflag, Reading, as_chars, as_hex, discarded, Action, finish, opens,
  inherits, bits, closes, jumps, execs, writes, hexes, prints_license, plain, valued, reads,
  action_of, Numbers, Answer, fails, gives, Done, called, chars, hex_codes, wrote, closed, Tool,
  add_done, End, exits, exec_done, all_done, wild_index, stale, waits, Step, next, stop,
}

-- The calls of an option, one after the other.
unfoldable pub perform : List Call → Text → List Answer → Tool → Step
perform [] v answers t = next t answers
perform (c ∷ calls) v [] t = stop waits t
perform (c ∷ calls) v (fails ∷ answers) t = stop (exits 3) t
perform (c ∷ calls) v (gives n m ∷ answers) t = perform calls v answers (add_done (called c v) t)

-- write_all of the bytes, of which `pending` are left. As long as write returns 0, the source calls
-- it again, without end; here that goes on for as long as there are results, then the tool waits.
unfoldable pub write_all : List ℕ → ℕ → List Answer → Tool → Step
write_all bytes zero answers t = next (add_done (wrote bytes) t) answers
write_all bytes (suc pending) [] t = stop waits t
write_all bytes (suc pending) (fails ∷ answers) t = stop (exits 3) t
write_all bytes (suc pending) (gives n m ∷ answers) t = write_all bytes (suc pending - n) answers t

-- `argv[argi][k]`
abbrev pub char_at : Text → ℕ → ℕ
char_at v k = elim (nth v k) [ none ↦ 0 | some c ↦ c ]

-- The character for the size, '8' to '5', that for the parity, N, E, O, M or S, and that for the stop
-- bits, '2' or '1'.
abbrev pub spec_ok : ℕ → ℕ → ℕ → Bool
spec_ok c p s =
    (c == 56 || (c == 55 || (c == 54 || c == 53)))
    && ((p == 78 || (p == 69 || (p == 79 || (p == 77 || p == 83)))) && (s == 50 || s == 49))

-- The stop bits are looked for at the second character too.
abbrev pub bits_ok : Text → Bool
bits_ok v = spec_ok (char_at v 0) (char_at v 1) (char_at v 1)

unfoldable pub set_bits : Text → List Answer → Tool → Step
unfolding perform
set_bits v [] t = stop waits t
set_bits v (fails ∷ answers) t = stop (exits 3) t
set_bits v (gives n m ∷ answers) t =
    if bits_ok v
    then perform (tcsetattr_cflag ∷ []) v answers (add_done (called tcgetattr v) t)
    else stop (exits 2) t

-- `open`
unfoldable pub open_device : List Answer → Tool → Step
open_device [] t = stop waits t
open_device (fails ∷ answers) t = stop (exits 1) t
open_device (gives n m ∷ answers) t = next (record t { fd = some n }) answers

abbrev pub descriptor : ℤ → Option ℕ
descriptor (pos n) = some n
descriptor (negsuc n) = none

-- What a reading option prints.
abbrev pub shows : Reading → ℕ → Mem → List Done
shows as_chars n m = chars (text_of n m) ∷ []
shows as_hex n m = hex_codes (map sign_extend (prefix m n)) ∷ []
shows discarded n m = []

-- Nothing is printed at the end of the file.
unfoldable pub read_some : Reading → List Answer → Tool → Step
unfolding text_of prefix
read_some how [] t = stop waits t
read_some how (fails ∷ answers) t = stop (exits 3) t
read_some how (gives zero m ∷ answers) t = next t answers
read_some how (gives (suc n) m ∷ answers) t =
    next (record t { done = t.done ++ shows how (suc n) m }) answers

-- `n > sizeof(buf)` without signs.
unfoldable pub read_size : Option ℤ → Reading → List Answer → Tool → Step
unfolding read_some
read_size none how answers t = stop stale t
read_size (some (negsuc n)) how answers t = stop (exits 2) t
read_size (some (pos n)) how answers t =
    if ltb 1025 n then stop (exits 2) t else read_some how answers t

-- `-goto`: the index is that of the next option.
abbrev pub jump : ℤ → List Answer → Tool → Step
jump (pos n) answers t = next (record t { argi = n }) answers
jump (negsuc n) answers t = stop wild_index t

abbrev pub is_dash : Text → Bool
is_dash [] = false
is_dash (c ∷ cs) = c == 45

-- `buf[n] = ret`
abbrev pub byte_of : ℤ → ℕ
byte_of (pos n) = n % 256
byte_of (negsuc n) = 255 - n % 256

abbrev pub more_byte : Option ℤ → Option (List ℕ × ℕ) → Option (List ℕ × ℕ)
more_byte none rest = none
more_byte (some b) none = none
more_byte (some b) (some (bytes, used)) = some (byte_of b ∷ bytes, suc used)

abbrev pub last_byte : Option ℤ → Option (List ℕ × ℕ)
last_byte none = none
last_byte (some b) = some ([], 1)

-- The loop of `-wx` over the arguments that are left, with `n` bytes in the buffer: the bytes that are
-- counted, and how many arguments are passed over. At the last argument the loop is left in front of
-- `++n`. `none`: an argument is not a number.
unfoldable pub hex_loop : Numbers → List Text → ℕ → Option (List ℕ × ℕ)
hex_loop lib [] n = some ([], 0)
hex_loop lib (a ∷ []) n = if is_dash a || leb 1025 n then some ([], 0) else last_byte (lib.scan a)
hex_loop lib (a ∷ b ∷ rest) n =
    let more = hex_loop lib (b ∷ rest) (n + 1) in
    if is_dash a || leb 1025 n then some ([], 0) else more_byte (lib.scan a) more

-- `t.argi` is the index of the first argument of the loop. Behind the bytes, one more argument is
-- passed over.
abbrev pub write_hex : Option (List ℕ × ℕ) → List Answer → Tool → Step
write_hex none answers t = stop stale t
write_hex (some (bytes, used)) answers t =
    write_all bytes (length bytes) answers (record t { argi = t.argi + used + 1 })

-- execvp returns only when it fails.
abbrev pub execute : List Answer → Tool → Step
execute [] t = stop waits t
execute (fails ∷ answers) t = stop (exits 3) t
execute (gives n m ∷ answers) t = stop exec_done t

-- An option with the value `v`; `t.argi` is already the index behind the value.
abbrev pub with_value : Numbers → List Text → Action → Text → List Answer → Tool → Step
with_value lib args (valued calls) v answers t = perform calls v answers t
with_value lib args opens v answers t = open_device answers t
with_value lib args inherits v answers t = next (record t { fd = descriptor (lib.atoi v) }) answers
with_value lib args bits v answers t = set_bits v answers t
with_value lib args jumps v answers t = jump (lib.atoi v) answers t
with_value lib args execs v answers t = execute answers t
with_value lib args (reads how) v answers t = read_size (lib.scan v) how answers t
with_value lib args writes v answers t = write_all v (length v) answers t
with_value lib args hexes v answers t =
    write_hex (hex_loop lib (drop (t.argi - 1) args) 0) answers (record t { argi = t.argi - 1 })
with_value lib args finish v answers t = next t answers
with_value lib args closes v answers t = next t answers
with_value lib args prints_license v answers t = next t answers
with_value lib args (plain calls) v answers t = next t answers

-- With the next argument, which must be there.
abbrev pub needs_value : Numbers → List Text → Action → List Answer → Tool → Step
needs_value lib args action answers t = elim (nth args (t.argi + 1)) [
  | none ↦ stop (exits 2) t
  | some v ↦ with_value lib args action v answers (record t { argi = t.argi + 2 })
]

abbrev pub carry_out : Numbers → List Text → Action → List Answer → Tool → Step
carry_out lib args finish answers t = stop all_done t
carry_out lib args closes answers t =
    next (add_done closed (record t { argi = t.argi + 1 })) answers
carry_out lib args prints_license answers t = stop (exits 0) t
carry_out lib args (plain calls) answers t =
    perform calls [] answers (record t { argi = t.argi + 1 })
carry_out lib args action answers t = needs_value lib args action answers t

-- One round of the loop over the options.
unfoldable pub round : Numbers → List Text → List Answer → Tool → Step
unfolding action_of perform write_all set_bits open_device read_size hex_loop
round lib args answers t = elim (nth args t.argi) [
  | none ↦ stop all_done t
  | some a ↦
      if is_dash a
      then elim (action_of a) [
        | none ↦ stop (exits 2) t
        | some action ↦ carry_out lib args action answers t
      ]
      else stop (exits 2) t
]

-- The loop, with fuel: `none` when it is used up.
unfoldable pub options_loop : ℕ → Numbers → List Text → List Answer → Tool → Option (End × Tool)
unfolding round
options_loop zero lib args answers t = none
options_loop (suc fuel) lib args answers t = elim (round lib args answers t) [
  | stop end t' ↦ some (end, t')
  | next t' answers' ↦ options_loop fuel lib args answers' t'
]
