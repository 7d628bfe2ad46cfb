-- ===== src/Iocat/Bits.antt =====
-- The option -bits of iocat.c.
use open_lib.Prelude.{ℕ, ◌+◌, ◌≡◌, refl, false, some, List, [], ◌∷◌, arith, Mem}
use open_lib.Counters.Names.{nth}
use open_lib.Daemon.{Text}
use open_lib.Iocat.{Numbers, Answer, gives, Tool, exits, stop, find_action, action_of}
use open_lib.Iocat.Run.{spec_ok, char_at, set_bits, needs_value, round}

never_ok : (c p : ℕ) → spec_ok c p p ≡ false
never_ok c p = ground arith

-- `-bits`
abbrev pub bits_text : Text
bits_text = 45 ∷ 98 ∷ 105 ∷ 116 ∷ 115 ∷ []

-- When tcgetattr answers, the option -bits ends the tool with the message of a bad option, whatever
-- its value is: no value sets the character size, the parity and the stop bits.
pub round-bits :
    (lib : Numbers) (args : List Text) (t : Tool) (v : Text) (n : ℕ) (m : Mem)
    (answers : List Answer)
    → nth args t.argi ≡ some bits_text
    → nth args (t.argi + 1) ≡ some v
    → round lib args (gives n m ∷ answers) t ≡ stop (exits 2) (record t { argi = t.argi + 2 })
unfolding round action_of find_action set_bits
round-bits lib args t v n m answers here value =
    rw (here, value, never_ok (char_at v 0) (char_at v 1), round, needs_value) refl
