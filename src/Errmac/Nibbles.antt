-- ===== src/Errmac/Nibbles.antt =====
-- What SET_NIBBLE writes.
use open_lib.Prelude.{ℕ, ◌%◌, ◌≡◌, arith, Mem, ◌==◌, if◌then◌else◌}
use open_lib.Errmac.{get_nibble, set_nibble}

-- SET_NIBBLE writes the value at an odd index and zero at an even one, and no other nibble.
pub get_nibble-set_nibble :
    (m : Mem) (base i j v : ℕ)
    → get_nibble (set_nibble m base i v) base j
      ≡ (if j == i then (if i % 2 == 1 then v % 16 else 0) else get_nibble m base j)
unfolding get_nibble set_nibble
get_nibble-set_nibble m base i j v = ground arith
