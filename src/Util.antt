-- ===== src/Util.antt =====
-- util.c: the loops that read and write whole buffers, and hexdump.
use open_lib.Prelude.{
  ℕ, zero, suc, ◌+◌, ◌-◌, ◌*◌, ◌/◌, ◌%◌, Bool, true, false, ◌||◌, Option, none, some, List, [], ◌∷◌,
  ◌++◌, Mem, at, memcpy, ltb, leb, ◌==◌, if◌then◌else◌,
}
use open_lib.Prelude.Pointers.{update}
pub mod Hexdump

-- What read and write return: a number of bytes, 0 or -1.
pub data Io : Type 0 where
  moved : ℕ → Io
  nothing failed : Io

-- write_all_fd with a valid descriptor and buffer: the bytes that were written, and whether they are
-- all. `none`: there are no more results, and the program is in write.
unfoldable pub write_loop : List Io → ℕ → ℕ → Option (ℕ × Bool)
write_loop rs zero done = some (done, true)
write_loop [] (suc pending) done = none
write_loop (moved n ∷ rs) (suc pending) done = write_loop rs (suc pending - n) (done + n)
write_loop (nothing ∷ rs) (suc pending) done = some (done, false)
write_loop (failed ∷ rs) (suc pending) done = some (done, false)

unfoldable pub write_all_fd : List Io → ℕ → Option (ℕ × Bool)
unfolding write_loop
write_all_fd rs pending = if pending == 0 then some (0, false) else write_loop rs pending 0

-- The loop of read_all_fd: `got` is the result of the last read, and what it returns, `got_all` the
-- number of bytes that were read.
unfoldable pub read_loop : List Io → ℕ → Io → ℕ → Option (Io × ℕ)
read_loop rs zero got got_all = some (got, got_all)
read_loop [] (suc want) got got_all = none
read_loop (moved n ∷ rs) (suc want) got got_all =
    read_loop rs (suc want - n) (moved n) (got_all + n)
read_loop (nothing ∷ rs) (suc want) got got_all = some (nothing, got_all)
read_loop (failed ∷ rs) (suc want) got got_all = some (failed, got_all)

unfoldable pub read_all_fd : List Io → ℕ → Option (Io × ℕ)
unfolding read_loop
read_all_fd rs want = read_loop rs want nothing 0

-- `HEX_DIGIT`
abbrev pub hex_digit : ℕ → ℕ
hex_digit x = if ltb x 10 then x + 48 else x - 10 + 65

-- The column of a byte's first digit.
abbrev pub column : ℕ → ℕ
column i = 3 * i + (if ltb 7 i then 1 else 0)

-- A `char` of 128 or more is negative, so below a blank.
abbrev pub shown : ℕ → ℕ
shown c =
    if c == 0
    then 126
    else if c == 13
    then 91
    else if c == 10
    then 93
    else if c == 126 || (c == 91 || c == 93)
    then 94
    else if ltb c 32 || leb 128 c
    then 94
    else c

-- One byte of a line, at the place `i`.
unfoldable pub put_byte : Mem → ℕ → ℕ → Mem
put_byte buf i c =
    update
      (update (update buf (column i) (hex_digit (c / 16 % 16))) (column i + 1) (hex_digit (c % 16)))
      (50 + i) (shown c)

-- The bytes of a line, `rounds` of them.
unfoldable pub put_line : ℕ → Mem → ℕ → Mem → Mem
unfolding put_byte
put_line zero buf i p = buf
put_line (suc rounds) buf i p = put_line rounds (put_byte buf i (p i)) (i + 1) p

-- `memset(buf, ' ', sizeof(buf)-1)`, with `buf[sizeof(buf)-1] = 0`; the buffer has 67 bytes, and
-- what stands behind it is `behind`.
abbrev pub blank_line : Mem → Mem
blank_line behind j = if ltb j 66 then 32 else if j == 66 then 0 else behind j

-- The lines that are printed, of `n` bytes; fuel of `n` rounds.
unfoldable pub hexdump_loop : ℕ → Mem → Mem → ℕ → List Mem
unfolding put_line
hexdump_loop zero behind p n = []
hexdump_loop (suc fuel) behind p n =
    let len = if ltb 16 n then 16 else n in
    let rest = hexdump_loop fuel behind (at p len) (n - len) in
    if n == 0 then [] else put_line len (blank_line behind) 0 p ∷ rest

-- `n` is `lim - p`.
unfoldable pub hexdump : Mem → Mem → ℕ → ℕ → List Mem
unfolding hexdump_loop
hexdump behind p n max = let len = if ltb max n then max else n in hexdump_loop len behind p len
