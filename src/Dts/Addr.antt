-- ===== src/Dts/Addr.antt =====
-- The two addresses of a D_PDU: dts_enc_two_addr and dts_dec_two_addr of dts.c. Every loop is a
-- recursion on the rounds that are left, which the loop's test fixes when it is entered.
use open_lib.Prelude.{ℕ, zero, suc, ◌+◌, ◌-◌, ◌*◌, ◌/◌, ◌%◌, Mem, store, ltb, if◌then◌else◌}
use open_lib.Errmac.{get_nibble, set_nibble}

-- `for (…; ++i) SET_NIBBLE(addr, i, 0)`, `n` rounds
unfoldable pub set_zeroes : ℕ → Mem → ℕ → ℕ → Mem
set_zeroes zero addr base i = addr
set_zeroes (suc n) addr base i = set_zeroes n (set_nibble addr base i 0) base (i + 1)

-- `for (…; ++i, ++j) SET_NIBBLE(dst, i, GET_NIBBLE(src, j))`, `n` rounds
unfoldable pub copy_nibbles : ℕ → Mem → ℕ → ℕ → Mem → ℕ → ℕ → Mem
copy_nibbles zero dst base i src from j = dst
copy_nibbles (suc n) dst base i src from j =
    copy_nibbles n (set_nibble dst base i (get_nibble src from j)) base (i + 1) src from (j + 1)

-- `(t[0] >> 5) & 0x07`
abbrev pub addr_len : Mem → ℕ
addr_len t = t 0 / 32 % 8

abbrev pub max_len : ℕ → ℕ → ℕ
max_len a b = if ltb b a then a else b

-- The addresses `t` and `f` go to `addr + base`, and the result is the length of either.
unfoldable pub dts_enc_two_addr : Mem → ℕ → Mem → Mem → Mem × ℕ
unfolding set_zeroes copy_nibbles
dts_enc_two_addr addr base t f =
    let t_len = addr_len t in
    let f_len = addr_len f in
    let len = max_len t_len f_len in
    let a1 = set_zeroes (len - t_len) addr base 0 in
    let a2 = copy_nibbles t_len a1 base (len - t_len) t 0 1 in
    let a3 = set_zeroes (len - f_len) a2 base len in
    let a4 = copy_nibbles f_len a3 base (len + (len - f_len)) f 0 1 in (a4, len)

-- The `2 * len` nibbles at `addr + from` go to the address fields at `h + t` and `h + f`.
unfoldable pub dts_dec_two_addr : ℕ → Mem → ℕ → Mem → ℕ → ℕ → Mem
unfolding copy_nibbles
dts_dec_two_addr len addr from h t f =
    let h1 = store h t (len * 32 % 256) in
    let h2 = copy_nibbles len h1 t 4 addr from 0 in
    let h3 = store h2 f (len * 32 % 256) in copy_nibbles len h3 f 4 addr from len
