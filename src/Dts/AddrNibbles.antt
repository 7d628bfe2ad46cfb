-- ===== src/Dts/AddrNibbles.antt =====
-- What dts_enc_two_addr puts into the address field, nibble by nibble.
use open_lib.Prelude.{
  ℕ, zero, suc, ◌+◌, ◌-◌, ◌*◌, ◌%◌, ◌≤◌, ◌<◌, ◌≡◌, refl, ap, ◌&&◌, arith, Mem, ltb, leb, ◌==◌,
  if◌then◌else◌,
}
use open_lib.Errmac.{get_nibble, set_nibble}
use open_lib.Errmac.Nibbles.{get_nibble-set_nibble}
use open_lib.Dts.Addr.{set_zeroes, copy_nibbles, addr_len, max_len, dts_enc_two_addr}

get_nibble-lt : (m : Mem) (base i : ℕ) → get_nibble m base i < 16
unfolding get_nibble
get_nibble-lt m base i = ground arith

set_zeroes-nibble :
    (n : ℕ) (a : Mem) (base i j : ℕ)
    → get_nibble (set_zeroes n a base i) base j
      ≡ (if leb i j && ltb j (i + n) then 0 else get_nibble a base j)
unfolding set_zeroes
set_zeroes-nibble zero a base i j = ground arith
set_zeroes-nibble (suc n) a base i j = ground (
  arith,
  set_zeroes-nibble n (set_nibble a base i 0) base (i + 1) j,
  get_nibble-set_nibble a base i j 0,
)

abbrev odd_only : ℕ → ℕ → ℕ
odd_only i v = if i % 2 == 1 then v else 0

copy_nibbles-nibble :
    (n : ℕ) (a : Mem) (base i : ℕ) (src : Mem) (from k j : ℕ)
    → get_nibble (copy_nibbles n a base i src from k) base j ≡ (
        if leb i j && ltb j (i + n)
        then odd_only j (get_nibble src from (k + j - i))
        else get_nibble a base j)
unfolding copy_nibbles
copy_nibbles-nibble zero a base i src from k j = ground arith
copy_nibbles-nibble (suc n) a base i src from k j =
    let later : k + 1 + j - (i + 1) ≡ k + j - i = omega arith in
    let read : ℕ → ℕ = get_nibble src from in
    ground (
      arith,
      copy_nibbles-nibble n (set_nibble a base i (read k)) base (i + 1) src from (k + 1) j,
      get_nibble-set_nibble a base i j (read k),
      get_nibble-lt src from k,
      ap read later,
      λ (e : j ≡ i). ap read (first e),
    )
  where
    first : j ≡ i → k + j - i ≡ k
    first e = omega arith

-- Nibble `i` of the field that stands for the address `t`: padding, then the nibbles behind the
-- length.
abbrev pub padded : Mem → ℕ → ℕ → ℕ
padded t len i = if ltb i (len - addr_len t) then 0 else get_nibble t 0 (1 + i - (len - addr_len t))

abbrev pub wanted : Mem → Mem → ℕ → ℕ → ℕ
wanted t f len i = if ltb i len then padded t len i else padded f len (i - len)

module _ (addr : Mem) (base : ℕ) (t f : Mem) (a b len : ℕ) where
  pad_t : Mem
  pad_t = set_zeroes (len - a) addr base 0

  put_t : Mem
  put_t = copy_nibbles a pad_t base (len - a) t 0 1

  pad_f : Mem
  pad_f = set_zeroes (len - b) put_t base len

  -- The four loops, for addresses of `a` and `b` nibbles.
  field-nibble :
      (i : ℕ)
      → a ≤ len
      → b ≤ len
      → i < 2 * len
      → get_nibble (copy_nibbles b pad_f base (len + (len - b)) f 0 1) base i
        ≡ odd_only i (
            if ltb i len
            then (if ltb i (len - a) then 0 else get_nibble t 0 (1 + i - (len - a)))
            else (if ltb (i - len) (len - b)
                then 0
                else get_nibble f 0 (1 + (i - len) - (len - b))))
  unfolding pad_t put_t pad_f
  field-nibble i ha hb h = ground (
    arith,
    copy_nibbles-nibble b pad_f base (len + (len - b)) f 0 1 i,
    set_zeroes-nibble (len - b) put_t base len i,
    copy_nibbles-nibble a pad_t base (len - a) t 0 1 i,
    set_zeroes-nibble (len - a) addr base 0 i,
    λ (e : len ≤ i). ap (get_nibble f 0) (second e),
  )
    where
      second : len ≤ i → 1 + i - (len + (len - b)) ≡ 1 + (i - len) - (len - b)
      second e = omega arith

-- The field has the larger of the two lengths; of the nibbles that the two addresses ask for it
-- holds those at odd places, and zero at every even place.
pub dts_enc_two_addr-nibble :
    (addr : Mem) (base : ℕ) (t f : Mem) (i : ℕ)
    → let len = max_len (addr_len t) (addr_len f) in
      i < 2 * len
      → ((dts_enc_two_addr addr base t f).1 ≡ len)
        × (get_nibble (dts_enc_two_addr addr base t f).0 base i ≡ odd_only i (wanted t f len i))
unfolding dts_enc_two_addr pad_t put_t pad_f
dts_enc_two_addr-nibble addr base t f i h = (
  refl,
  field-nibble addr base t f (addr_len t) (addr_len f) (max_len (addr_len t) (addr_len f)) i
      (ground arith) (ground arith) h,
)
