-- ===== src/Crc.antt =====
-- The checksums of dts.c: CRC_16_S5066 over the D_PDU header and CRC_32_S5066 over the data.
pub mod Step
pub mod Detect
use open_lib.Prelude.{ℕ, zero, suc, ◌+◌, ◌/◌, ◌%◌, bit_xor, Mem, ◌==◌, if◌then◌else◌}

-- One round of the loop. `CRC & 1` and `DATA & i` are taken as 0 or 1 before the exclusive or, and
-- `digit` is the second of the two.
unfoldable pub crc_round : ℕ → ℕ → ℕ → ℕ
crc_round poly digit crc =
    let bit = bit_xor (crc % 2) digit in
    let shifted = crc / 2 in if bit == 0 then shifted else bit_xor shifted poly

-- `for (i=0x01; i; i<<=1)`: `i` is an unsigned char and runs through the digits of DATA, lowest
-- first. Here the digit in turn is the lowest digit of what is left of DATA.
unfoldable pub crc_rounds : ℕ → ℕ → ℕ → ℕ → ℕ
crc_rounds poly zero rest crc = crc
crc_rounds poly (suc n) rest crc = crc_rounds poly n (rest / 2) (crc_round poly (rest % 2) crc)

unfoldable pub crc_16_s5066 : ℕ → ℕ → ℕ
unfolding crc_rounds crc_round
crc_16_s5066 byte crc = crc_rounds 0x9299 8 byte crc

unfoldable pub crc_32_s5066 : ℕ → ℕ → ℕ
unfolding crc_rounds crc_round
crc_32_s5066 byte crc = crc_rounds 0xf3a4e550 8 byte crc

-- The loop of both batch functions over the `n` bytes at `p`; `byte` is the function for one byte.
unfoldable pub crc_batch : (ℕ → ℕ → ℕ) → Mem → ℕ → ℕ → ℕ → ℕ
crc_batch byte m p zero crc = crc
crc_batch byte m p (suc n) crc = crc_batch byte m (p + 1) n (byte (m p) crc)

-- `CRC_16_S5066_batch(m + p, m + p + n)`
unfoldable pub crc_16_s5066_batch : Mem → ℕ → ℕ → ℕ
unfolding crc_batch crc_16_s5066
crc_16_s5066_batch m p n = crc_batch crc_16_s5066 m p n 0

-- `CRC_32_S5066_batch(m + p, m + p + n)`
unfoldable pub crc_32_s5066_batch : Mem → ℕ → ℕ → ℕ
unfolding crc_batch crc_32_s5066
crc_32_s5066_batch m p n = crc_batch crc_32_s5066 m p n 0
