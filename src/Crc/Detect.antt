-- ===== src/Crc/Detect.antt =====
-- What the batch functions detect.
use open_lib.Prelude.{
  ℕ, zero, suc, ◌+◌, ◌^◌, ◌≤◌, ◌<◌, bit_xor, ◌≡◌, ◌≢◌, refl, sym, ap, ◌∙◌, arith, Mem, IsBytes,
}
use native.Mathlib.Decide.{ℕ_discrete}
use open_lib.Prelude.Bits.{xor_cancel, xor_comm}
use open_lib.Crc.{crc_batch, crc_16_s5066_batch, crc_32_s5066_batch, crc_16_s5066, crc_32_s5066}
use open_lib.Crc.Step.{IsChecksum, crc_16_s5066-IsChecksum, crc_32_s5066-IsChecksum}

xor_same_left : (c a b : ℕ) → bit_xor c a ≡ bit_xor c b → a ≡ b
xor_same_left c a b e =
    sym (xor_cancel a c)
    ∙ ap (λ (t : ℕ). bit_xor t c) (xor_comm a c ∙ e ∙ xor_comm c b)
    ∙ xor_cancel b c

xor_same_right : (c d b : ℕ) → bit_xor c b ≡ bit_xor d b → c ≡ d
xor_same_right c d b e = sym (xor_cancel c b) ∙ ap (λ (t : ℕ). bit_xor t b) e ∙ xor_cancel d b

-- Two buffers agree on the `n` bytes at `p`.
abbrev pub SameBytes : Mem → Mem → ℕ → ℕ → Type 0
SameBytes m g p n = (i : ℕ) → p ≤ i → i < p + n → m i ≡ g i

-- They differ there at offset `j` and nowhere else.
abbrev pub DifferAt : Mem → Mem → ℕ → ℕ → ℕ → Type 0
DifferAt m g p n j = (m j ≢ g j) × ((i : ℕ) → p ≤ i → i < p + n → i ≢ j → m i ≡ g i)

module _ (byte : ℕ → ℕ → ℕ) where
  pub crc_batch-cong :
      (m g : Mem) (p n c : ℕ) → SameBytes m g p n → crc_batch byte m p n c ≡ crc_batch byte g p n c
  unfolding crc_batch
  crc_batch-cong m g p zero c h = refl
  crc_batch-cong m g p (suc n) c h =
      ap (λ (t : ℕ). crc_batch byte m (p + 1) n (byte t c)) (h p (omega arith) (omega arith))
      ∙ crc_batch-cong m g (p + 1) n (byte (g p) c) (λ i a b. h i (omega arith) (omega arith))

  -- The bytes at `p` moved to `q`.
  pub crc_batch-shift :
      (m g : Mem) (p q n c : ℕ)
      → ((i : ℕ) → i < n → m (p + i) ≡ g (q + i))
      → crc_batch byte m p n c ≡ crc_batch byte g q n c
  unfolding crc_batch
  crc_batch-shift m g p q zero c h = refl
  crc_batch-shift m g p q (suc n) c h =
      ap (λ (t : ℕ). crc_batch byte m (p + 1) n (byte t c)) first
      ∙ crc_batch-shift m g (p + 1) (q + 1) n (byte (g q) c)
          (λ i a. ap m (omega arith) ∙ h (i + 1) (omega arith) ∙ ap g (omega arith))
    where
      first : m p ≡ g q
      first = ap m (omega arith) ∙ h 0 (omega arith) ∙ ap g (omega arith)

  module _ (k : ℕ) (is : IsChecksum byte k) where
    crc_batch-lt : (m : Mem) (p n c : ℕ) → c < k → crc_batch byte m p n c < k
    unfolding crc_batch
    crc_batch-lt m p zero c h = h
    crc_batch-lt m p (suc n) c h = crc_batch-lt m (p + 1) n _ (is.bounded (m p) c h)

    -- The same bytes take different states to different states.
    crc_batch-inj :
        (m : Mem) (p n c d : ℕ)
        → IsBytes m
        → c < k
        → d < k
        → crc_batch byte m p n c ≡ crc_batch byte m p n d
        → c ≡ d
    unfolding crc_batch
    crc_batch-inj m p zero c d b hc hd e = e
    crc_batch-inj m p (suc n) c d b hc hd e = xor_same_right c d (m p) (
        is.faithful (m p) c (m p) d (b p) (b p) hc hd
          (crc_batch-inj m (p + 1) n _ _ b (is.bounded _ _ hc) (is.bounded _ _ hd) e))

    crc_batch-ne :
        (m g : Mem) (p n j c : ℕ)
        → IsBytes m
        → IsBytes g
        → c < k
        → p ≤ j
        → j < p + n
        → DifferAt m g p n j
        → crc_batch byte m p n c ≢ crc_batch byte g p n c
    unfolding crc_batch
    crc_batch-ne m g p zero j c bm bg hc lo hi d e = absurd (omega arith)
    crc_batch-ne m g p (suc n) j c bm bg hc lo hi d e = elim (ℕ_discrete p j) [
      | yes here ↦ d.0 (
          ap m (sym here)
          ∙ xor_same_left c (m p) (g p) (
              is.faithful (m p) c (g p) c (bm p) (bg p) hc hc (
                crc_batch-inj m (p + 1) n _ _ bm (is.bounded _ _ hc) (is.bounded _ _ hc) (
                  e
                  ∙ crc_batch-cong g m (p + 1) n _
                      (λ i a b. sym (d.1 i (omega arith) (omega arith) (omega arith))))))
          ∙ ap g here)
      | no later ↦
          crc_batch-ne m g (p + 1) n j (byte (g p) c) bm bg (is.bounded _ _ hc) (omega arith)
            (omega arith) (d.0, λ i a b ne. d.1 i (omega arith) (omega arith) ne)
            (ap (λ (t : ℕ). crc_batch byte m (p + 1) n (byte t c))
                (sym (d.1 p (omega arith) (omega arith) later))
              ∙ e)
    ]

-- The header checksum is a 16-bit number, and of two headers that differ in a single byte the
-- checksums differ; the data checksum is a 32-bit number and does the same.
pub crc_batch_detects :
    (m g : Mem) (p n j : ℕ)
    → IsBytes m
    → IsBytes g
    → p ≤ j
    → j < p + n
    → DifferAt m g p n j
    → (crc_16_s5066_batch m p n < 2 ^ 16)
      × (crc_16_s5066_batch m p n ≢ crc_16_s5066_batch g p n)
      × (crc_32_s5066_batch m p n < 2 ^ 32)
      × (crc_32_s5066_batch m p n ≢ crc_32_s5066_batch g p n)
unfolding crc_16_s5066_batch crc_32_s5066_batch
crc_batch_detects m g p n j bm bg lo hi d = (
  crc_batch-lt crc_16_s5066 _ crc_16_s5066-IsChecksum m p n 0 (omega arith),
  crc_batch-ne crc_16_s5066 _ crc_16_s5066-IsChecksum m g p n j 0 bm bg (omega arith) lo hi d,
  crc_batch-lt crc_32_s5066 _ crc_32_s5066-IsChecksum m p n 0 (omega arith),
  crc_batch-ne crc_32_s5066 _ crc_32_s5066-IsChecksum m g p n j 0 bm bg (omega arith) lo hi d,
)

pub crc_16_s5066_batch-cong :
    (m g : Mem) (p n : ℕ) → SameBytes m g p n → crc_16_s5066_batch m p n ≡ crc_16_s5066_batch g p n
unfolding crc_16_s5066_batch
crc_16_s5066_batch-cong m g p n h = crc_batch-cong crc_16_s5066 m g p n 0 h

pub crc_32_s5066_batch-shift :
    (m g : Mem) (p q n : ℕ)
    → ((i : ℕ) → i < n → m (p + i) ≡ g (q + i))
    → crc_32_s5066_batch m p n ≡ crc_32_s5066_batch g q n
unfolding crc_32_s5066_batch
crc_32_s5066_batch-shift m g p q n h = crc_batch-shift crc_32_s5066 m g p q n 0 h
