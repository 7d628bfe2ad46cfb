-- ===== src/Dts/Delivery.antt =====
-- The S_UNIDATA_INDICATION that dts_data makes of a complete C_PDU.
use open_lib.Prelude.{
  ℕ, zero, suc, ◌+◌, ◌-◌, ◌*◌, ◌/◌, ◌%◌, ◌^◌, ◌≤◌, ◌<◌, ◌≡◌, refl, ap, ◌∙◌, ◌⊎◌, inl, inr, some, [],
  ◌∷◌, ◌++◌, arith, Mem, store, at,
}
use open_lib.Hiios.{HiPdu, Iov}
use open_lib.Errmac.{get_nibble, set_nibble}
use open_lib.Dts.Addr.{copy_nibbles, dts_dec_two_addr}
use open_lib.Dts.Receive.{Receiver, sis_start, s_pdu_hdr, sis_header, deliver}

-- The bytes outside of the ones with the nibbles `i` to `i + n`.
abbrev IsOutside : ℕ → ℕ → ℕ → Type 0
IsOutside base last k = (k < base) ⊎ (base + (last + 1) / 2 ≤ k)

copy_nibbles-outside :
    (n : ℕ) (a : Mem) (base i : ℕ) (src : Mem) (from j k : ℕ)
    → IsOutside base (i + n) k
    → copy_nibbles n a base i src from j k ≡ a k
unfolding copy_nibbles set_nibble
copy_nibbles-outside zero a base i src from j k h = refl
copy_nibbles-outside (suc n) a base i src from j k (inl h) = ground (
  arith,
  copy_nibbles-outside n (set_nibble a base i (get_nibble src from j)) base (i + 1) src from (j + 1)
      k (inl h),
)
copy_nibbles-outside (suc n) a base i src from j k (inr h) = ground (
  arith,
  copy_nibbles-outside n (set_nibble a base i (get_nibble src from j)) base (i + 1) src from (j + 1)
      k (inr (omega arith)),
)

-- The two address fields at h + 7 and h + 12 stay in front of h + 18.
dts_dec_two_addr-outside :
    (len : ℕ) (addr : Mem) (m : Mem) (h k : ℕ)
    → len < 8
    → (k < h + 7) ⊎ (h + 18 ≤ k)
    → dts_dec_two_addr len addr 6 m (h + 7) (h + 12) k ≡ m k
unfolding dts_dec_two_addr
dts_dec_two_addr-outside len addr m h k small (inl lt) =
    let h1 = store m (h + 7) (len * 32 % 256) in
    let h2 = copy_nibbles len h1 (h + 7) 4 addr 6 0 in
    let h3 = store h2 (h + 12) (len * 32 % 256) in
    let e1 = copy_nibbles-outside len h1 (h + 7) 4 addr 6 0 k (inl (omega arith)) in
    let e2 = copy_nibbles-outside len h3 (h + 12) 4 addr 6 len k (inl (omega arith)) in
    e2 ∙ ground (arith, e1)
dts_dec_two_addr-outside len addr m h k small (inr ge) =
    let h1 = store m (h + 7) (len * 32 % 256) in
    let h2 = copy_nibbles len h1 (h + 7) 4 addr 6 0 in
    let h3 = store h2 (h + 12) (len * 32 % 256) in
    let e1 = copy_nibbles-outside len h1 (h + 7) 4 addr 6 0 k (inr (omega arith)) in
    let e2 = copy_nibbles-outside len h3 (h + 12) 4 addr 6 len k (inr (omega arith)) in
    e2 ∙ ground (arith, e1)

-- The first six stores of the header, and the seventh.
abbrev front : Mem → ℕ → ℕ → ℕ → Mem
front m h hdr len =
    let body = 17 + len - hdr in
    let m5 =
      store
        (store
          (store (store (store (store m h 0x90) (h + 1) 0xeb) (h + 2) 0x00) (h + 3)
            (body / 256 % 256))
          (h + 4) (body % 256))
        (h + 5) 0x15 in
    store m5 (h + 6) (m5 19 * 16 % 256 + m5 20 % 16)

front_lem :
    (m : Mem) (h hdr len : ℕ)
    → h ≤ 2
    → let body = 17 + len - hdr in
      let w = front m h hdr len in
      (w (h + 0) ≡ 0x90)
      × (w (h + 1) ≡ 0xeb)
      × (w (h + 2) ≡ 0)
      × (w (h + 3) ≡ body / 256 % 256)
      × (w (h + 4) ≡ body % 256)
      × (w (h + 5) ≡ 0x15)
      × (w (h + 6) % 16 ≡ m 20 % 16)
front_lem m h hdr len low = (
  ground arith,
  ground arith,
  ground arith,
  ground arith,
  ground arith,
  ground arith,
  ground arith,
)

front-behind : (m : Mem) (h hdr len k : ℕ) → h + 7 ≤ k → front m h hdr len k ≡ m k
front-behind m h hdr len k ge = ground arith

module _ (m : Mem) (h hdr len addr_size : ℕ) (req : Mem) (small : addr_size < 8) where
  sis_header-outside :
      (k : ℕ)
      → (k < h + 7) ⊎ (h + 22 ≤ k)
      → sis_header m h hdr len addr_size req k ≡ front m h hdr len k
  unfolding sis_header
  sis_header-outside k (inl lt) =
      ground (arith, dts_dec_two_addr-outside addr_size req (front m h hdr len) h k small (inl lt))
  sis_header-outside k (inr ge) = ground (
    arith,
    dts_dec_two_addr-outside addr_size req (front m h hdr len) h k small (inr (omega arith)),
  )

  sis_header-size :
      hdr ≤ len
      → len < 2 ^ 16
      → sis_header m h hdr len addr_size req (h + 16) * 256
          + sis_header m h hdr len addr_size req (h + 17)
        ≡ len - hdr
  unfolding sis_header
  sis_header-size lo hi = ground arith

  sis_header-blocks :
      (sis_header m h hdr len addr_size req (h + 18) * 256
          + sis_header m h hdr len addr_size req (h + 19)
        ≡ 0)
      × (sis_header m h hdr len addr_size req (h + 20) * 256
            + sis_header m h hdr len addr_size req (h + 21)
          ≡ 0)
  unfolding sis_header
  sis_header-blocks = (ground arith, ground arith)

-- How far the two layouts lie apart.
shift_lem : (c_pdu : Mem) → (s_pdu_hdr c_pdu ≡ sis_start c_pdu + 4) × (sis_start c_pdu ≤ 2)
shift_lem c_pdu = (ground arith, ground arith)

-- The bytes are one S_UNIDATA_INDICATION for the SAP `dest`, with `len` bytes of `u_pdu`, and none of
-- its blocks is errored or missing.
pub record IsIndication (frame : Iov) (dest len : ℕ) (u_pdu : Mem) : Type 0 where
  pub size : frame.iov_len ≡ 22 + len
  pub preamble_high : frame.iov_base 0 ≡ 0x90
  pub preamble_low : frame.iov_base 1 ≡ 0xeb
  pub version : frame.iov_base 2 ≡ 0
  pub s_len : frame.iov_base 3 * 256 + frame.iov_base 4 ≡ 17 + len
  pub op : frame.iov_base 5 ≡ 0x15
  pub dest_sap : frame.iov_base 6 % 16 ≡ dest
  pub u_len : frame.iov_base 16 * 256 + frame.iov_base 17 ≡ len
  pub errored : frame.iov_base 18 * 256 + frame.iov_base 19 ≡ 0
  pub missing : frame.iov_base 20 * 256 + frame.iov_base 21 ≡ 0
  pub bytes : (i : ℕ) → i < len → frame.iov_base (22 + i) ≡ u_pdu i

-- A complete C_PDU, not shorter than its headers and of less than 65519 bytes, for a SAP that is
-- bound to `fd`. What is sent to `fd` is one S_UNIDATA_INDICATION: it has the preamble, the version
-- 0, its own length behind the five bytes in front, the type 0x15, the destination SAP of the
-- C_PDU, the length of the U_PDU, no errored and no missing blocks, and from byte 22 on the U_PDU,
-- which is all that follows the headers of the C_PDU.
pub deliver_lem :
    (st : Receiver) (p : HiPdu) (c_pdu_id addr_size : ℕ) (req : Mem) (fd : ℕ)
    → let c_pdu = at p.m 18 in
      let hdr = s_pdu_hdr c_pdu in
      (st.saptab (c_pdu 2 % 16)).io ≡ some fd
      → addr_size < 8
      → hdr ≤ p.len
      → p.len < 65519
      → (frame : Iov) × ((deliver st p c_pdu_id addr_size req).sent
          ≡ st.sent ++ ((fd, frame ∷ []) ∷ []))
        × (frame.iov_len ≡ 22 + (p.len - hdr))
        × (frame.iov_base 0 ≡ 0x90)
        × (frame.iov_base 1 ≡ 0xeb)
        × (frame.iov_base 2 ≡ 0)
        × (frame.iov_base 3 * 256 + frame.iov_base 4 + 5 ≡ frame.iov_len)
        × (frame.iov_base 5 ≡ 0x15)
        × (frame.iov_base 6 % 16 ≡ c_pdu 2 % 16)
        × (frame.iov_base 16 * 256 + frame.iov_base 17 ≡ p.len - hdr)
        × (frame.iov_base 18 * 256 + frame.iov_base 19 ≡ 0)
        × (frame.iov_base 20 * 256 + frame.iov_base 21 ≡ 0)
        × ((i : ℕ) → frame.iov_base (22 + i) ≡ c_pdu (hdr + i))
unfolding deliver
deliver_lem st p c_pdu_id addr_size req fd bound small lo hi =
    let c_pdu = at p.m 18 in
    let h = sis_start c_pdu in
    let hdr = s_pdu_hdr c_pdu in
    let (eh, eh2) = shift_lem c_pdu in
    let (w0, w1, w2, w3, w4, w5, w6) = front_lem p.m h hdr p.len eh2 in
    let out = sis_header-outside p.m h hdr p.len addr_size req small in
    (
      record {
        iov_base = at (sis_header p.m h hdr p.len addr_size req) h;
        iov_len = 22 + p.len - hdr;
      },
      rw (deliver, bound) refl,
      omega (arith, lo),
      out (h + 0) (inl (omega arith)) ∙ w0,
      out (h + 1) (inl (omega arith)) ∙ w1,
      out (h + 2) (inl (omega arith)) ∙ w2,
      omega (
        arith,
        out (h + 3) (inl (omega arith)),
        out (h + 4) (inl (omega arith)),
        w3,
        w4,
        eh,
        lo,
        hi,
      ),
      out (h + 5) (inl (omega arith)) ∙ w5,
      omega (arith, out (h + 6) (inl (omega arith)), w6),
      sis_header-size p.m h hdr p.len addr_size req small lo (omega (arith, hi)),
      (sis_header-blocks p.m h hdr p.len addr_size req small).0,
      (sis_header-blocks p.m h hdr p.len addr_size req small).1,
      λ i.
          out (h + (22 + i)) (inr (omega arith))
          ∙ front-behind p.m h hdr p.len (h + (22 + i)) (omega arith)
          ∙ ap p.m (omega (arith, eh)),
    )
