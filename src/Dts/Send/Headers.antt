-- ===== src/Dts/Send/Headers.antt =====
-- The headers that dts_send_uni puts in front of a U_PDU, as the receiving side reads them.
use open_lib.Prelude.{
  ℕ, ◌+◌, ◌-◌, ◌*◌, ◌/◌, ◌%◌, ◌^◌, ◌≤◌, ◌≡◌, ap, Bool-cases, inl, inr, Mem, store, at, arith, ◌==◌,
}
use open_lib.Dts.Receive.{s_pdu_hdr}
use open_lib.Dts.Send.Unidata.{ttl_field, put_headers}

-- Both headers, whatever the memory holds where the U_PDU's service request stood.
module _ (m : Mem) (d priority saps : ℕ) (enough : 11 ≤ d) where
  abbrev plain : Mem
  plain = store (store (store (store m (d - 4) 0x00) (d - 3) priority) (d - 2) saps) (d - 1) 0x00

  plain-u_pdu : (i : ℕ) → at plain (d - 4) (4 + i) ≡ m (d + i)
  plain-u_pdu i = ground (arith, ap m same)
    where
      same : d - 4 + (4 + i) ≡ d + i
      same = omega arith

  abbrev timed : ℕ → Mem
  timed ttd =
      store
        (store
          (store (store (store (store m (d - 6) 0x00) (d - 5) priority) (d - 4) saps) (d - 3)
            (0x40 + ttd / 2 ^ 16 % 16))
          (d - 2) (ttd / 2 ^ 8 % 256))
        (d - 1) (ttd % 256)

  timed-u_pdu : (ttd i : ℕ) → at (timed ttd) (d - 6) (6 + i) ≡ m (d + i)
  timed-u_pdu ttd i = ground (arith, ap m same)
    where
      same : d - 6 + (6 + i) ≡ d + i
      same = omega arith

-- A U_PDU with eleven bytes in front of it. Behind dts_send_uni's headers it stands unchanged, the
-- headers have the length that the receiving side takes them to have, and hold the destination SAP
-- of the request in the low half and the connection's SAP in the high half of the third byte.
pub put_headers_lem :
    (m : Mem) (d sap now : ℕ)
    → 11 ≤ d
    → let (m1, hdr) = put_headers m d sap now in
      let c_pdu = at m1 (d - hdr) in
      (s_pdu_hdr c_pdu ≡ hdr)
      × (c_pdu 2 % 16 ≡ m (d - 11) % 16)
      × (c_pdu 2 / 16 ≡ sap % 16)
      × ((i : ℕ) → c_pdu (hdr + i) ≡ m (d + i))
unfolding put_headers
put_headers_lem m d sap now enough =
    let priority = m (d - 11) / 16 % 16 in
    let saps = sap * 16 % 256 + m (d - 11) % 16 in
    let ttd = (now + ttl_field m d) % 2 ^ 32 in
    elim (Bool-cases (ttl_field m d == 0)) [
      | inl e ↦
          rw e (ground arith, ground arith, ground arith, plain-u_pdu m d priority saps enough)
      | inr e ↦
          rw e (ground arith, ground arith, ground arith, timed-u_pdu m d priority saps enough ttd)
    ]
