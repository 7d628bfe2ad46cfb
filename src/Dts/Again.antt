-- ===== src/Dts/Again.antt =====
-- A D_PDU of a C_PDU that dts_data has delivered comes again.
use open_lib.Prelude.{
  ℕ, ◌+◌, ◌-◌, ◌%◌, ◌≤◌, ◌<◌, ◌≡◌, refl, ap, ◌∙◌, inl, inr, true, Option-cases, some, List, [], ◌∷◌,
  ◌++◌, arith, Mem, at, ◌==◌, lt→ltb, if◌then◌else◌,
}
use open_lib.Prelude.Lists.{All}
use open_lib.Hiios.{HiPdu, Iov, ok}
use open_lib.Dts.Receive.{
  Receiver, sis_start, s_pdu_hdr, sis_header, color_map, scan_map, deliver, put_slot, take_segment,
  place, nonarq_segment,
}
use open_lib.Dts.Reassembly.{IsAligned, covered, color_all, clear_map, scan_map-color_all}
use open_lib.Dts.Collect.{with_segment, place-take_segment}

-- The PDU that the slot keeps: its header has been written over.
abbrev pub delivered : HiPdu → Mem → HiPdu
delivered p req = record p {
  m = sis_header p.m (sis_start (at p.m 18)) (s_pdu_hdr (at p.m 18)) p.len 7 req;
}

deliver-kept :
    (st : Receiver) (p : HiPdu) (id : ℕ) (req : Mem)
    → ((deliver st p id 7 req).conn.nonarq_pdus id ≡ some (delivered p req))
      × ((deliver st p id 7 req).saptab ≡ st.saptab)
unfolding deliver
deliver-kept st p id req =
    let here : (id == id) ≡ true = ground arith in
    elim (Option-cases (st.saptab (at p.m 18 2 % 16)).io) [
      | inl e ↦ rw (e, deliver, here) (refl, refl)
      | inr (fd, e) ↦ rw (e, deliver, here) (refl, refl)
    ]

-- Where the C_PDU's header was, the counts of errored and missing blocks are now, which are 0.
delivered-header :
    (p : HiPdu) (req : Mem) → ((delivered p req).m 20 ≡ 0) × ((delivered p req).m 21 ≡ 0)
unfolding sis_header
delivered-header p req = (ground arith, ground arith)

-- A segment that is behind the header goes into the delivered PDU, and is complete at once.
module _ (st : Receiver) (p : HiPdu) (id offset size : ℕ) (req : Mem) where
  abbrev again : HiPdu
  again = with_segment p offset size req

  -- The C_PDU has a header of zeroes: it goes to the SAP 0.
  deliver-zeroes :
      (fd : ℕ)
      → 4 ≤ offset
      → p.m 20 ≡ 0
      → p.m 21 ≡ 0
      → (st.saptab 0).io ≡ some fd
      → (frame : Iov) × ((deliver st again id 7 req).sent ≡ st.sent ++ ((fd, frame ∷ []) ∷ []))
        × (frame.iov_len ≡ 22 + p.len - 4)
  unfolding deliver
  deliver-zeroes fd lo z20 z21 bound =
      let sap : again.m 20 % 16 ≡ 0 = ground (arith, z20, lo) in
      let hdr : s_pdu_hdr (at again.m 18) ≡ 4 = ground (arith, z21, lo) in
      let user : (st.saptab (again.m 20 % 16)).io ≡ some fd =
        ap (λ s. (st.saptab s).io) sap ∙ bound in
      let c = at again.m 18 in
      (
        record {
          iov_base = at (sis_header again.m (sis_start c) (s_pdu_hdr c) p.len 7 req) (sis_start c);
          iov_len = 22 + p.len - s_pdu_hdr c;
        },
        rw (user, deliver) refl,
        ap (λ h. 22 + p.len - h) hdr,
      )

-- A C_PDU has been delivered, all of whose segments were like those of the sender. A segment of it
-- that does not start in its first four bytes comes again. Then the client bound to the SAP 0, if
-- there is one, is handed an indication, whatever the destination SAP was.
pub nonarq_segment-deliver :
    (st : Receiver) (p : HiPdu) (id : ℕ) (req1 : Mem) (segs : List (ℕ × ℕ)) (offset size : ℕ)
    (req : Mem) (fd : ℕ)
    → id < 128
    → 18 + p.len ≤ 2200
    → p.rx_map ≡ color_all segs clear_map
    → All (IsAligned p.len) ((offset, size) ∷ segs)
    → ((j : ℕ) → j < p.len → covered segs j ≡ true)
    → 4 ≤ offset
    → offset + size ≤ p.len
    → (st.saptab 0).io ≡ some fd
    → (st' : Receiver) × (frame : Iov) × (nonarq_segment
          (deliver st p id 7 req1)
          id
          p.len
          offset
          size
          7
          req
        ≡ ok st')
      × (st'.sent ≡ (deliver st p id 7 req1).sent ++ ((fd, frame ∷ []) ∷ []))
      × (frame.iov_len ≡ 22 + p.len - 4)
unfolding nonarq_segment take_segment
nonarq_segment-deliver st p id req1 segs offset size req fd small room colored al full lo fits
      bound =
    let st1 = deliver st p id 7 req1 in
    let p1 = delivered p req1 in
    let (kept, table) = deliver-kept st p id req1 in
    let (z20, z21) = delivered-header p req1 in
    let p2 = again st1 p1 id offset size req in
    let st2 = put_slot st1 id p2 in
    let bound2 : (st2.saptab 0).io ≡ some fd = ap (λ t. (t 0).io) table ∙ bound in
    let (frame, sent, len) = deliver-zeroes st2 p1 id offset size req fd lo z20 z21 bound2 in
    let same : (p.len == p.len) ≡ true = ground arith in
    let enters : nonarq_segment st1 id p.len offset size 7 req ≡ place st1 p1 id offset size 7 req =
      rw (lt→ltb id 128 small, kept, same, nonarq_segment) refl in
    let scanned : scan_map p.len (color_map size p.rx_map offset) 0 ≡ true =
      ap (λ m. scan_map p.len (color_map size m offset) 0) colored
      ∙ (scan_map-color_all p.len ((offset, size) ∷ segs) al).1
          (λ j lt. ground (arith, full j lt)) in
    (
      deliver st2 p2 id 7 req,
      frame,
      enters
          ∙ place-take_segment st1 p1 id p.len offset size req refl fits room
          ∙ ap (λ b. ok (if b then deliver st2 p2 id 7 req else st2)) scanned,
      sent,
      len,
    )
