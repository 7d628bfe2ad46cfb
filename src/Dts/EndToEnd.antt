-- ===== src/Dts/EndToEnd.antt =====
-- A C_PDU on its way from dts_send_uni_nonarq to the client of the other node.
use open_lib.Prelude.{
  ℕ, suc, ◌+◌, ◌-◌, ◌%◌, ◌≤◌, ◌<◌, ◌≡◌, refl, sym, ap, subst, ◌∙◌, true, inr, none, some, List, [],
  ◌∷◌, ◌++◌, arith, Mem, at,
}
use open_lib.Prelude.Lists.{length}
use open_lib.Hiios.{HiPdu, Iov, Result, Verdict, noerr, ok, ◌>>=◌, wire, wire_len}
use open_lib.Crc.Detect.{SameBytes}
use open_lib.Dts.Send.{Sender, dts_send_uni_nonarq}
use open_lib.Dts.Send.Segments.{IsSegmented, last, more, dts_send_uni_nonarq-segments}
use open_lib.Dts.Frame.{IsFrame}
use open_lib.Dts.RoundTrip.{IsFrame-same, dts_data-frame, dts_decode-frame, after_frame}
use open_lib.Dts.Receive.{scan_map, Receiver, s_pdu_hdr, deliver, nonarq_segment, dts_decode}
use open_lib.Dts.Delivery.{IsIndication, deliver_lem}
use open_lib.Dts.Reassembly.{color_all, clear_map, scan_map-color_all}
use open_lib.Dts.Collect.{
  Carries, Collecting, Entering, nonempty, Collecting-Entering, last-Collecting,
}

frame-Carries :
    {w : Mem} {id len : ℕ} {d : Mem} {seg_size offset : ℕ}
    → IsFrame w id len d seg_size offset
    → offset + seg_size ≤ len
    → Carries d len (offset, seg_size) w
frame-Carries f h = (h, f.payload)

-- One segment that is the whole C_PDU makes it complete.
scan_whole : (len : ℕ) → scan_map len (color_all ((0, len) ∷ []) clear_map) 0 ≡ true
scan_whole len =
    (scan_map-color_all len ((0, len) ∷ []) ((refl, inr (omega arith)), tt)).1
      (λ j lt. ground (arith, lt))

-- A C_PDU of at most 800 bytes is sent in one D_PDU.
single :
    {id len : ℕ} {d : Mem} (frames : List (List Iov))
    → IsSegmented id len d 0 frames
    → len ≤ 800
    → (f : List Iov) × (frames ≡ f ∷ [])
      × (wire_len f ≡ 28 + (len - 0))
      × IsFrame (wire f) id len d (len - 0) 0
single frames (last {frame = f} le ge size is_frame) small = (f, refl, size, is_frame)
single frames (more lt size is_frame rest) small = absurd (omega (arith, lt, small))

module _ (id len : ℕ) (d : Mem) (rx0 : Receiver) (small : id % 256 < 128) (one : len ≤ 800) where
  -- What comes of the D_PDU: the C_PDU is delivered.
  abbrev Delivers : Result (Verdict × Receiver) → Type 0
  Delivers r =
      (base : Receiver) × (p : HiPdu) × (req : Mem) × (r
        ≡ ok (noerr, deliver base p (id % 256) 7 req))
      × (base.sent ≡ rx0.sent)
      × (base.saptab ≡ rx0.saptab)
      × (p.len ≡ len)
      × ((i : ℕ) → i < len → p.m (18 + i) ≡ d i)

  -- A frame that has been accepted enters dts_data with a PDU less.
  decoded :
      {seg_size offset k : ℕ} {segs : List (ℕ × ℕ)} (rx : Receiver) (req nreq : HiPdu)
      (free : List HiPdu)
      → IsFrame req.m id len d seg_size offset
      → seg_size ≤ 800
      → offset + seg_size ≤ len
      → req.ap ≡ 28 + seg_size
      → rx.free ≡ nreq ∷ free
      → Collecting (id % 256) len d rx0 segs rx (suc k)
      → (dts_decode rx req ≡ (
          nonarq_segment
            (after_frame rx req nreq free seg_size)
            (id % 256)
            len
            offset
            seg_size
            7
            req.m
          >>= λ st. ok (noerr, st)))
        × Entering (id % 256) len d rx0 segs (after_frame rx req nreq free seg_size) k
  decoded {seg_size = seg_size} {k = k} {segs = segs} rx req nreq free f le fits ea ef g =
      let st = after_frame rx req nreq free seg_size in
      let g' : Collecting (id % 256) len d rx0 segs st k = record {
        held = g.held;
        slot = g.slot;
        holds = g.holds;
        spare = omega (arith, g.spare, ap length ef);
        calm = g.calm;
        bound = g.bound;
      } in
      (
        dts_decode-frame rx req nreq free seg_size f (omega (arith, le)) ea ef
            ∙ ap (λ r. r >>= λ st. ok (noerr, st))
                (dts_data-frame st f (omega (arith, le)) (omega (arith, one))
                  (omega (arith, one, fits))),
        Collecting-Entering small g',
      )

  dts_decode-Delivers :
      (f : List Iov) (req : HiPdu)
      → wire_len f ≡ 28 + (len - 0)
      → IsFrame (wire f) id len d (len - 0) 0
      → SameBytes req.m (wire f) 0 (wire_len f)
      → req.ap ≡ wire_len f
      → Collecting (id % 256) len d rx0 [] rx0 1
      → Delivers (dts_decode rx0 req)
  dts_decode-Delivers f req size is_frame same all g =
      let whole : len - 0 ≡ len = omega arith in
      let fm : IsFrame req.m id len d len 0 =
        subst (λ n. IsFrame req.m id len d n 0) whole
          (IsFrame-same req.m is_frame (λ i a b. same i a (omega (arith, size)))) in
      let (nreq, free, ef) = nonempty rx0.free (omega (arith, g.spare)) in
      let (runs, en) =
        decoded rx0 req nreq free fm one (omega arith) (omega (arith, all, size)) ef g in
      let (base, p, r, calm, bound, len_p, bytes) =
        last-Collecting (id % 256) len d rx0 (omega (arith, one)) [] _ 0 0 len req.m en
          (frame-Carries fm (omega arith)) (scan_whole len) in
      (
        base,
        p,
        req.m,
        runs ∙ ap (λ r. r >>= λ st. ok (noerr, st)) r,
        calm,
        bound,
        len_p,
        λ i lt. bytes i (ground (arith, lt)),
      )

-- The headers of a C_PDU are read from its first four bytes.
pub s_pdu_hdr-bytes :
    (a b : Mem) → a 3 ≡ b 3 → (s_pdu_hdr a ≡ s_pdu_hdr b) × (4 ≤ s_pdu_hdr a) × (s_pdu_hdr a ≤ 6)
s_pdu_hdr-bytes a b e = (ground (arith, e), ground arith, ground arith)

-- A C_PDU of at most 800 bytes, its headers included, is sent by dts_send_uni_nonarq, with a PDU
-- free. Its ID has low eight bits below 128, and the receiver has an empty slot for it, a client
-- bound to the destination SAP, and two free PDUs. One D_PDU is sent. When exactly its bytes are in
-- the PDU that is read, dts_decode accepts it, and hands this client exactly one
-- S_UNIDATA_INDICATION, and nothing to anybody else; it is for that SAP, and has the U_PDU that was
-- sent, and its length.
pub dts_decode-dts_send_uni_nonarq :
    (st : Sender) (to : Mem) (len : ℕ) (d : Mem) (rx : Receiver) (fd : ℕ)
    → 0 < length st.free
    → len ≤ 800
    → s_pdu_hdr d ≤ len
    → st.conn.c_pdu_id % 256 < 128
    → rx.conn.nonarq_pdus (st.conn.c_pdu_id % 256) ≡ none
    → 2 ≤ length rx.free
    → (rx.saptab (d 2 % 16)).io ≡ some fd
    → (st' : Sender) × (d_pdu : List Iov) × (dts_send_uni_nonarq st to len d ≡ ok st')
      × (st'.sent ≡ st.sent ++ (d_pdu ∷ []))
      × ((req : HiPdu)
          → SameBytes req.m (wire d_pdu) 0 (wire_len d_pdu)
          → req.ap ≡ wire_len d_pdu
          → (rx' : Receiver) × (frame : Iov) × (dts_decode rx req ≡ ok (noerr, rx'))
            × (rx'.sent ≡ rx.sent ++ ((fd, frame ∷ []) ∷ []))
            × IsIndication frame (d 2 % 16) (len - s_pdu_hdr d) (at d (s_pdu_hdr d)))
dts_decode-dts_send_uni_nonarq st to len d rx fd some_free one long small vacant spare user =
    let hdr_d : 4 ≤ len = omega (arith, long, (s_pdu_hdr-bytes d d refl).1) in
    let (st', frames, runs, sent, same_conn, seg) =
      dts_send_uni_nonarq-segments st to len d some_free (omega (arith, one, some_free)) in
    let (f, only, size, is_frame) = single frames seg one in
    let start : Collecting (st.conn.c_pdu_id % 256) len d rx [] rx 1 = record {
      held = none;
      slot = vacant;
      holds = refl;
      spare = omega (arith, spare);
      calm = refl;
      bound = refl;
    } in
    (
      st',
      f,
      runs,
      sent ∙ ap (λ l. st.sent ++ l) only,
      λ d_req same all.
          (let (base, p, req, delivered, quiet, bound, len_p, bytes) =
              dts_decode-Delivers st.conn.c_pdu_id len d rx small one f d_req size is_frame same all
                start in
            let c = at p.m 18 in
            let (same, four, six) = s_pdu_hdr-bytes d c (sym (bytes 3 (omega (arith, hdr_d)))) in
            let to_user : (base.saptab (c 2 % 16)).io ≡ some fd =
              ap (λ t. (t (c 2 % 16)).io) bound
              ∙ ap (λ b. (rx.saptab (b % 16)).io) (bytes 2 (omega (arith, hdr_d)))
              ∙ user in
            let (
              frame, one, size, pre0, pre1, version, own_len, op, dest, field, err, miss, u_pdu,
            ) =
              deliver_lem base p (st.conn.c_pdu_id % 256) 7 req fd to_user (omega arith)
                (omega (arith, same, len_p, long)) (omega (arith, len_p, one)) in
            (
              deliver base p (st.conn.c_pdu_id % 256) 7 req,
              frame,
              delivered,
              one ∙ ap (λ l. l ++ ((fd, frame ∷ []) ∷ [])) quiet,
              record {
                size = omega (arith, size, same, len_p);
                preamble_high = pre0;
                preamble_low = pre1;
                version = version;
                s_len = omega (arith, own_len, size, same, len_p);
                op = op;
                dest_sap = dest ∙ ap (λ b. b % 16) (bytes 2 (omega (arith, hdr_d)));
                u_len = omega (arith, field, same, len_p);
                errored = err;
                missing = miss;
                bytes = λ i lt.
                    u_pdu i
                    ∙ bytes (s_pdu_hdr c + i) (omega (arith, lt, same, long))
                    ∙ ap (λ h. d (h + i)) (sym same);
              },
            )),
    )
