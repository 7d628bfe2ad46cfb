-- ===== src/Dts/Collect.antt =====
-- How dts_data puts a C_PDU together from its segments.
use open_lib.Prelude.{
  ℕ, ◌+◌, ◌-◌, ◌≤◌, ◌<◌, ◌≡◌, refl, sym, ap, ◌∙◌, true, Bool-cases, inl, inr, none, Option, some,
  List, [], ◌∷◌, arith, Mem, at, memcpy, ◌==◌, if◌then◌else◌, lt→ltb,
}
use open_lib.Prelude.Lists.{length}
use open_lib.Hiios.{HiPdu, ok, alloc_or, hi_pdu_reset}
use open_lib.Dts.Receive.{
  Receiver, color_map, scan_map, deliver, put_slot, take_segment, place, nonarq_segment,
}
use open_lib.Dts.Reassembly.{within, covered, color_all, clear_map}

-- The PDU `req` has the bytes of the C_PDU `c` of `len` bytes from the segment's offset on, and the
-- segment lies in the C_PDU.
abbrev pub Carries : Mem → ℕ → ℕ × ℕ → Mem → Type 0
Carries c len (offset, size) req =
    (offset + size ≤ len) × ((i : ℕ) → i < size → req (24 + i) ≡ c (offset + i))

-- The PDU in the slot, when there is one: the bytes of the segments that have come, and their map.
abbrev Holds : ℕ → Mem → List (ℕ × ℕ) → Option HiPdu → Type 0
Holds len c segs none = segs ≡ []
Holds len c segs (some p) =
    (p.len ≡ len)
    × (p.rx_map ≡ color_all segs clear_map)
    × ((i : ℕ) → covered segs i ≡ true → p.m (18 + i) ≡ c i)

-- How many PDUs dts_data still takes.
abbrev to_take : Option HiPdu → ℕ
to_take none = 1
to_take (some p) = 0

-- Some segments of a C_PDU have come, and nothing has been sent. PDUs are free for `k` more D_PDUs.
pub record Collecting (id len : ℕ) (c : Mem) (st0 : Receiver) (segs : List (ℕ × ℕ)) (st : Receiver)
    (k : ℕ) : Type 0 where
  pub held : Option HiPdu
  pub slot : st.conn.nonarq_pdus id ≡ held
  pub holds : Holds len c segs held
  pub spare : k + to_take held ≤ length st.free
  pub calm : st.sent ≡ st0.sent
  pub bound : st.saptab ≡ st0.saptab

-- What the next segment finds: the PDU `p`, which has just been put into the slot or was there.
pub record Entering (id len : ℕ) (c : Mem) (st0 : Receiver) (segs : List (ℕ × ℕ)) (st : Receiver)
    (k : ℕ) : Type 0 where
  pub base : Receiver
  pub p : HiPdu
  pub enters :
      (offset size : ℕ) (req : Mem)
      → nonarq_segment st id len offset size 7 req ≡ place base p id offset size 7 req
  pub holds : Holds len c segs (some p)
  pub spare : k ≤ length base.free
  pub calm : base.sent ≡ st0.sent
  pub bound : base.saptab ≡ st0.saptab

pub nonempty :
    (free : List HiPdu) → 0 < length free → (q : HiPdu) × (rest : List HiPdu) × (free ≡ q ∷ rest)
nonempty [] h = absurd (omega (arith, h))
nonempty (q ∷ rest) h = (q, rest, refl)

enter :
    (id len : ℕ) (c : Mem) (st0 : Receiver) (segs : List (ℕ × ℕ)) (st : Receiver) (k : ℕ)
    (held : Option HiPdu)
    → id < 128
    → st.conn.nonarq_pdus id ≡ held
    → Holds len c segs held
    → k + to_take held ≤ length st.free
    → st.sent ≡ st0.sent
    → st.saptab ≡ st0.saptab
    → Entering id len c st0 segs st k
unfolding nonarq_segment alloc_or
enter id len c st0 segs st k none small slot holds spare calm bound =
    let (q, free, e) = nonempty st.free (omega (arith, spare)) in
    let p : HiPdu = record (hi_pdu_reset q) { len = len; rx_map = clear_map } in
    record {
      base = put_slot (record st { free = free }) id p;
      p = p;
      enters = λ offset size req. rw (lt→ltb id 128 small, slot, e) refl;
      holds = (
        refl,
        ap (λ s. color_all s clear_map) (sym holds),
        λ i h. absurd (ground (arith, sym (ap (λ s. covered s i) holds) ∙ h)),
      );
      spare = omega (arith, spare, ap length e);
      calm = calm;
      bound = bound;
    }
enter id len c st0 segs st k (some p) small slot holds spare calm bound =
    let fits : (p.len == len) ≡ true = ground (arith, holds.0) in
    record {
      base = st;
      p = p;
      enters = λ offset size req. rw (lt→ltb id 128 small, slot, fits) refl;
      holds = holds;
      spare = omega (arith, spare);
      calm = calm;
      bound = bound;
    }

pub Collecting-Entering :
    {id len : ℕ} {c : Mem} {st0 : Receiver} {segs : List (ℕ × ℕ)} {st : Receiver} {k : ℕ}
    → id < 128
    → Collecting id len c st0 segs st k
    → Entering id len c st0 segs st k
Collecting-Entering small g = enter _ _ _ _ _ _ _ g.held small g.slot g.holds g.spare g.calm g.bound

-- The PDU with the bytes of one more segment.
abbrev pub with_segment : HiPdu → ℕ → ℕ → Mem → HiPdu
with_segment p offset size req = record p {
  m = memcpy p.m (18 + offset) (at req 24) size;
  rx_map = color_map size p.rx_map offset;
}

with_segment-bytes :
    (c : Mem) (len : ℕ) (segs : List (ℕ × ℕ)) (p : HiPdu) (offset size : ℕ) (req : Mem)
    → Carries c len (offset, size) req
    → ((i : ℕ) → covered segs i ≡ true → p.m (18 + i) ≡ c i)
    → (i : ℕ) → covered ((offset, size) ∷ segs) i ≡ true
    → (with_segment p offset size req).m (18 + i) ≡ c i
with_segment-bytes c len segs p offset size req (fits, has) old i h =
    elim (Bool-cases (within (offset, size) i)) [
      | inl yes_in ↦
          (let lo : offset ≤ i = ground (arith, yes_in) in
            let hi : i < offset + size = ground (arith, yes_in) in
            let at_i : offset + (i - offset) ≡ i = omega (arith, lo) in
            let from : 24 + (18 + i - (18 + offset)) ≡ 24 + (i - offset) = omega arith in
            let copied : memcpy p.m (18 + offset) (at req 24) size (18 + i)
                ≡ at req 24 (18 + i - (18 + offset)) =
              ground (arith, lo, hi) in
            copied ∙ ap req from ∙ has (i - offset) (omega (arith, lo, hi)) ∙ ap c at_i)
      | inr out ↦
          (let kept : memcpy p.m (18 + offset) (at req 24) size (18 + i) ≡ p.m (18 + i) =
              ground (arith, out) in
            kept ∙ old i (ground (arith, out, h)))
    ]

pub place-take_segment :
    (st : Receiver) (p : HiPdu) (id len offset size : ℕ) (req : Mem)
    → p.len ≡ len
    → offset + size ≤ len
    → 18 + len ≤ 2200
    → place st p id offset size 7 req ≡ ok (take_segment st p id offset size 7 req)
place-take_segment st p id len offset size req e fits room = ground (arith, e, fits, room)

module _ (id len : ℕ) (c : Mem) (st0 : Receiver) (room : 18 + len ≤ 2200) where
  -- The segment that makes it complete.
  pub last-Collecting :
      (segs : List (ℕ × ℕ)) (st : Receiver) (k : ℕ) (offset size : ℕ) (req : Mem)
      → Entering id len c st0 segs st k
      → Carries c len (offset, size) req
      → scan_map len (color_all ((offset, size) ∷ segs) clear_map) 0 ≡ true
      → (base : Receiver) × (p : HiPdu) × (nonarq_segment st id len offset size 7 req
          ≡ ok (deliver base p id 7 req))
        × (base.sent ≡ st0.sent)
        × (base.saptab ≡ st0.saptab)
        × (p.len ≡ len)
        × ((i : ℕ) → covered ((offset, size) ∷ segs) i ≡ true → p.m (18 + i) ≡ c i)
  unfolding take_segment
  last-Collecting segs st k offset size req g s closed =
      let p' = with_segment g.p offset size req in
      let st' = put_slot g.base id p' in
      let same : p'.rx_map ≡ color_all ((offset, size) ∷ segs) clear_map =
        ap (λ m. color_map size m offset) g.holds.1 in
      (
        st',
        p',
        g.enters offset size req
            ∙ place-take_segment g.base g.p id len offset size req g.holds.0 s.0 room
            ∙ ap (λ n. ok (if scan_map n p'.rx_map 0 then deliver st' p' id 7 req else st'))
                g.holds.0
            ∙ ap (λ m. ok (if scan_map len m 0 then deliver st' p' id 7 req else st')) same
            ∙ ap (λ b. ok (if b then deliver st' p' id 7 req else st')) closed,
        g.calm,
        g.bound,
        g.holds.0,
        with_segment-bytes c len segs g.p offset size req s g.holds.2,
      )
