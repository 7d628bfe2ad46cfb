-- ===== src/Dts/Send/Segments.antt =====
-- How dts_send_uni_nonarq cuts a C_PDU into D_PDUs.
use open_lib.Prelude.{
  ℕ, zero, suc, ◌+◌, ◌-◌, ◌*◌, ◌≤◌, ◌<◌, ◌≡◌, refl, ◌∙◌, List, [], ◌∷◌, ◌++◌, arith, Mem, lt→ltb,
  ltb-false,
}
use open_lib.Prelude.Lists.{length}
use native.Mathlib.Decide.{dec_lt}
use mathlib.Core.List.{append_assoc}
use open_lib.Hiios.{HiPdu, Iov, Result, ok, wire, wire_len}
use open_lib.Dts.Send.{Sender, nonarq_loop, dts_send_uni_nonarq}
use open_lib.Dts.Frame.{IsFrame, seg_frame, seg_frame-IsFrame, wire_len-seg_frame, nonarq_seg-sends}

-- The D_PDUs of a C_PDU of `len` bytes at `d` from `offset` on: each but the last has 800 bytes of
-- it, and more are left behind it; the last has those that are left, 800 at most, and each starts
-- where the one before it ends.
pub data IsSegmented (c_pdu_id len : ℕ) (d : Mem) : ℕ → List (List Iov) → Type 0 where
  last :
      {offset : ℕ} {frame : List Iov}
      → offset ≤ len
      → len ≤ offset + 800
      → wire_len frame ≡ 28 + (len - offset)
      → IsFrame (wire frame) c_pdu_id len d (len - offset) offset
      → IsSegmented c_pdu_id len d offset (frame ∷ [])
  more :
      {offset : ℕ} {frame : List Iov} {frames : List (List Iov)}
      → offset + 800 < len
      → wire_len frame ≡ 828
      → IsFrame (wire frame) c_pdu_id len d 800 offset
      → IsSegmented c_pdu_id len d (offset + 800) frames
      → IsSegmented c_pdu_id len d offset (frame ∷ frames)

module _ (to : Mem) (len : ℕ) (d : Mem) where
  -- What has been sent from `offset` on.
  abbrev Sends : Sender → ℕ → Result Sender → Type 0
  Sends st offset r =
      (st' : Sender) × (frames : List (List Iov)) × (r ≡ ok st')
      × (st'.sent ≡ st.sent ++ frames)
      × (st'.conn ≡ st.conn)
      × IsSegmented st.conn.c_pdu_id len d offset frames

  nonarq_loop-Sends :
      (fuel : ℕ) (st : Sender) (offset : ℕ) (free : List HiPdu)
      → st.free ≡ free
      → offset ≤ len
      → len - offset < fuel
      → 0 < length free
      → len - offset ≤ 800 * length free
      → Sends st offset (nonarq_loop fuel st to len d offset)
  unfolding nonarq_loop
  nonarq_loop-Sends zero st offset free e lo enough some_free many = absurd (omega arith)
  nonarq_loop-Sends (suc fuel) st offset [] e lo enough some_free many = absurd (omega arith)
  nonarq_loop-Sends (suc fuel) st offset (pdu ∷ rest) e lo enough some_free many =
      elim (dec_lt 800 (len - offset)) [
        | no small ↦
            let frame = seg_frame pdu to st.conn.c_pdu_id len d (len - offset) offset in
            (
              record st { free = rest; sent = st.sent ++ (frame ∷ []) },
              frame ∷ [],
              rw
                  (
                    ltb-false 800 (len - offset) (omega (arith, small)),
                    nonarq_seg-sends st to len d (len - offset) offset pdu rest e,
                  )
                  refl,
              refl,
              refl,
              IsSegmented.last lo (omega (arith, small))
                  (wire_len-seg_frame pdu to st.conn.c_pdu_id len d (len - offset) offset)
                  (seg_frame-IsFrame pdu to st.conn.c_pdu_id len d (len - offset) offset),
            )
        | yes big ↦
            let frame = seg_frame pdu to st.conn.c_pdu_id len d 800 offset in
            let st1 : Sender = record st { free = rest; sent = st.sent ++ (frame ∷ []) } in
            let (st', frames, r, s, c, seg) =
              nonarq_loop-Sends fuel st1 (offset + 800) rest refl (omega arith) (omega arith)
                (omega arith) (omega arith) in
            (
              st',
              frame ∷ frames,
              rw (lt→ltb 800 (len - offset) big, nonarq_seg-sends st to len d 800 offset pdu rest e)
                  r,
              s ∙ append_assoc st.sent (frame ∷ []) frames,
              c,
              IsSegmented.more (omega (arith, big))
                  (wire_len-seg_frame pdu to st.conn.c_pdu_id len d 800 offset)
                  (seg_frame-IsFrame pdu to st.conn.c_pdu_id len d 800 offset) seg,
            )
      ]

-- When a PDU is free, and one for each 800 bytes, dts_send_uni_nonarq returns, the connection is
-- as before, and the D_PDUs sent carry the C_PDU in order: frames with 800 bytes each, then a last
-- one with what is left, of 800 bytes at most.
pub dts_send_uni_nonarq-segments :
    (st : Sender) (to : Mem) (len : ℕ) (d : Mem)
    → 0 < length st.free
    → len ≤ 800 * length st.free
    → (st' : Sender) × (frames : List (List Iov)) × (dts_send_uni_nonarq st to len d ≡ ok st')
      × (st'.sent ≡ st.sent ++ frames)
      × (st'.conn ≡ st.conn)
      × IsSegmented st.conn.c_pdu_id len d 0 frames
unfolding dts_send_uni_nonarq
dts_send_uni_nonarq-segments st to len d some_free free =
    nonarq_loop-Sends to len d (len + 1) st 0 st.free refl (omega arith) (omega arith) some_free
      (omega arith)
