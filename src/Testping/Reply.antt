-- ===== src/Testping/Reply.antt =====
-- What test_ping answers.
use open_lib.Prelude.{
  ℕ, zero, suc, ◌-◌, ◌%◌, ◌≤◌, ◌<◌, true, ◌&&◌, none, List, [], ◌∷◌, ◌++◌, ◌≡◌, refl, ap, ◌∙◌, Mem,
  IsBytes, store-IsBytes, memcpy-front, memcpy-IsBytes, store, memcpy, leb, if◌then◌else◌, arith,
  ltb-false,
}
use open_lib.Hiios.{HiPdu, ok, hi_pdu_reset, alloc_or, hi_add_to_reqs}
use open_lib.Smtp.{toupper}
use open_lib.Testping.{PlainIo, upper_loop, test_ping_reply, test_ping}

toupper-byte : (c : ℕ) → c < 256 → toupper c % 256 ≡ toupper c
toupper-byte c h = let small : toupper c < 256 = ground arith in omega (arith, small)

upper_loop_lem :
    (k : ℕ) (m : Mem) (j : ℕ)
    → IsBytes m
    → upper_loop k m j ≡ (if leb 1 j && leb j k then toupper (m j) else m j)
unfolding upper_loop
upper_loop_lem zero m j h = ground arith
upper_loop_lem (suc k) m j h =
    let m1 = store m (suc k) (toupper (m (suc k))) in
    upper_loop_lem k m1 j (store-IsBytes m (suc k) (toupper (m (suc k))) h)
    ∙ (let byte = toupper-byte (m (suc k)) (h (suc k)) in ground (arith, byte))

-- Five to ten bytes. The request joins those of the connection, no PDU is being read, and a free PDU
-- is sent: its memory holds the first byte as it is and the others in upper case, but the length
-- that is sent is the one that this PDU had before.
pub test_ping_lem :
    (st : PlainIo) (req resp : HiPdu) (rest : List HiPdu)
    → st.free ≡ resp ∷ rest
    → IsBytes req.m
    → IsBytes resp.m
    → 5 ≤ req.ap
    → req.ap ≤ 10
    → (m : Mem) × (test_ping st req
        ≡ ok (record {
          io = record { cur_pdu = none; reqs = req ∷ st.io.reqs };
          free = rest;
          sent = st.sent ++ ((record { iov_base = m; iov_len = resp.len } ∷ []) ∷ []);
        }))
      × (m 0 ≡ req.m 0)
      × ((i : ℕ) → 0 < i → i < req.ap → m i ≡ toupper (req.m i))
unfolding test_ping test_ping_reply alloc_or hi_pdu_reset hi_add_to_reqs
test_ping_lem st req resp rest free bytes old low high =
    let m0 = memcpy resp.m 0 req.m req.ap in
    let h = memcpy-IsBytes resp.m 0 req.m req.ap old bytes in
    (
      upper_loop (req.ap - 1) m0,
      rw (ltb-false req.ap 5 low, ltb-false 10 req.ap high, free) refl,
      upper_loop_lem (req.ap - 1) m0 0 h ∙ memcpy-front resp.m req.m req.ap 0 (omega arith),
      λ i pos lt.
          upper_loop_lem (req.ap - 1) m0 i h
          ∙ (let t : (leb 1 i && leb i (req.ap - 1)) ≡ true = ground arith in
              rw t (ap toupper (memcpy-front resp.m req.m req.ap i lt))),
    )
