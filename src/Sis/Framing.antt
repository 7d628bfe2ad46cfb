-- ===== src/Sis/Framing.antt =====
-- How sis_decode takes primitives off the stream.
use open_lib.Prelude.{
  ℕ, ◌+◌, ◌-◌, ◌*◌, ◌/◌, ◌%◌, ◌<◌, ◌≤◌, ◌≡◌, refl, ◌∙◌, false, some, none, List, [], ◌∷◌, ◌++◌, Mem,
  store, at, memcpy, arith, ◌==◌, ltb-false, lt→ltb,
}
use open_lib.Hiios.{
  HiPdu, Iov, ok, ◌>>=◌, hi_pdu_reset, alloc_or, hi_checkmore, hi_add_to_reqs, wire, wire_len,
}
use open_lib.Crc.Detect.{SameBytes}
use open_lib.Sis.{Sis, sis_encode_start, sis_send_bind}
use open_lib.Sis.Bind.{bind_entry, sis_bind}
use open_lib.Sis.Decode.{sis_primitive, sis_decode, too_long}

-- The primitive's length field says `v`, not above 2195 and not 0, and its bytes are there.
module _ (st : Sis) (req : HiPdu) (now v : ℕ) (p0 : req.m 0 ≡ 0x90) (p1 : req.m 1 ≡ 0xeb)
    (p2 : req.m 2 ≡ 0) (small : req.m 3 < 128) (field : req.m 3 * 256 + req.m 4 ≡ v) (low : 0 < v)
    (high : v ≤ 2195) (all : v + 5 ≤ req.ap) where
  fits : too_long req.m ≡ false
  fits = ground arith

  pub decode-primitive : sis_decode st req now ≡ (
      hi_checkmore st.free st.io (record req { len = v + 5 }) 5 >>= λ (free, io, req2).
      sis_primitive (record st { free = free; io = hi_add_to_reqs io req2 }) req2 now)
  unfolding sis_decode
  decode-primitive =
      rw
        (
          ltb-false req.ap 5 (omega arith),
          p0,
          p1,
          p2,
          fits,
          lt→ltb (req.m 3) 128 small,
          field,
          ltb-false req.ap (v + 5) all,
          not_empty,
        )
        refl
    where
      not_empty : (v + 5 == 5) ≡ false
      not_empty = ground arith

  -- The PDU of the primitive, and that of the bytes behind it.
  abbrev whole : HiPdu
  whole = record req { len = v + 5; ap = v + 5 }

  abbrev behind : HiPdu → HiPdu
  behind a = record a {
    need = 5;
    scan = 0;
    m = memcpy a.m 0 (at req.m (v + 5)) (req.ap - (v + 5));
    ap = 0 + (req.ap - (v + 5));
  }

-- A primitive of v bytes, 1 to 2195, behind a good preamble, with all its bytes there. Without more
-- bytes sis_decode hands exactly the PDU to sis_primitive, as the connection's first request, and
-- no PDU is being read. With more bytes, and a free PDU, it does the same with the PDU cut to its
-- v + 5 bytes, and the PDU that is read next has exactly the bytes that stood behind them.
pub sis_decode-splits :
    (st : Sis) (req : HiPdu) (now v : ℕ) (a : HiPdu) (rest : List HiPdu)
    → req.m 0 ≡ 0x90
    → req.m 1 ≡ 0xeb
    → req.m 2 ≡ 0
    → req.m 3 < 128
    → req.m 3 * 256 + req.m 4 ≡ v
    → 0 < v
    → v ≤ 2195
    → v + 5 ≤ req.ap
    → st.free ≡ a ∷ rest
    → (req.ap ≡ v + 5
        → sis_decode st req now
          ≡ sis_primitive
              (record st {
                io = record { cur_pdu = none; reqs = (record req { len = v + 5 }) ∷ st.io.reqs };
              })
              (record req { len = v + 5 })
              now)
      × (v + 5 < req.ap
          → (next : HiPdu) × (next.ap ≡ req.ap - (v + 5))
            × (next.need ≡ 5)
            × SameBytes next.m (at req.m (v + 5)) 0 (req.ap - (v + 5))
            × (sis_decode st req now
                ≡ sis_primitive
                    (record st {
                      free = rest;
                      io = record {
                        cur_pdu = some next;
                        reqs = (record req { len = v + 5; ap = v + 5 }) ∷ st.io.reqs;
                      };
                    })
                    (record req { len = v + 5; ap = v + 5 })
                    now))
unfolding hi_checkmore hi_add_to_reqs alloc_or hi_pdu_reset
sis_decode-splits st req now v a rest p0 p1 p2 small field low high all ef = (
  λ e.
      decode-primitive st req now v p0 p1 p2 small field low high all
      ∙ rw (ltb-false (v + 5) req.ap (omega arith)) refl,
  λ more. (
    behind st req now v p0 p1 p2 small field low high all a,
    omega arith,
    refl,
    λ i lo hi. ground arith,
    decode-primitive st req now v p0 p1 p2 small field low high all
        ∙ rw (lt→ltb (v + 5) req.ap more, ef) refl,
  ),
)

-- sis_send_bind for a SAP and a rank below 16 and a service type below 4096, with a free PDU, sends
-- nine bytes to its connection. The node that reads exactly these gives them to sis_bind, as a
-- request for that SAP whose entry has the rank, and the three digits of the service type as
-- transmission mode, flags and number of repeats.
pub sis_decode-sis_send_bind :
    (cl st : Sis) (sap rank svc_type now : ℕ) (a : HiPdu) (rest : List HiPdu) (b : HiPdu)
    (rest' : List HiPdu)
    → cl.free ≡ a ∷ rest
    → sap < 16
    → rank < 16
    → svc_type < 4096
    → st.free ≡ b ∷ rest'
    → (frame : List Iov) × (sis_send_bind cl sap rank svc_type
        ≡ ok (record cl { free = rest; sent = cl.sent ++ ((cl.fd, frame) ∷ []) }))
      × (wire_len frame ≡ 9)
      × ((req : HiPdu)
          → SameBytes req.m (wire frame) 0 9
          → req.ap ≡ 9
          → (sis_decode st req now
              ≡ sis_bind
                  (record st {
                    io = record { cur_pdu = none; reqs = (record req { len = 9 }) ∷ st.io.reqs };
                  })
                  (record req { len = 9 }))
            × (req.m 6 / 16 % 16 ≡ sap)
            × (bind_entry st.fd req.m ≡ record {
              io = some st.fd;
              rank = rank;
              tx_mode = svc_type / 256;
              flags = svc_type / 16 % 16;
              n_re_tx = svc_type % 16;
            }))
unfolding sis_send_bind sis_encode_start alloc_or hi_pdu_reset sis_primitive
sis_decode-sis_send_bind cl st sap rank svc_type now a rest b rest' ec hs hr hv ef = (
  sent,
  rw ec refl,
  refl,
  λ req same ea.
      let m5 : req.m 5 ≡ 1 = omega (arith, same 5) in
      let m6 : req.m 6 ≡ sap * 16 + rank = omega (arith, same 6) in
      let m7 : req.m 7 ≡ svc_type / 16 = omega (arith, same 7) in
      let m8 : req.m 8 ≡ svc_type % 16 * 16 = omega (arith, same 8) in
      let rank_field : req.m 6 % 16 ≡ rank = omega (arith, m6) in
      let mode_field : req.m 7 / 16 % 16 ≡ svc_type / 256 = omega (arith, m7) in
      let repeats_field : req.m 8 / 16 % 16 ≡ svc_type % 16 = omega (arith, m8) in
      let flags_field : req.m 7 / 4 % 4 * 4 + req.m 7 / 2 % 2 * 2 + req.m 7 % 2
          ≡ svc_type / 16 % 16 =
        omega (arith, m7) in
      (
        (sis_decode-splits st req now 4 b rest' (omega (arith, same 0)) (omega (arith, same 1))
                (omega (arith, same 2)) (omega (arith, same 3)) (omega (arith, same 3, same 4))
                (omega arith) (omega arith) (omega arith) ef).0
              ea
            ∙ rw m5 refl,
        omega (arith, m6),
        rw (rank_field, mode_field, flags_field, repeats_field) refl,
      ),
)
  where
    m0 : Mem
    m0 = store (store (store (store (store (store a.m 0 0x90) 1 0xeb) 2 0x00) 3 0) 4 4) 5 1

    sent : List Iov
    sent =
        record {
          iov_base =
              store (store (store m0 6 (sap * 16 % 256 + rank % 16)) 7 (svc_type / 16 % 256)) 8
                (svc_type * 16 % 256);
          iov_len = 9;
        }
        ∷ []
