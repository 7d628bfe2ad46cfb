-- ===== src/Sis/Handshake.antt =====
-- How a client binds a SAP: the request, the node, and the answer.
use open_lib.Prelude.{
  ℕ, ◌/◌, ◌%◌, ◌<◌, ◌≡◌, ◌≢◌, refl, ◌∙◌, none, some, List, [], ◌∷◌, ◌++◌, arith, ltb-false,
}
use open_lib.Hiios.{HiPdu, Iov, ok, noerr, hi_checkmore, hi_add_to_reqs, wire, wire_len}
use open_lib.Crc.Detect.{SameBytes}
use open_lib.Sis.{Sis, sis_send_bind, sis_send_bind_ok}
use open_lib.Sis.Bind.{bind_entry, set_sap, sis_bind, sis_bind_ok}
use open_lib.Sis.Decode.{sis_primitive, sis_decode}
use open_lib.Sis.Framing.{decode-primitive, sis_decode-sis_send_bind}
use open_lib.Sis.Ownership.{acceptance, encode_start-free}

sis_bind-free :
    (st : Sis) (req a : HiPdu) (rest : List HiPdu) (sap : ℕ)
    → req.len ≡ 9
    → req.m 6 / 16 % 16 ≡ sap
    → st.free ≡ a ∷ rest
    → (st.saptab sap).io ≡ none
    → sis_bind st req
      ≡ ok (
        noerr,
        record st {
          free = rest;
          saptab = set_sap st.saptab sap (bind_entry st.fd req.m);
          sap = sap;
          sent = st.sent ++ (acceptance st.fd a sap ∷ []);
        },
      )
unfolding sis_bind sis_send_bind_ok
sis_bind-free st req a rest sap el es ef vacant =
    rw (el, es, vacant, ef, encode_start-free a rest 3 9) refl

-- The client's connection with one more request, and nothing being read.
abbrev pub read_whole : Sis → HiPdu → Sis
read_whole cl ind = record cl { io = record { cur_pdu = none; reqs = ind ∷ cl.io.reqs } }

sis_decode-acceptance :
    (cl : Sis) (ind a : HiPdu) (fd sap now : ℕ)
    → SameBytes ind.m (wire (acceptance fd a sap).1) 0 9
    → ind.ap ≡ 9
    → sis_decode cl ind now ≡ ok (noerr, read_whole cl (record ind { len = 9 }))
unfolding hi_checkmore hi_add_to_reqs sis_primitive sis_bind_ok
sis_decode-acceptance cl ind a fd sap now same all =
    let op : ind.m 5 ≡ 3 = omega (arith, same 5) in
    decode-primitive cl ind now 4 (omega (arith, same 0)) (omega (arith, same 1))
      (omega (arith, same 2)) (omega (arith, same 3)) (omega (arith, same 3, same 4)) (omega arith)
      (omega arith) (omega (arith, all))
    ∙ rw (ltb-false 9 ind.ap (omega (arith, all)), op) refl

-- sis_send_bind for a SAP and a rank below 16 and a service type below 4096, with a free PDU at the
-- client and at the node, where the SAP is free. It sends nine bytes. The node that reads exactly
-- these binds the SAP to the connection, with the rank, and the three digits of the service type as
-- transmission mode, flags and number of repeats, leaves the other SAPs alone, and answers with nine
-- bytes. The client that reads exactly these accepts them.
pub sis_decode-sis_bind :
    (cl st : Sis) (sap rank svc_type now now' : ℕ) (a : HiPdu) (rest : List HiPdu) (b : HiPdu)
    (rest' : List HiPdu)
    → cl.free ≡ a ∷ rest
    → sap < 16
    → rank < 16
    → svc_type < 4096
    → st.free ≡ b ∷ rest'
    → (st.saptab sap).io ≡ none
    → (frame : List Iov) × (sis_send_bind cl sap rank svc_type
        ≡ ok (record cl { free = rest; sent = cl.sent ++ ((cl.fd, frame) ∷ []) }))
      × (wire_len frame ≡ 9)
      × ((req : HiPdu)
          → SameBytes req.m (wire frame) 0 9
          → req.ap ≡ 9
          → (st' : Sis) × (reply : List Iov) × (sis_decode st req now ≡ ok (noerr, st'))
            × (st'.saptab sap ≡ record {
              io = some st.fd;
              rank = rank;
              tx_mode = svc_type / 256;
              flags = svc_type / 16 % 16;
              n_re_tx = svc_type % 16;
            })
            × ((i : ℕ) → i ≢ sap → st'.saptab i ≡ st.saptab i)
            × (st'.sap ≡ sap)
            × (st'.sent ≡ st.sent ++ ((st.fd, reply) ∷ []))
            × (wire_len reply ≡ 9)
            × ((cl' : Sis) (ind : HiPdu)
                → SameBytes ind.m (wire reply) 0 9
                → ind.ap ≡ 9
                → sis_decode cl' ind now' ≡ ok (noerr, read_whole cl' (record ind { len = 9 }))))
sis_decode-sis_bind cl st sap rank svc_type now now' a rest b rest' ec hs hr hv ef vacant =
    let (frame, sends, size, read) =
      sis_decode-sis_send_bind cl st sap rank svc_type now a rest b rest' ec hs hr hv ef in
    (
      frame,
      sends,
      size,
      λ req same all.
          (let (decoded, same_sap, entry) = read req same all in
            let st1 = read_whole st (record req { len = 9 }) in
            (
              record st1 {
                free = rest';
                saptab = set_sap st.saptab sap (bind_entry st.fd req.m);
                sap = sap;
                sent = st.sent ++ (acceptance st.fd b sap ∷ []);
              },
              (acceptance st.fd b sap).1,
              decoded
                  ∙ sis_bind-free st1 (record req { len = 9 }) b rest' sap refl same_sap ef vacant,
              ground arith ∙ entry,
              λ i ne. ground (arith, ne),
              refl,
              refl,
              refl,
              λ cl' ind same' all'. sis_decode-acceptance cl' ind b st.fd sap now' same' all',
            )),
    )
