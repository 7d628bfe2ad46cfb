-- ===== src/Tests/ServiceRuns.antt =====
-- Runs of sis.c and dts.c from one client to the other.
use open_lib.Prelude.{
  ℕ, ◌+◌, ◌<◌, some, none, store, List, [], ◌∷◌, ◌++◌, ◌≡◌, ◌≢◌, refl, inl, arith,
}
use open_lib.Hiios.{HiPdu, Iov, ok, noerr, wire, wire_len}
use open_lib.Dts.Receive.{dts_decode, Receiver, nonarq_segment, deliver}
use open_lib.Dts.Reassembly.{color_all, clear_map}
use open_lib.Dts.Send.Unidata.{put_headers}
use open_lib.Crc.Detect.{SameBytes}
use open_lib.Sis.{Sis, sis_send_bind}
use open_lib.Sis.Handshake.{read_whole, sis_decode-sis_bind}
use open_lib.Sis.Unidata.{sis_uni}
use open_lib.Sis.Decode.{sis_decode}
use open_lib.Sis.Transit.{sis_decode-sis_uni}
use open_lib.Dts.Again.{nonarq_segment-deliver}
use open_lib.Tests.{zeroes, counting, new_pdu, dts_conn, idle, sap_in_mode}

-- Two free PDUs; every SAP is bound to the connection 9.
abbrev receiver : Receiver
receiver = record {
  io = idle;
  conn = dts_conn;
  free = new_pdu ∷ new_pdu ∷ [];
  saptab = λ i. record (sap_in_mode 2) { io = some 9 };
  sent = [];
}

-- Connection 5 of a node with a DTS connection and two free PDUs.
abbrev node : Sis
node = record {
  fd = 5;
  io = idle;
  sap = 3;
  free = new_pdu ∷ new_pdu ∷ [];
  saptab = λ i. sap_in_mode 2;
  dts = some (some dts_conn);
  dts_sent = [];
  sent = [];
  hmtp = [];
}

abbrev client : Sis
client = record node { free = []; dts = none }

abbrev newcomer : Sis
newcomer = record client { free = new_pdu ∷ [] }

sis_decode-sis_bind_example :
    (frame : List Iov) × (sis_send_bind newcomer 3 5 0x200
      ≡ ok (record newcomer { free = []; sent = [] ++ ((5, frame) ∷ []) }))
    × (wire_len frame ≡ 9)
    × ((req : HiPdu)
        → SameBytes req.m (wire frame) 0 9
        → req.ap ≡ 9
        → (st' : Sis) × (reply : List Iov) × (sis_decode node req 0 ≡ ok (noerr, st'))
          × (st'.saptab 3 ≡ record { io = some 5; rank = 5; tx_mode = 2; flags = 0; n_re_tx = 0 })
          × ((i : ℕ) → i ≢ 3 → st'.saptab i ≡ node.saptab i)
          × (st'.sap ≡ 3)
          × (st'.sent ≡ [] ++ ((5, reply) ∷ []))
          × (wire_len reply ≡ 9)
          × ((cl' : Sis) (ind : HiPdu)
              → SameBytes ind.m (wire reply) 0 9
              → ind.ap ≡ 9
              → sis_decode cl' ind 0 ≡ ok (noerr, read_whole cl' (record ind { len = 9 }))))
sis_decode-sis_bind_example =
    sis_decode-sis_bind newcomer node 3 5 0x200 0 0 new_pdu [] new_pdu (new_pdu ∷ []) refl
      (omega arith) (omega arith) (omega arith) refl refl

-- A request for the SAP 3 with a U_PDU of 400 bytes.
abbrev request : HiPdu
request = record new_pdu { m = store (store (store counting 6 3) 15 1) 16 144; ap = 417; len = 417 }

sis_decode-sis_uni_example :
    (st' : Sis) × (d_pdu : List Iov) × (sis_uni node request 0 ≡ ok (noerr, st'))
    × (st'.dts_sent ≡ [] ++ (d_pdu ∷ []))
    × ((d_req : HiPdu)
        → SameBytes d_req.m (wire d_pdu) 0 (wire_len d_pdu)
        → d_req.ap ≡ wire_len d_pdu
        → (rx' : Receiver) × (frame : Iov) × (dts_decode receiver d_req ≡ ok (noerr, rx'))
          × (rx'.sent ≡ [] ++ ((9, frame ∷ []) ∷ []))
          × ((ind : HiPdu)
              → SameBytes ind.m frame.iov_base 0 frame.iov_len
              → ind.ap ≡ frame.iov_len
              → (cl' : Sis) × (u : Iov) × (sis_decode client ind 0 ≡ ok (noerr, cl'))
                × (cl'.hmtp ≡ [] ++ (u ∷ []))
                × (u.iov_len ≡ 400)
                × ((i : ℕ) → i < 400 → u.iov_base i ≡ request.m (17 + i))))
unfolding put_headers
sis_decode-sis_uni_example =
    sis_decode-sis_uni node request 0 dts_conn receiver 9 client 0 refl refl (omega arith) refl
      (omega arith) refl refl (omega arith) (omega arith) refl (omega arith) refl

-- A C_PDU of 1000 bytes that has come.
abbrev complete : HiPdu
complete = record new_pdu { len = 1000; rx_map = color_all ((800, 200) ∷ (0, 800) ∷ []) clear_map }

nonarq_segment-deliver_example :
    (st' : Receiver) × (frame : Iov) × (nonarq_segment
        (deliver receiver complete 5 7 zeroes)
        5
        1000
        800
        200
        7
        zeroes
      ≡ ok st')
    × (st'.sent ≡ (deliver receiver complete 5 7 zeroes).sent ++ ((9, frame ∷ []) ∷ []))
    × (frame.iov_len ≡ 1018)
nonarq_segment-deliver_example =
    nonarq_segment-deliver receiver complete 5 zeroes ((800, 200) ∷ (0, 800) ∷ []) 800 200 zeroes 9
      (omega arith) (omega arith) refl
      ((refl, inl refl), ((refl, inl refl), ((refl, inl refl), tt))) (λ j lt. ground arith)
      (omega arith) (omega arith) refl
