-- ===== src/Tests/SisRuns.antt =====
-- Runs of sis.c.
use open_lib.Prelude.{store, Mem, ◌≡◌, refl, some, none, [], ◌∷◌, arith, if◌then◌else◌, ◌==◌}
use open_lib.Hiios.{alloc_or, Result, HiPdu, ok, fault, noerr}
use open_lib.Dts.Send.{
  Sender, dts_send_uni_nonarq, dts_send_uni_nonarq_seg, dts_encode_start, dts_send_uni_final,
}
use open_lib.Dts.Addr.{dts_enc_two_addr}
use open_lib.Dts.Send.Unidata.{ttl_field, dts_send_uni}
use open_lib.Sis.Transit.{sender_of}
use open_lib.Sis.Unidata.{confirm}
use open_lib.Sis.{Sis}
use open_lib.Sis.Bind.{sis_bind}
use open_lib.Sis.Decode.{sis_primitive, sis_decode}
use open_lib.Sis.Ownership.{sis_bind_lem}
use open_lib.Sis.Framing.{sis_decode-splits}
use open_lib.Sis.Confirm.{Confirms, sis_uni-put_headers}
use open_lib.Tests.{zeroes, new_pdu, dts_conn, idle, sap_in_mode}

-- The connection 4, with the SAP 3 owned by the connection 9.
abbrev node : Sis
node = record {
  fd = 4;
  io = idle;
  sap = 0;
  free = new_pdu ∷ new_pdu ∷ [];
  saptab = λ i. if i == 3 then (record (sap_in_mode 2) { io = some 9 }) else sap_in_mode 2;
  dts = some (some dts_conn);
  dts_sent = [];
  sent = [];
  hmtp = [];
}

-- A request with the SAP 3 and the rank 5 in byte 6.
abbrev bind_pdu : HiPdu
bind_pdu = record new_pdu { m = λ i. if i == 6 then 0x35 else 0; len = 9 }

sis_bind_lem_example : (st' : Sis) × (sis_bind node bind_pdu ≡ ok (noerr, st'))
sis_bind_lem_example = let r = sis_bind_lem node bind_pdu new_pdu new_pdu [] refl refl in (r.0, r.1)

-- Bytes with the preamble and the length 1, and one byte more than that.
abbrev short_pdu : HiPdu
short_pdu = record new_pdu {
  m = λ i. if i == 0 then 0x90 else if i == 1 then 0xeb else if i == 4 then 1 else 2;
  ap = 6;
}

sis_decode-splits_example :
    sis_decode node
      (record short_pdu { m = λ i. if i == 2 then 0 else if i == 3 then 0 else short_pdu.m i })
      0
    ≡ sis_primitive
        (record node {
          io = record {
            cur_pdu = none;
            reqs =
                (record short_pdu {
                  m = λ i. if i == 2 then 0 else if i == 3 then 0 else short_pdu.m i;
                  len = 6;
                })
                ∷ [];
          };
        })
        (record short_pdu {
          m = λ i. if i == 2 then 0 else if i == 3 then 0 else short_pdu.m i;
          len = 6;
        })
        0
sis_decode-splits_example =
    (sis_decode-splits node
        (record short_pdu { m = λ i. if i == 2 then 0 else if i == 3 then 0 else short_pdu.m i }) 0
        1 new_pdu (new_pdu ∷ []) refl refl refl (omega arith) refl (omega arith) (omega arith)
        (omega arith) refl).0
      refl

-- A request for the SAP 3 with four bytes and the delivery mode 2, and no time to live.
abbrev four_bytes : HiPdu
four_bytes = record new_pdu { m = store (store (store zeroes 6 3) 11 8) 16 4; ap = 21; len = 21 }

-- What dts_send_uni returns, when it returns.
abbrev returned : Result (Sender × Mem) → Sender × Mem
returned (ok r) = r
returned (fault e) = (sender_of node dts_conn, zeroes)

abbrev handed_on : Sender × Mem
handed_on = returned (dts_send_uni (sender_of node dts_conn) node.saptab 0 0 four_bytes.m 4 17)

sis_uni-put_headers_example : Confirms node four_bytes 0 (confirm node four_bytes.m) 100
unfolding dts_send_uni dts_send_uni_nonarq ttl_field dts_send_uni_nonarq_seg alloc_or
    dts_encode_start dts_enc_two_addr dts_send_uni_final
sis_uni-put_headers_example =
    (sis_uni-put_headers node four_bytes 0 dts_conn handed_on.0 handed_on.1 new_pdu [] refl refl
        refl refl).0
      refl
