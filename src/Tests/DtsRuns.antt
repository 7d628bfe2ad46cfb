-- ===== src/Tests/DtsRuns.antt =====
-- Runs of errmac.h and dts.c.
use open_lib.Prelude.{
  ℕ, ◌%◌, ◌<◌, ◌≡◌, ◌≢◌, refl, true, inl, inr, some, List, [], ◌∷◌, ◌++◌, Mem, IsBytes, store,
  arith, eqb_iff, ◌==◌, if◌then◌else◌,
}
use open_lib.Hiios.{HiPdu, Iov, core_dump, ok, noerr, ◌>>=◌, fault, hi_pdu_reset, wire}
use open_lib.Errmac.{get_nibble, set_nibble, get_bit, set_bit}
use open_lib.Errmac.Nibbles.{get_nibble-set_nibble}
use open_lib.Prelude.Tables.{table, table_holds}
use open_lib.Errmac.Bitmap.{get_bit-set_bit}
use open_lib.Crc.{
  crc_16_s5066_batch, crc_32_s5066_batch, crc_batch, crc_16_s5066, crc_32_s5066, crc_rounds,
  crc_round,
}
use open_lib.Crc.Detect.{crc_batch_detects}
use open_lib.Dts.Addr.{dts_enc_two_addr, set_zeroes, copy_nibbles}
use open_lib.Dts.AddrNibbles.{dts_enc_two_addr-nibble}
use open_lib.Dts.Send.{
  my_station_addr, Sender, dts_send_uni_nonarq, dts_encode_start, nonarq_header, nonarq_fields,
  put_crc32,
}
use open_lib.Dts.Send.Unidata.{dts_send_uni}
use open_lib.Dts.Send.Segments.{IsSegmented, dts_send_uni_nonarq-segments}
use open_lib.Dts.Send.Dumps.{dts_send_uni-arq}
use open_lib.Dts.Frame.{IsFrame, seg_frame, seg_frame-IsFrame}
use open_lib.Dts.Delivery.{deliver_lem}
use open_lib.Dts.Receive.{Receiver, nonarq_segment, dts_decode, deliver, scan_map}
use open_lib.Dts.RoundTrip.{IsFrame-same, dts_decode-nonarq_seg, left_over, after_frame}
use open_lib.Dts.Refusal.{Refuses, dts_decode-left_over}
use open_lib.Dts.Corruption.{dts_decode-one_byte}
use open_lib.Dts.Reassembly.{covered, color_all, clear_map, scan_map-color_all}
use open_lib.Tests.{zeroes, counting, new_pdu, dts_conn, idle, sap_in_mode}

abbrev sender : Sender
sender = record { conn = dts_conn; free = new_pdu ∷ []; sent = [] }

-- A segment of three bytes, the whole of its C_PDU, and a PDU with what is sent for it.
abbrev frame : List Iov
frame = seg_frame new_pdu zeroes 7 3 counting 3 0

abbrev received : HiPdu
received = record new_pdu { m = wire frame; ap = 31 }

abbrev receiver : Receiver
receiver = record {
  io = idle;
  conn = dts_conn;
  free = new_pdu ∷ [];
  saptab = λ i. sap_in_mode 2;
  sent = [];
}

frame-IsFrame : IsFrame (wire frame) 7 3 counting 3 0
frame-IsFrame = seg_frame-IsFrame new_pdu zeroes 7 3 counting 3 0

dts_decode-nonarq_seg_example : dts_decode receiver received ≡ (
    nonarq_segment (after_frame receiver received new_pdu [] 3) (7 % 256) 3 0 3 7 received.m
    >>= λ st'. ok (noerr, st'))
dts_decode-nonarq_seg_example =
    (dts_decode-nonarq_seg sender zeroes 3 counting 3 0 new_pdu [] receiver received new_pdu [] refl
      (omega arith) (omega arith) (omega arith) refl (λ i a b. refl) refl).2

dts_decode-left_over_example :
    Refuses
      (after_frame receiver received new_pdu [] 3)
      (record (left_over receiver received new_pdu [] 3) { ap = 6 })
unfolding crc_32_s5066_batch crc_batch crc_32_s5066 crc_rounds crc_round put_crc32 nonarq_header
    dts_encode_start
dts_decode-left_over_example =
    (dts_decode-left_over receiver received new_pdu []
      (record (left_over receiver received new_pdu [] 3) { ap = 6 }) frame-IsFrame (omega arith)
      refl refl (omega arith) (λ i a b. refl) (omega arith)).1

-- The bytes of the frame as bytes, and with a wrong byte 24.
abbrev sound : Mem
sound i = wire frame i % 256

abbrev corrupt : Mem
corrupt i = if i == 24 then 77 else sound i

bytes_table : table (λ i. sound i == wire frame i) 31 ≡ true
unfolding table crc_32_s5066_batch crc_16_s5066_batch crc_batch crc_32_s5066 crc_16_s5066 crc_rounds
    crc_round put_crc32 nonarq_header nonarq_fields dts_encode_start dts_enc_two_addr set_zeroes
    copy_nibbles set_nibble get_nibble hi_pdu_reset
bytes_table = refl

sound-IsFrame : IsFrame sound 7 3 counting 3 0
sound-IsFrame = IsFrame-same sound frame-IsFrame (λ i a b.
    (eqb_iff (sound i) (wire frame i)).0
      (table_holds (λ i. sound i == wire frame i) 31 bytes_table i (omega arith)))

dts_decode-one_byte_example : Refuses receiver (record received { m = corrupt })
dts_decode-one_byte_example =
    dts_decode-one_byte receiver (record received { m = corrupt }) sound 7 3 counting 3 0 24
      sound-IsFrame (omega arith) (λ i. omega arith) corrupt-IsBytes refl (omega arith)
      (omega arith) (omega arith, λ i a b ne. ground (arith, ne))
  where
    corrupt-IsBytes : IsBytes corrupt
    corrupt-IsBytes i = ground arith

scan_map-color_all_example :
    (scan_map 13 (color_all ((0, 8) ∷ (8, 5) ∷ []) clear_map) 0 ≡ true)
    × ((j : ℕ) → j < 13 → covered ((0, 8) ∷ (8, 5) ∷ []) j ≡ true)
scan_map-color_all_example = (
  (scan_map-color_all 13 ((0, 8) ∷ (8, 5) ∷ []) ((refl, inl refl), ((refl, inr refl), tt))).1
      (λ j h. ground arith),
  λ j h. ground arith,
)

dts_send_uni_nonarq-segments_example :
    (st' : Sender) × (frames : List (List Iov)) × (dts_send_uni_nonarq sender zeroes 3 counting
      ≡ ok st')
    × (st'.sent ≡ [] ++ frames)
    × (st'.conn ≡ dts_conn)
    × IsSegmented 7 3 counting 0 frames
dts_send_uni_nonarq-segments_example =
    dts_send_uni_nonarq-segments sender zeroes 3 counting (omega arith) (omega arith)

dts_send_uni-arq_example :
    dts_send_uni sender (λ i. sap_in_mode 1) 3 0 zeroes 5 17 ≡ fault core_dump
dts_send_uni-arq_example = dts_send_uni-arq sender (λ i. sap_in_mode 1) 3 0 zeroes 5 17 refl

crc_batch_detects_example :
    crc_16_s5066_batch zeroes 2 20 ≢ crc_16_s5066_batch (store zeroes 9 1) 2 20
crc_batch_detects_example =
    (crc_batch_detects zeroes (store zeroes 9 1) 2 20 9 (λ i. omega arith) (λ i. ground arith)
      (omega arith) (omega arith) (omega arith, λ i a b ne. ground (arith, ne))).1

dts_enc_two_addr-nibble_example :
    get_nibble (dts_enc_two_addr zeroes 6 zeroes my_station_addr).0 6 13 ≡ 7
unfolding get_nibble
dts_enc_two_addr-nibble_example =
    (dts_enc_two_addr-nibble zeroes 6 zeroes my_station_addr 13 (omega arith)).1

get_nibble-set_nibble_example : get_nibble (set_nibble zeroes 6 3 9) 6 3 ≡ 9
get_nibble-set_nibble_example = get_nibble-set_nibble zeroes 6 3 3 9

get_bit-set_bit_example : get_bit (set_bit zeroes 9) 13 ≡ true
get_bit-set_bit_example = get_bit-set_bit zeroes 9 13 (λ i. omega arith)

-- A complete C_PDU of seven bytes for the SAP 3, with three of a U_PDU, and the SAP bound to 9.
abbrev c_pdu_pdu : HiPdu
c_pdu_pdu = record new_pdu { m = λ i. if i == 20 then 3 else 0; len = 7 }

deliver_lem_example :
    (out : Iov) × ((deliver
        (record receiver { saptab = λ i. record (sap_in_mode 2) { io = some 9 } })
        c_pdu_pdu
        5
        7
        zeroes).sent
      ≡ [] ++ ((9, out ∷ []) ∷ []))
deliver_lem_example =
    let r =
      deliver_lem (record receiver { saptab = λ i. record (sap_in_mode 2) { io = some 9 } })
        c_pdu_pdu 5 7 zeroes 9 refl (omega arith) (omega arith) (omega arith) in
    (r.0, r.1)
