-- ===== src/Dts/Send/Dumps.antt =====
-- The assertions of the ARQ half of dts.c.
use open_lib.Prelude.{
  ℕ, ◌+◌, ◌-◌, ◌/◌, ◌%◌, ◌≡◌, refl, true, not, ◌||◌, List, [], ◌∷◌, Mem, at, arith, ◌==◌,
  if◌then◌else◌,
}
use open_lib.Hiios.{HiPdu, core_dump, fault, alloc_or, hi_pdu_reset}
use open_lib.S5066.{Saptab}
use open_lib.Dts.Frame.{dts_encode_start_lem}
use open_lib.Dts.Send.{Sender}
use open_lib.Errmac.{has_digit}
use open_lib.Dts.Send.Arq.{dts_send_uni_arq_seg, dts_expand_tx_window, dts_send_uni_arq}
use open_lib.Dts.Send.Unidata.{put_headers, dts_send_uni}

-- The acknowledgements are never sent: `rx_lwe` is compared with itself.
no_acks : (flags n : ℕ) → (not (has_digit flags 7) || (n == n)) ≡ true
no_acks flags n = ground arith

arq_seg-dumps :
    (st : Sender) (to : Mem) (seg_size : ℕ) (p : Mem) (flags n : ℕ) (free : List HiPdu)
    → st.free ≡ free
    → dts_send_uni_arq_seg st to seg_size p flags n ≡ fault core_dump
unfolding dts_send_uni_arq_seg alloc_or
arq_seg-dumps st to seg_size p flags n [] e = rw (no_acks flags st.conn.rx_lwe, e) refl
arq_seg-dumps st to seg_size p flags n (pdu ∷ rest) e =
    let (a, _, ap21, _, _, _, _) = dts_encode_start_lem (hi_pdu_reset pdu) 0 0 to 10 in
    rw (no_acks flags st.conn.rx_lwe, e, a, ap21) refl

send_uni_arq-dumps :
    (st : Sender) (to : Mem) (len : ℕ) (d : Mem) → dts_send_uni_arq st to len d ≡ fault core_dump
unfolding dts_send_uni_arq dts_expand_tx_window
send_uni_arq-dumps st to len d =
    let st1 : Sender = record st { conn = record st.conn { tx_uwe = st.conn.tx_uwe + 1 } } in
    rw (arq_seg-dumps st1 to 800 d 0x80 (st.conn.tx_uwe + 1) st.free refl) refl

-- In the mode 1, whether the request asks for it or its SAP has it, dts_send_uni ends in a core
-- dump: the header of an ARQ D_PDU is announced with another length than it has.
pub dts_send_uni-arq :
    (st : Sender) (saptab : Saptab) (sap now : ℕ) (m : Mem) (len d : ℕ)
    → let own = m (d - 6) / 16 % 16 in
      (if own == 0 then (saptab sap).tx_mode else own) ≡ 1
      → dts_send_uni st saptab sap now m len d ≡ fault core_dump
unfolding dts_send_uni
dts_send_uni-arq st saptab sap now m len d h =
    let (m1, hdr) = put_headers m d sap now in
    let st1 : Sender = record st { conn = record st.conn { c_pdu_id = st.conn.c_pdu_id + 1 } } in
    rw (h, send_uni_arq-dumps st1 (at m1 7) (len + hdr) (at m1 (d - hdr))) refl
