-- ===== src/Dts/Send/Unidata.antt =====
-- dts_send_uni of dts.c: the C_PCI and the S_PDU header in front of a U_PDU, and the choice of the
-- transmission mode.
use Prim.Native.Nat.{bit_or}
use open_lib.Prelude.{
  ℕ, zero, suc, ◌+◌, ◌-◌, ◌*◌, ◌/◌, ◌%◌, ◌^◌, Mem, store, at, ◌==◌, if◌then◌else◌,
}
use open_lib.Hiios.{Result, ok, ◌>>=◌}
use open_lib.S5066.{Saptab, sign_extend}
use open_lib.Dts.Send.{Sender, dts_send_uni_nonarq}
use open_lib.Dts.Send.Arq.{dts_send_uni_arq}

-- `ttl`, as the 32-bit pattern of the `int`, for a U_PDU at `d` of the memory `m`. The two low
-- bytes are `char`s.
unfoldable pub ttl_field : Mem → ℕ → ℕ
ttl_field m d =
    bit_or (bit_or (m (d - 5) % 16 * 2 ^ 16) (sign_extend (m (d - 4)) * 2 ^ 8 % 2 ^ 32))
      (sign_extend (m (d - 3)))

-- The headers, for the connection's SAP `sap` at the time `now`: the memory, and how many bytes
-- they are.
unfoldable pub put_headers : Mem → ℕ → ℕ → ℕ → Mem × ℕ
unfolding ttl_field
put_headers m d sap now =
    let priority = m (d - 11) / 16 % 16 in
    let dest_sap = m (d - 11) % 16 in
    let saps = sap * 16 % 256 + dest_sap in
    let ttl = ttl_field m d in
    let ttd = (now + ttl) % 2 ^ 32 in
    let s0 =
      store (store (store (store m (d - 4) 0x00) (d - 3) priority) (d - 2) saps) (d - 1) 0x00 in
    let t0 = store (store (store m (d - 6) 0x00) (d - 5) priority) (d - 4) saps in
    let t1 =
      store (store (store t0 (d - 3) (0x40 + ttd / 2 ^ 16 % 16)) (d - 2) (ttd / 2 ^ 8 % 256))
        (d - 1) (ttd % 256) in
    if ttl == 0 then (s0, 4) else (t1, 6)

-- `n` times dts_send_uni_nonarq.
unfoldable pub repeat_nonarq : ℕ → Sender → Mem → ℕ → Mem → Result Sender
repeat_nonarq zero st to len d = ok st
repeat_nonarq (suc n) st to len d = do
  st' ← dts_send_uni_nonarq st to len d
  repeat_nonarq n st' to len d

-- `d` is the place of the U_PDU in the request's memory `m`; the result has the memory too.
unfoldable pub dts_send_uni : Sender → Saptab → ℕ → ℕ → Mem → ℕ → ℕ → Result (Sender × Mem)
unfolding put_headers repeat_nonarq
dts_send_uni st saptab sap now m len d =
    let own = m (d - 6) / 16 % 16 in
    let tx_mode = if own == 0 then (saptab sap).tx_mode else own in
    let n_re_tx = if own == 0 then (saptab sap).n_re_tx else m (d - 5) / 16 % 16 in
    let st1 = record st { conn = record st.conn { c_pdu_id = st.conn.c_pdu_id + 1 } } in
    let (m1, hdr) = put_headers m d sap now in
    let to = at m1 7 in
    let c_pdu = at m1 (d - hdr) in
    let arq = (do st2 ← dts_send_uni_arq st1 to (len + hdr) c_pdu; ok (st2, m1)) in
    let nonarq = (do
      st2 ← dts_send_uni_nonarq st1 to (len + hdr) c_pdu
      st3 ← repeat_nonarq (n_re_tx - 1) st2 to (len + hdr) c_pdu
      ok (st3, m1)) in
    if tx_mode == 1 then arq else nonarq
