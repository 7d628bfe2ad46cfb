-- ===== src/Hiread/Protocols.antt =====
-- The decoders of the SIS and DTS layers, as hi_read calls them.
use open_lib.Prelude.{ℕ, true, none, some}
use open_lib.Hiios.{hi_pdu_alloc}
use open_lib.Sis.{Sis}
use open_lib.Sis.Decode.{with_cur, sis_decode}
use open_lib.Dts.Receive.{Receiver, set_cur, dts_decode}
use open_lib.Hiread.{Protocol}

-- The time of day goes into `sis_uni`.
unfoldable pub sis : ℕ → Protocol Sis
unfolding hi_pdu_alloc
sis now = record {
  cur_pdu = λ st. st.io.cur_pdu;
  set_cur_pdu = with_cur;
  alloc = λ st. elim (hi_pdu_alloc st.free) [
    | none ↦ none
    | some (pdu, rest) ↦ some (with_cur (record st { free = rest }) pdu)
  ];
  decode = λ st req. sis_decode st req now;
  closes = true;
}

unfoldable pub dts : Protocol Receiver
unfolding hi_pdu_alloc
dts = record {
  cur_pdu = λ st. st.io.cur_pdu;
  set_cur_pdu = set_cur;
  alloc = λ st. elim (hi_pdu_alloc st.free) [
    | none ↦ none
    | some (pdu, rest) ↦ some (set_cur (record st { free = rest }) pdu)
  ];
  decode = dts_decode;
  closes = true;
}
