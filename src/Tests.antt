-- ===== src/Tests.antt =====
-- Runs of the model on small inputs, with the inputs that they share.
pub mod DtsRuns
pub mod SisRuns
pub mod SmtpRuns
pub mod QueueRuns
pub mod ReadRuns
pub mod StartRuns
pub mod ServiceRuns
pub mod ToolRuns
pub mod MacroRuns
use open_lib.Prelude.{ℕ, ◌+◌, none, Option, List, [], ◌∷◌, Mem, ltb, if◌then◌else◌}
use open_lib.Hiios.{HiPdu, HiIo}
use open_lib.S5066.{SisSap, Saptab, DtsConn}

abbrev pub zeroes : Mem
zeroes i = 0

-- The bytes 1, 2, 3 and so on.
abbrev pub counting : Mem
counting i = i + 1

abbrev pub new_pdu : HiPdu
new_pdu = record { m = zeroes; ap = 0; scan = 0; need = 1; len = 0; rx_map = zeroes }

-- The connection with the last C_PDU ID 7.
abbrev pub dts_conn : DtsConn
dts_conn = record {
  c_pdu_id = 7;
  rx_lwe = 0;
  rx_uwe = 0;
  acks = zeroes;
  nonarq_pdus = λ i. none;
  tx_lwe = 0;
  tx_uwe = 0;
  tx_pdus = λ i. none;
}

abbrev pub idle : HiIo
idle = record { cur_pdu = none; reqs = [] }

abbrev pub sap_in_mode : ℕ → SisSap
sap_in_mode mode = record { io = none; rank = 0; tx_mode = mode; flags = 0; n_re_tx = 0 }
