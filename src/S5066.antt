-- ===== src/S5066.antt =====
-- The state of s5066.h: the SAP table and the DTS connection, and the constants of the layers.
use open_lib.Prelude.{ℕ, ◌+◌, ◌-◌, ◌^◌, Option, Mem, ltb, if◌then◌else◌}
use open_lib.Hiios.{HiPdu}

-- `struct sis_sap`. The connection is known by a number.
pub record SisSap : Type 0 where
  pub io : Option ℕ
  pub rank : ℕ
  pub tx_mode : ℕ
  pub flags : ℕ
  pub n_re_tx : ℕ

-- `saptab`, read at the SAP IDs below 16.
abbrev pub Saptab : Type 0
Saptab = ℕ → SisSap

-- `struct dts_conn`. The counters start at 0 and are only incremented.
pub record DtsConn : Type 0 where
  pub c_pdu_id : ℕ
  pub rx_lwe : ℕ
  pub rx_uwe : ℕ
  pub acks : Mem
  pub nonarq_pdus : ℕ → Option HiPdu
  pub tx_lwe : ℕ
  pub tx_uwe : ℕ
  pub tx_pdus : ℕ → Option HiPdu

-- A `char` as the 32-bit pattern of the `int` that it becomes.
abbrev pub sign_extend : ℕ → ℕ
sign_extend c = if ltb c 128 then c else c + (2 ^ 32 - 256)

abbrev pub sis_min_pdu_size : ℕ
sis_min_pdu_size = 5

abbrev pub sis_unihdr_size : ℕ
sis_unihdr_size = 12

abbrev pub sis_max_pdu_size : ℕ
sis_max_pdu_size = 4113

abbrev pub sis_unidata_ind_min_hdr : ℕ
sis_unidata_ind_min_hdr = 22

abbrev pub dts_min_pdu_size : ℕ
dts_min_pdu_size = 6

abbrev pub dts_seg_size : ℕ
dts_seg_size = 800

-- D_PDU types
abbrev pub dts_data_only : ℕ
dts_data_only = 0

abbrev pub dts_data_ack : ℕ
dts_data_ack = 2

abbrev pub dts_nonarq : ℕ
dts_nonarq = 7
