-- ===== src/Counters/Names.antt =====
-- The numbers of the counters in globalcounter.h and their names in globalcounter.c.
use open_lib.Prelude.{ℕ, zero, suc, Option, none, some, List, [], ◌∷◌}
use open_lib.Counters.{ℤ, entry}

-- The macros, without their prefix SERIAL_IF.
pub data Counter : Type 0 where
  write_bytes read_bytes write_errors read_errors mtu speed admin_status oper_status abort_signals
        crc_errors cts_timeouts carrier_drops tx_underrun rcvr_overrun rcvr_no_buffers in_octets
        in_pkts in_errors out_octets out_pkts out_errors :
      Counter

abbrev pub number : Counter → ℕ
number Counter.write_bytes = 0
number Counter.read_bytes = 1
number Counter.write_errors = 2
number Counter.read_errors = 3
number Counter.mtu = 3
number Counter.speed = 4
number Counter.admin_status = 5
number Counter.oper_status = 6
number Counter.abort_signals = 7
number Counter.crc_errors = 8
number Counter.cts_timeouts = 9
number Counter.carrier_drops = 10
number Counter.tx_underrun = 11
number Counter.rcvr_overrun = 12
number Counter.rcvr_no_buffers = 13
number Counter.in_octets = 14
number Counter.in_pkts = 15
number Counter.in_errors = 16
number Counter.out_octets = 17
number Counter.out_pkts = 18
number Counter.out_errors = 19

-- The texts of the field `name`.
pub data CounterName : Type 0 where
  serial_if_write_bytes serial_if_read_bytes serial_if_write_errors serial_if_mtu serial_if_speed
        serial_if_admin_status serial_if_oper_status serial_if_abort_signals serial_crc_errors
        serial_cts_timeouts serial_carrier_drops serial_tx_underrun serial_rcvr_overrun
        serial_rcvr_no_buffers serial_if_in_octets serial_if_in_pkts serial_if_in_errors
        serial_if_out_octets serial_if_out_pkts serial_if_out_errors :
      CounterName

-- `globalcounters`, with one name twice.
abbrev pub names : List CounterName
names =
    serial_if_write_bytes ∷ serial_if_read_bytes ∷ serial_if_write_errors ∷ serial_if_read_bytes
    ∷ serial_if_mtu ∷ serial_if_speed ∷ serial_if_admin_status ∷ serial_if_oper_status
    ∷ serial_if_abort_signals ∷ serial_crc_errors ∷ serial_cts_timeouts ∷ serial_carrier_drops
    ∷ serial_tx_underrun ∷ serial_rcvr_overrun ∷ serial_rcvr_no_buffers ∷ serial_if_in_octets
    ∷ serial_if_in_pkts ∷ serial_if_in_errors ∷ serial_if_out_octets ∷ serial_if_out_pkts
    ∷ serial_if_out_errors ∷ []

abbrev pub nth {ℓ} : {A : Type ℓ} → List A → ℕ → Option A
nth [] i = none
nth (x ∷ xs) zero = some x
nth (x ∷ xs) (suc i) = nth xs i

-- `none` is NULL.
unfoldable pub get_globalcounter_name : ℤ → Option CounterName
get_globalcounter_name index = elim (entry index) [ none ↦ none | some i ↦ nth names i ]
