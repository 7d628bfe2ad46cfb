-- ===== src/Serial/Stats.antt =====
-- What the counters say behind update_serial_counters.
use open_lib.Prelude.{ℕ, ◌≡◌, ◌≢◌, refl, Option, none, some, arith}
use open_lib.Counters.{pos, get_globalcounter, set_globalcounter}
use open_lib.Counters.Names.{Counter, number}
use open_lib.Serial.{Counters, SlStats, minus_1, update_serial_counters}

-- What a counter is for, when the driver answers; `none` for those that it does not concern.
abbrev pub driver : ℕ → SlStats → Counter → Option ℕ
driver speed stats Counter.admin_status = some 1
driver speed stats Counter.oper_status = some 1
driver speed stats Counter.speed = some speed
driver speed stats Counter.abort_signals = some stats.abort
driver speed stats Counter.crc_errors = some stats.crc
driver speed stats Counter.cts_timeouts = some stats.cts
driver speed stats Counter.carrier_drops = some stats.dcd
driver speed stats Counter.tx_underrun = some stats.underrun
driver speed stats Counter.rcvr_overrun = some stats.overrun
driver speed stats Counter.rcvr_no_buffers = some stats.nobuffers
driver speed stats Counter.in_octets = some stats.ichar
driver speed stats Counter.in_pkts = some stats.ipack
driver speed stats Counter.in_errors = some stats.ierror
driver speed stats Counter.out_octets = some stats.ochar
driver speed stats Counter.out_pkts = some stats.opack
driver speed stats Counter.out_errors = some stats.oerror
driver speed stats c = none

-- The value of a counter as the macro reads it, if it has one.
abbrev pub Reads : Counters → Counter → Option ℕ → Type 0
Reads cs c none = Unit {0}
Reads cs c (some v) = get_globalcounter cs (pos (number c)) ≡ v

answered :
    (speed : ℕ) (stats : SlStats) (cs : Counters) (c : Counter)
    → Reads (update_serial_counters (some speed) (some stats) cs).1 c (driver speed stats c)
unfolding update_serial_counters get_globalcounter set_globalcounter
answered speed stats cs Counter.admin_status = refl
answered speed stats cs Counter.oper_status = refl
answered speed stats cs Counter.speed = refl
answered speed stats cs Counter.abort_signals = refl
answered speed stats cs Counter.crc_errors = refl
answered speed stats cs Counter.cts_timeouts = refl
answered speed stats cs Counter.carrier_drops = refl
answered speed stats cs Counter.tx_underrun = refl
answered speed stats cs Counter.rcvr_overrun = refl
answered speed stats cs Counter.rcvr_no_buffers = refl
answered speed stats cs Counter.in_octets = refl
answered speed stats cs Counter.in_pkts = refl
answered speed stats cs Counter.in_errors = refl
answered speed stats cs Counter.out_octets = refl
answered speed stats cs Counter.out_pkts = refl
answered speed stats cs Counter.out_errors = refl
answered speed stats cs Counter.write_bytes = tt
answered speed stats cs Counter.read_bytes = tt
answered speed stats cs Counter.write_errors = tt
answered speed stats cs Counter.read_errors = tt
answered speed stats cs Counter.mtu = tt

-- When the driver answers, each of its counters reads as the field that it is for. When it does not
-- give the speed or the statistics, the result is -1 and the operational status reads 2; besides the
-- two statuses and the speed, no counter has changed.
pub update_serial_counters_lem :
    (speed : ℕ) (stats : SlStats) (cs : Counters) (others : Option SlStats)
    → ((c : Counter)
        → Reads (update_serial_counters (some speed) (some stats) cs).1 c (driver speed stats c))
      × ((update_serial_counters none others cs).0 ≡ minus_1)
      × (get_globalcounter (update_serial_counters none others cs).1 (pos 6) ≡ 2)
      × ((update_serial_counters (some speed) none cs).0 ≡ minus_1)
      × (get_globalcounter (update_serial_counters (some speed) none cs).1 (pos 6) ≡ 2)
      × ((i : ℕ)
          → i ≢ 4
          → i ≢ 5
          → i ≢ 6
          → ((update_serial_counters none others cs).1 i ≡ cs i)
            × ((update_serial_counters (some speed) none cs).1 i ≡ cs i))
unfolding update_serial_counters get_globalcounter set_globalcounter
update_serial_counters_lem speed stats cs others = (
  answered speed stats cs,
  refl,
  refl,
  refl,
  refl,
  λ i n4 n5 n6. (ground (arith, n5, n6), ground (arith, n4, n5, n6)),
)
