-- ===== src/Serial.antt =====
-- serial_sync.c: the calls for a serial port, with the counters they keep. What read, write and ioctl
-- return is an argument. The ioctls are those of the build for Solaris.
use open_lib.Prelude.{
  ℕ, ◌%◌, ◌^◌, Bool, true, false, Option, none, some, List, [], ◌∷◌, if◌then◌else◌,
}
use open_lib.Counters.{
  ℤ, pos, get_globalcounter, set_globalcounter, add_to_globalcounter, reset_allglobalcounters,
}
use open_lib.Counters.Names.{Counter, number}
use open_lib.Synccat.{Port, moved, failed}
pub mod Stats

abbrev pub Counters : Type 0
Counters = ℕ → ℕ

abbrev pub set_counter : Counter → ℕ → Counters → Counters
set_counter c value cs = (set_globalcounter cs (pos (number c)) value).1

abbrev pub add_counter : Counter → ℕ → Counters → Counters
add_counter c value cs = (add_to_globalcounter cs (pos (number c)) value).1

unfoldable pub write_port : Port → Counters → Port × Counters
write_port (moved written) cs = (moved written, add_counter Counter.write_bytes written cs)
write_port failed cs = (failed, add_counter Counter.write_errors 1 cs)

unfoldable pub read_port : Port → Counters → Port × Counters
read_port (moved read_bytes) cs = (moved read_bytes, add_counter Counter.read_bytes read_bytes cs)
read_port failed cs = (failed, add_counter Counter.read_errors 1 cs)

-- What a function returns: 0, -1, or, at its end without a return, no value.
pub data Returned : Type 0 where
  fine minus_1 no_value : Returned

-- `done`: ioctl has set the mode. When it fails, a second attempt changes only the message.
unfoldable pub set_baud_rate : Bool → ℕ → Counters → Returned × Counters
set_baud_rate done baudrate cs =
    if done then (fine, set_counter Counter.speed baudrate cs) else (minus_1, cs)

unfoldable pub set_frame_size : Bool → ℕ → Counters → Returned × Counters
set_frame_size done frame_size cs =
    if done then (fine, set_counter Counter.mtu frame_size cs) else (minus_1, cs)

unfoldable pub reset_serial_counters : Bool → Counters → Returned × Counters
reset_serial_counters done cs = (if done then fine else minus_1, reset_allglobalcounters cs)

-- `struct sl_stats`
pub record SlStats : Type 0 where
  pub ipack : ℕ
  pub opack : ℕ
  pub ichar : ℕ
  pub ochar : ℕ
  pub abort : ℕ
  pub crc : ℕ
  pub cts : ℕ
  pub dcd : ℕ
  pub overrun : ℕ
  pub underrun : ℕ
  pub ierror : ℕ
  pub oerror : ℕ
  pub nobuffers : ℕ

-- Calls of set_globalcounter, in the order of the list.
abbrev pub set_counters : List (Counter × ℕ) → Counters → Counters
set_counters [] cs = cs
set_counters ((c, value) ∷ rest) cs = set_counters rest (set_counter c value cs)

abbrev pub of_stats : SlStats → List (Counter × ℕ)
of_stats stats =
    (Counter.in_pkts, stats.ipack)
    ∷ (Counter.out_pkts, stats.opack)
    ∷ (Counter.in_octets, stats.ichar)
    ∷ (Counter.out_octets, stats.ochar)
    ∷ (Counter.abort_signals, stats.abort)
    ∷ (Counter.crc_errors, stats.crc)
    ∷ (Counter.cts_timeouts, stats.cts)
    ∷ (Counter.carrier_drops, stats.dcd)
    ∷ (Counter.rcvr_overrun, stats.overrun)
    ∷ (Counter.tx_underrun, stats.underrun)
    ∷ (Counter.in_errors, stats.ierror)
    ∷ (Counter.out_errors, stats.oerror)
    ∷ (Counter.rcvr_no_buffers, stats.nobuffers)
    ∷ []

-- Behind the ioctl for the speed.
abbrev pub with_stats : Option SlStats → Counters → Returned × Counters
with_stats none cs = (minus_1, set_counter Counter.oper_status 2 cs)
with_stats (some stats) cs = (no_value, set_counters (of_stats stats) cs)

abbrev pub with_speed : Option ℕ → Option SlStats → Counters → Returned × Counters
with_speed none stats cs = (minus_1, set_counter Counter.oper_status 2 cs)
with_speed (some speed) stats cs = with_stats stats (set_counter Counter.speed speed cs)

-- The ioctls give a speed and the statistics, or `none` when they fail.
unfoldable pub update_serial_counters : Option ℕ → Option SlStats → Counters → Returned × Counters
update_serial_counters speed stats cs =
    with_speed speed stats
      (set_counter Counter.oper_status 1 (set_counter Counter.admin_status 1 cs))
