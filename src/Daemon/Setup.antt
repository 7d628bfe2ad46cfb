-- ===== src/Daemon/Setup.antt =====
-- main of s5066d.c: the listeners and the remote hosts are opened.
use open_lib.Prelude.{ℕ, zero, suc, Bool, Option, none, some, List, [], ◌∷◌, ◌==◌, if◌then◌else◌}
use open_lib.Prelude.Pointers.{update}
use open_lib.Daemon.{HostSpec}
use open_lib.Conns.{Remote, Table, s5066_sis, s5066_dts, s5066_smtp, link_conn}
pub mod Order

-- The listeners that were opened, with their specs; hi_open_listener returns the results in the list.
-- The first that fails ends the loop.
unfoldable pub open_listeners : List HostSpec → List (Option ℕ) → List (HostSpec × ℕ)
open_listeners [] opened = []
open_listeners (hs ∷ specs) [] = []
open_listeners (hs ∷ specs) (none ∷ opened) = []
open_listeners (hs ∷ specs) (some io ∷ opened) = (hs, io) ∷ open_listeners specs opened

-- The table, and the connections for which sis_send_bind was called, the last one first.
pub record Setup : Type 0 where
  pub table : Table
  pub bound : List ℕ

-- `hs->next = prototab[hs->proto].specs; prototab[hs->proto].specs = hs`
abbrev pub add_remote : Setup → HostSpec → Setup
add_remote st hs =
    let remote : Remote = record { spec = hs; conns = none } in
    record st {
      table = record st.table {
        specs = update st.table.specs hs.proto (remote ∷ st.table.specs hs.proto);
      };
    }

-- A remote host of SIS is bound, one of DTS gets the address of a remote station.
abbrev pub greet_remote : Setup → HostSpec → ℕ → Setup
greet_remote st hs io =
    if hs.proto == s5066_sis
    then record st { bound = io ∷ st.bound }
    else if hs.proto == s5066_dts
    then record st {
      table = record st.table {
        remote_station_addr = update st.table.remote_station_addr io (97 ∷ 35 ∷ 0 ∷ 0 ∷ []);
      };
    }
    else st

-- The spec is added, with its connection.
abbrev pub open_remote : Setup → HostSpec → ℕ → Setup
open_remote st hs io =
    let remote : Remote = record { spec = hs; conns = none } in
    greet_remote
      (record st { table = link_conn st.table hs.proto io remote (st.table.specs hs.proto) }) hs io

-- The remote hosts, in the order of `remotes`; serial_init and hi_open_tcp return the results in the
-- list. A remote host of SMTP is opened later. The first that fails ends the loop.
unfoldable pub open_remotes : List HostSpec → List (Option ℕ) → Setup → Setup
open_remotes [] opened st = st
open_remotes (hs ∷ remotes) [] st =
    let later = open_remotes remotes [] (add_remote st hs) in
    if hs.proto == s5066_smtp then later else add_remote st hs
open_remotes (hs ∷ remotes) (none ∷ opened) st =
    let later = open_remotes remotes (none ∷ opened) (add_remote st hs) in
    if hs.proto == s5066_smtp then later else add_remote st hs
open_remotes (hs ∷ remotes) (some io ∷ opened) st =
    let later = open_remotes remotes (some io ∷ opened) (add_remote st hs) in
    let next = open_remotes remotes opened (open_remote st hs io) in
    if hs.proto == s5066_smtp then later else next
