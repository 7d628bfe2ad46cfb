-- ===== src/Conns.antt =====
-- The connections of each protocol: `specs` of prototab, the lists of connections that the specs
-- have, and hi_accept of hiios.c.
use open_lib.Prelude.{
  ℕ, ◌+◌, ◌%◌, ◌^◌, Bool, Option, none, some, List, [], ◌∷◌, ◌==◌, if◌then◌else◌,
}
use open_lib.Prelude.Pointers.{update}
use open_lib.Hiios.{Result, ok, fault, ◌>>=◌, null_pointer}
use open_lib.Todo.{QelKind, poll, pdu, listen, tcp_s, tcp_c, snmp, Shuffler, hi_todo_produce}
use open_lib.Daemon.{Text, HostSpec}
pub mod Chains

-- A spec in a list of prototab, with the first of its connections.
pub record Remote : Type 0 where
  pub spec : HostSpec
  pub conns : Option ℕ

-- `specs` by the number of a protocol, and of a connection the link `n` and `remote_station_addr`.
pub record Table : Type 0 where
  pub specs : ℕ → List Remote
  pub n : ℕ → Option ℕ
  pub remote_station_addr : ℕ → List ℕ

-- `S5066_DTS` and so on, of s5066.h
abbrev pub s5066_sis : ℕ
s5066_sis = 1

abbrev pub s5066_dts : ℕ
s5066_dts = 2

abbrev pub s5066_smtp : ℕ
s5066_smtp = 3

-- `io->n = hs->conns; hs->conns = io`, for the first spec of a protocol
abbrev pub link_conn : Table → ℕ → ℕ → Remote → List Remote → Table
link_conn t proto io hs rest = record t {
  specs = update t.specs proto (record hs { conns = some io } ∷ rest);
  n = update t.n io hs.conns;
}

-- `dts:accepted:connections`
abbrev pub accepted_text : Text
accepted_text =
    100 ∷ 116 ∷ 115 ∷ 58 ∷ 97 ∷ 99 ∷ 99 ∷ 101 ∷ 112 ∷ 116 ∷ 101 ∷ 100 ∷ 58 ∷ 99 ∷ 111 ∷ 110 ∷ 110
    ∷ 101 ∷ 99 ∷ 116 ∷ 105 ∷ 111 ∷ 110 ∷ 115 ∷ []

-- The spec that hi_accept makes when there is none. Its address is all zeroes, and is not used.
abbrev pub accepted_spec : Remote
accepted_spec = record {
  spec = record { specstr = accepted_text; proto = s5066_dts; sin = none };
  conns = none;
}

abbrev pub link_first : Table → ℕ → List Remote → Table
link_first t io [] = link_conn t s5066_dts io accepted_spec []
link_first t io (hs ∷ rest) = link_conn t s5066_dts io hs rest

-- A DTS connection that was accepted.
unfoldable pub accept_dts : Table → ℕ → Table
accept_dts t io =
    link_first
      (record t { remote_station_addr = update t.remote_station_addr io (97 ∷ 69 ∷ 0 ∷ 0 ∷ []) }) io
      (t.specs s5066_dts)

-- What accept and hi_add_fd return: no descriptor, one that could not be added to the event file, or
-- a connection.
pub data Accepted : Type 0 where
  no_fd not_added : Accepted
  added : ℕ → Accepted

-- What hi_accept works on: the connections' kinds and protocols, and the counters of the listeners.
-- `greeted` are the connections to which hi_sendf was called with a greeting.
pub record Acceptor : Type 0 where
  pub table : Table
  pub kinds : ℕ → QelKind
  pub protos : ℕ → ℕ
  pub n_read : ℕ → ℕ
  pub greeted : List ℕ
  pub shf : Shuffler

-- The switch over the protocol, for a connection. `smtp.state` is SMTP_START behind a greeting.
abbrev pub accept_proto : Acceptor → ℕ → ℕ → Acceptor
accept_proto st proto io =
    if proto == s5066_smtp
    then record st { greeted = io ∷ st.greeted }
    else if proto == s5066_dts
    then record st { table = accept_dts st.table io }
    else st

-- Without a connection, the cases of SMTP and DTS follow a pointer that is 0.
abbrev pub accept_null : Acceptor → ℕ → Result Acceptor
accept_null st proto =
    if proto == s5066_smtp
    then fault null_pointer
    else if proto == s5066_dts
    then fault null_pointer
    else ok st

abbrev pub count_accept : Acceptor → ℕ → Acceptor
count_accept st listener = record st {
  n_read = update st.n_read listener ((st.n_read listener + 1) % 2 ^ 32);
}

-- The listener is queued again.
abbrev pub requeue : ℕ → Acceptor → Acceptor
requeue listener st = record st { shf = hi_todo_produce st.shf listener }

unfoldable pub hi_accept : Accepted → ℕ → Acceptor → Result Acceptor
unfolding accept_dts
hi_accept no_fd listener st = ok st
hi_accept not_added listener st =
    accept_null (count_accept st listener) (st.protos listener) >>= λ st1. ok (requeue listener st1)
hi_accept (added io) listener st =
    let proto = st.protos listener in
    let st1 = record st { kinds = update st.kinds io tcp_s; protos = update st.protos io proto } in
    ok (requeue listener (accept_proto (count_accept st1 listener) proto io))
