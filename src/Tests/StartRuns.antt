-- ===== src/Tests/StartRuns.antt =====
-- Runs of the pool of a new shuffler, of the command line and of processStdin.
use open_lib.Prelude.{ℕ, none, some, [], ◌∷◌, ◌≡◌, refl, false, true, arith}
use open_lib.Hiwrite.Loop.{prefix}
use open_lib.Pool.{allocated}
use open_lib.Pool.New.{new_pool, hi_pdu_alloc-new_pool}
use open_lib.Synccat.{moved, process_stdin}
use open_lib.Synccat.Pieces.{process_stdin_pieces}
use open_lib.Daemon.{Text, HostSpec, pos, fewer, prot_host, find_proto, add_spec, parse_port_spec}
use open_lib.Daemon.Options.{Options, Library, opt, finished, remote_loop, cut_short}
use open_lib.Daemon.Limits.{HasLimits, npdu_flag, end_flag, opt-HasLimits}
use open_lib.Prelude.Pointers.{Chain, member}
use open_lib.Conns.{Table, accept_dts}
use open_lib.Conns.Chains.{first_dts, follow, accept_dts-Chain}
use open_lib.Daemon.Setup.{open_remotes}
use open_lib.Daemon.Setup.Order.{known, open_remotes-Parses}
use open_lib.Tests.{counting}

hi_pdu_alloc-new_pool_example : allocated (some 0) 3 (new_pool 2) ≡ some 0 ∷ some 1 ∷ some 0 ∷ []
hi_pdu_alloc-new_pool_example = hi_pdu_alloc-new_pool 2 (omega arith)

-- Five bytes, which the port takes as two and three.
process_stdin_pieces_example :
    process_stdin (moved 5) counting (moved 2 ∷ moved 3 ∷ []) ≡ (1 ∷ 2 ∷ 0 ∷ 4 ∷ 5 ∷ [], some 1)
unfolding prefix
process_stdin_pieces_example =
    process_stdin_pieces counting 5 2 (3 ∷ []) (omega arith) (omega arith, tt) refl

-- No text is a number.
abbrev no_numbers : Library
no_numbers = record {
  atoi = λ t. pos 0;
  scan = λ t. fewer;
  scan_ids = λ t uid gid. (uid, gid);
  resolves = λ t. false;
}

abbrev defaults : Options
defaults = record {
  afr_buf_size = pos 0;
  nfd = pos 20;
  npdu = pos 60;
  nthr = pos 1;
  nkbuf = pos 0;
  listen_backlog = pos 128;
  snmp_port = pos 0;
  timeout = pos 0;
  gcthreshold = pos 0;
  debug = 0;
  debugpoll = 0;
  verbose = 1;
  leak_free = 0;
  assert_nonfatal = 0;
  watchdog = 0;
  instance_name = 115 ∷ 53 ∷ 48 ∷ 54 ∷ 54 ∷ 100 ∷ [];
  egd_path = none;
  rand_path = none;
  pid_path = none;
  kidpid_path = none;
  key = none;
  drop_uid = pos 0;
  drop_gid = pos 0;
  listen_ports = [];
  remotes = [];
}

opt-HasLimits_example :
    HasLimits (opt no_numbers (npdu_flag ∷ npdu_flag ∷ []) defaults)
    × ((v : Text)
        → opt no_numbers (npdu_flag ∷ v ∷ end_flag ∷ npdu_flag ∷ npdu_flag ∷ []) defaults
          ≡ cut_short (record defaults { npdu = pos 0 }))
opt-HasLimits_example = opt-HasLimits no_numbers (npdu_flag ∷ npdu_flag ∷ []) defaults

-- Nothing is connected.
abbrev no_conns : Table
no_conns = record { specs = λ p. []; n = λ io. none; remote_station_addr = λ io. [] }

-- The host `a` or `b`.
abbrev host : ℕ → HostSpec
host a = record { specstr = a ∷ []; proto = 2; sin = some (a ∷ [], 5067) }

-- The descriptor 7 has been accepted.
abbrev with_7 : Table
with_7 = record no_conns { specs = λ p. (record { spec = host 97; conns = some 7 }) ∷ [] }

accept_dts-Chain_example :
    (member 7 (7 ∷ []) ≡ false
      → Chain (accept_dts with_7 7).n (first_dts (accept_dts with_7 7)) (7 ∷ 7 ∷ []))
    × (first_dts with_7 ≡ some 7
        → (k : ℕ) → follow (accept_dts with_7 7).n k (first_dts (accept_dts with_7 7)) ≡ some 7)
accept_dts-Chain_example = accept_dts-Chain with_7 7 (7 ∷ []) (refl, refl)

-- Each text is a host of DTS, which is found, but the empty one is refused.
abbrev dts_hosts : Library
dts_hosts = record no_numbers {
  scan = λ t. elim t [ [] ↦ fewer | (c ∷ cs) ↦ prot_host (100 ∷ 116 ∷ 115 ∷ []) (c ∷ cs) ];
  resolves = λ t. true;
}

open_remotes-Parses_example :
    (o' : Options) × (remote_loop dts_hosts ((97 ∷ []) ∷ (98 ∷ []) ∷ [] ∷ (99 ∷ []) ∷ []) defaults
      ≡ finished o')
    × (known 2
          (open_remotes o'.remotes (some 5 ∷ some 6 ∷ []) (record { table = no_conns; bound = [] }))
        ≡ host 97 ∷ host 98 ∷ [])
unfolding parse_port_spec add_spec find_proto
open_remotes-Parses_example =
    open_remotes-Parses dts_hosts ((97 ∷ []) ∷ (98 ∷ []) ∷ [] ∷ (99 ∷ []) ∷ [])
      (host 97 ∷ host 98 ∷ []) defaults (5 ∷ 6 ∷ []) (record { table = no_conns; bound = [] }) 2
      ((λ head. refl), ((λ head. refl), (λ head. refl))) refl (omega arith) refl
