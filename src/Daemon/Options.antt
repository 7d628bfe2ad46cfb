-- ===== src/Daemon/Options.antt =====
-- opt of s5066d.c: the options of the command line.
use open_lib.Prelude.{
  ℕ, zero, suc, ◌+◌, ◌-◌, ◌*◌, ◌%◌, ◌^◌, ltb, Bool, false, ◌&&◌, Option, none, some, List, [], ◌∷◌,
  ◌==◌, if◌then◌else◌,
}
use open_lib.Daemon.{
  Text, same_text, ℤ, pos, negsuc, HostSpec, Scanned, Parsed, bad_spec, refused, parsed,
  parse_port_spec,
}

-- The flags that opt knows.
pub data Flag : Type 0 where
  end_of_options afr nfd npdu nthr nkbuf nlis snmp timeout debug debugpoll instance_of verbose quiet
        egd gcthreshold assert_nonfatal rand watchdog port pid kidpid key cipher uid license
        leak_free :
      Flag

abbrev flags : List (Text × Flag)
flags =
    ((45 ∷ 45 ∷ []), Flag.end_of_options)
    ∷ ((45 ∷ 97 ∷ 102 ∷ 114 ∷ []), Flag.afr)
    ∷ ((45 ∷ 110 ∷ 102 ∷ 100 ∷ []), Flag.nfd)
    ∷ ((45 ∷ 110 ∷ 112 ∷ 100 ∷ 117 ∷ []), Flag.npdu)
    ∷ ((45 ∷ 110 ∷ 116 ∷ 104 ∷ 114 ∷ []), Flag.nthr)
    ∷ ((45 ∷ 110 ∷ 107 ∷ 98 ∷ 117 ∷ 102 ∷ []), Flag.nkbuf)
    ∷ ((45 ∷ 110 ∷ 108 ∷ 105 ∷ 115 ∷ []), Flag.nlis)
    ∷ ((45 ∷ 115 ∷ 110 ∷ 109 ∷ 112 ∷ []), Flag.snmp)
    ∷ ((45 ∷ 116 ∷ []), Flag.timeout)
    ∷ ((45 ∷ 100 ∷ []), Flag.debug)
    ∷ ((45 ∷ 100 ∷ 112 ∷ []), Flag.debugpoll)
    ∷ ((45 ∷ 100 ∷ 105 ∷ []), Flag.instance_of)
    ∷ ((45 ∷ 118 ∷ []), Flag.verbose)
    ∷ ((45 ∷ 113 ∷ []), Flag.quiet)
    ∷ ((45 ∷ 101 ∷ 103 ∷ 100 ∷ []), Flag.egd)
    ∷ ((45 ∷ 114 ∷ 103 ∷ []), Flag.gcthreshold)
    ∷ ((45 ∷ 114 ∷ 97 ∷ []), Flag.assert_nonfatal)
    ∷ ((45 ∷ 114 ∷ 97 ∷ 110 ∷ 100 ∷ []), Flag.rand)
    ∷ ((45 ∷ 119 ∷ 97 ∷ 116 ∷ 99 ∷ 104 ∷ 100 ∷ 111 ∷ 103 ∷ []), Flag.watchdog)
    ∷ ((45 ∷ 112 ∷ []), Flag.port)
    ∷ ((45 ∷ 112 ∷ 105 ∷ 100 ∷ []), Flag.pid)
    ∷ ((45 ∷ 107 ∷ 105 ∷ 100 ∷ 112 ∷ 105 ∷ 100 ∷ []), Flag.kidpid)
    ∷ ((45 ∷ 107 ∷ []), Flag.key)
    ∷ ((45 ∷ 99 ∷ []), Flag.cipher)
    ∷ ((45 ∷ 117 ∷ 105 ∷ 100 ∷ []), Flag.uid)
    ∷ ((45 ∷ 108 ∷ 105 ∷ 99 ∷ 101 ∷ 110 ∷ 115 ∷ 101 ∷ []), Flag.license)
    ∷ []

-- `-rf` may be followed by anything.
abbrev is_leak_free : Text → Bool
is_leak_free (a ∷ b ∷ c ∷ cs) = a == 45 && (b == 114 && c == 102)
is_leak_free (a ∷ b ∷ []) = false
is_leak_free (a ∷ []) = false
is_leak_free [] = false

unfoldable pub find_flag : List (Text × Flag) → Text → Option Flag
find_flag [] arg = none
find_flag ((name, flag) ∷ fs) arg = if same_text name arg then some flag else find_flag fs arg

unfoldable pub flag_of : Text → Option Flag
unfolding find_flag
flag_of arg = if is_leak_free arg then some Flag.leak_free else find_flag flags arg

-- `none` is a path that is not set.
pub record Options : Type 0 where
  pub afr_buf_size : ℤ
  pub nfd : ℤ
  pub npdu : ℤ
  pub nthr : ℤ
  pub nkbuf : ℤ
  pub listen_backlog : ℤ
  pub snmp_port : ℤ
  pub timeout : ℤ
  pub gcthreshold : ℤ
  pub debug : ℕ
  pub debugpoll : ℕ
  pub verbose : ℕ
  pub leak_free : ℕ
  pub assert_nonfatal : ℕ
  pub watchdog : ℕ
  pub instance_name : Text
  pub egd_path : Option Text
  pub rand_path : Option Text
  pub pid_path : Option Text
  pub kidpid_path : Option Text
  pub key : Option Text
  pub drop_uid : ℤ
  pub drop_gid : ℤ
  pub listen_ports : List HostSpec
  pub remotes : List HostSpec

-- What the C library makes of a text: atoi, sscanf for a port and for `%i:%i` (given the values that
-- it may leave as they are), and gethostbyname. The key is the descriptor's number, whose bytes
-- read_all_fd reads.
pub record Library : Type 0 where
  pub atoi : Text → ℤ
  pub scan : Text → Scanned
  pub scan_ids : Text → ℤ → ℤ → ℤ × ℤ
  pub resolves : Text → Bool

-- What a flag without a value does; `none` for the others.
abbrev pub plain_flag : Flag → Options → Option Options
plain_flag Flag.debug o = some (record o { debug = o.debug + 1 })
plain_flag Flag.debugpoll o = some (record o { debugpoll = o.debugpoll + 1 })
plain_flag Flag.verbose o = some (record o { verbose = o.verbose + 1 })
plain_flag Flag.quiet o = some (record o { verbose = 0 })
plain_flag Flag.leak_free o = some (record o { leak_free = o.leak_free + 1 })
plain_flag Flag.assert_nonfatal o = some (record o { assert_nonfatal = o.assert_nonfatal + 1 })
plain_flag Flag.watchdog o = some (record o { watchdog = o.watchdog + 1 })
plain_flag f o = none

-- The `int` that has these 32 bits.
abbrev pub signed : ℕ → ℤ
signed w = if ltb w (2 ^ 31) then pos w else negsuc (2 ^ 32 - 1 - w)

-- `<< 20` of an `int`, of which the low twelve bits are left.
abbrev pub megabytes : ℤ → ℤ
megabytes (pos n) = signed (n % 2 ^ 12 * 2 ^ 20)
megabytes (negsuc n) = signed ((2 ^ 12 - 1 - n % 2 ^ 12) * 2 ^ 20)

-- How opt ends: by exit, at `--` in the middle, or at the end of the arguments.
pub data OptEnd : Type 0 where
  exit_0 exit_3 exit_5 : OptEnd
  cut_short finished : Options → OptEnd

-- What a flag does with its value: new options, or an end.
pub data Step : Type 0 where
  go_on : Options → Step
  ends : OptEnd → Step

abbrev pub with_port : Parsed → Options → Step
with_port bad_spec o = ends exit_5
with_port refused o = ends exit_3
with_port (parsed specs) o = go_on (record o { listen_ports = specs })

-- `0.0.0.0`
abbrev pub any_host : Text
any_host = 48 ∷ 46 ∷ 48 ∷ 46 ∷ 48 ∷ 46 ∷ 48 ∷ []

-- `127.0.0.1`
abbrev pub local_host : Text
local_host = 49 ∷ 50 ∷ 55 ∷ 46 ∷ 48 ∷ 46 ∷ 48 ∷ 46 ∷ 49 ∷ []

-- A flag with its value; the others are not asked for.
abbrev pub value_flag : Library → Flag → Text → Options → Step
value_flag lib Flag.afr v o = go_on (record o { afr_buf_size = megabytes (lib.atoi v) })
value_flag lib Flag.nfd v o = go_on (record o { nfd = lib.atoi v })
value_flag lib Flag.npdu v o = go_on (record o { npdu = lib.atoi v })
value_flag lib Flag.nthr v o = go_on (record o { nthr = lib.atoi v })
value_flag lib Flag.nkbuf v o = go_on (record o { nkbuf = lib.atoi v })
value_flag lib Flag.nlis v o = go_on (record o { listen_backlog = lib.atoi v })
value_flag lib Flag.snmp v o = go_on (record o { snmp_port = lib.atoi v })
value_flag lib Flag.timeout v o = go_on (record o { timeout = lib.atoi v })
value_flag lib Flag.gcthreshold v o = go_on (record o { gcthreshold = lib.atoi v })
value_flag lib Flag.instance_of v o = go_on (record o { instance_name = v })
value_flag lib Flag.egd v o = go_on (record o { egd_path = some v })
value_flag lib Flag.rand v o = go_on (record o { rand_path = some v })
value_flag lib Flag.pid v o = go_on (record o { pid_path = some v })
value_flag lib Flag.kidpid v o = go_on (record o { kidpid_path = some v })
value_flag lib Flag.key v o = go_on (record o { key = some v })
value_flag lib Flag.uid v o =
    let ids = lib.scan_ids v o.drop_uid o.drop_gid in
    go_on (record o { drop_uid = ids.0; drop_gid = ids.1 })
value_flag lib Flag.port v o =
    with_port (parse_port_spec lib.resolves (lib.scan v) v o.listen_ports any_host) o
value_flag lib f v o = go_on o

-- The remaining arguments are remote hosts, up to one that is refused.
unfoldable pub remote_loop : Library → List Text → Options → OptEnd
remote_loop lib [] o = finished o
remote_loop lib (a ∷ args) o =
    let rest : List HostSpec → OptEnd =
      λ specs. remote_loop lib args (record o { remotes = specs }) in
    elim (parse_port_spec lib.resolves (lib.scan a) a o.remotes local_host) [
      | bad_spec ↦ exit_5
      | refused ↦ finished o
      | parsed specs ↦ rest specs
    ]

abbrev pub at_least_one : ℤ → ℤ
at_least_one (pos zero) = pos 1
at_least_one (pos (suc n)) = pos (suc n)
at_least_one (negsuc n) = pos 1

-- The end of opt.
abbrev pub clamp : OptEnd → OptEnd
clamp (finished o) =
    finished (record o {
      nfd = at_least_one o.nfd;
      npdu = at_least_one o.npdu;
      nthr = at_least_one o.nthr;
    })
clamp end = end

abbrev pub is_flag : Text → Bool
is_flag [] = false
is_flag (c ∷ cs) = c == 45

-- The flags behind which opt does not go on: the license ends the program. `--` is followed by a
-- return.
abbrev pub final_flag : Flag → Options → Option OptEnd
final_flag Flag.end_of_options o = some (cut_short o)
final_flag Flag.license o = some exit_0
final_flag f o = none

-- The loop, over the arguments that are left. A flag without its value is an error.
unfoldable pub opt_loop : Library → List Text → Options → OptEnd
opt_loop lib [] o = finished o
opt_loop lib (a ∷ []) o =
    if is_flag a
    then elim (flag_of a) [
      | none ↦ exit_3
      | some f ↦ elim (final_flag f o) [
        | some end ↦ end
        | none ↦ elim (plain_flag f o) [ none ↦ exit_3 | some o' ↦ finished o' ]
      ]
    ]
    else remote_loop lib (a ∷ []) o
opt_loop lib (a ∷ v ∷ args) o =
    let plain : Options → OptEnd = λ o'. opt_loop lib (v ∷ args) o' in
    let valued : Options → OptEnd = λ o'. opt_loop lib args o' in
    if is_flag a
    then elim (flag_of a) [
      | none ↦ exit_3
      | some f ↦ elim (final_flag f o) [
        | some end ↦ end
        | none ↦ elim (plain_flag f o) [
          | some o' ↦ plain o'
          | none ↦ elim (value_flag lib f v o) [ go_on o' ↦ valued o' | ends end ↦ end ]
        ]
      ]
    ]
    else remote_loop lib (a ∷ v ∷ args) o

-- `args` are the arguments behind the program's name.
unfoldable pub opt : Library → List Text → Options → OptEnd
unfolding opt_loop remote_loop flag_of
opt lib [] o = exit_3
opt lib (a ∷ args) o = clamp (opt_loop lib (a ∷ args) o)
