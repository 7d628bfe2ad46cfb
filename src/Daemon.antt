-- ===== src/Daemon.antt =====
-- s5066d.c: the command line. Texts are lists of bytes. What atoi and sscanf return, and what
-- gethostbyname does, are arguments.
use open_lib.Prelude.{
  ℕ, zero, suc, ◌+◌, ◌-◌, ◌*◌, ◌%◌, ◌^◌, ◌≤◌, ◌<◌, Bool, true, false, not, ◌&&◌, ◌||◌, Option, none,
  some, List, [], ◌∷◌, ◌++◌, ltb, ◌==◌, if◌then◌else◌,
}
pub mod Options
pub mod Limits
pub mod Setup

abbrev pub Text : Type 0
Text = List ℕ

-- `strcmp(a, b) == 0`
abbrev pub same_text : Text → Text → Bool
same_text [] [] = true
same_text [] (b ∷ bs) = false
same_text (a ∷ as') [] = false
same_text (a ∷ as') (b ∷ bs) = a == b && same_text as' bs

-- An `int`: `negsuc n` is -(n + 1).
pub data ℤ : Type 0 where
  pos negsuc : ℕ → ℤ

-- `struct hi_host_spec`: `sin` is the host that gethostbyname found, and the port, `none` for a
-- serial port.
pub record HostSpec : Type 0 where
  pub specstr : Text
  pub proto : ℕ
  pub sin : Option (Text × ℕ)

-- `htons`, of an `int`
abbrev pub port_field : ℤ → ℕ
port_field (pos n) = n % 2 ^ 16
port_field (negsuc n) = 2 ^ 16 - 1 - n % 2 ^ 16

-- `prototab`, with the default ports.
abbrev pub prototab : List (Text × ℕ)
prototab =
    ((100 ∷ 117 ∷ 109 ∷ 109 ∷ 121 ∷ 48 ∷ []), 0)
    ∷ ((115 ∷ 105 ∷ 115 ∷ []), 5066)
    ∷ ((100 ∷ 116 ∷ 115 ∷ []), 5067)
    ∷ ((115 ∷ 109 ∷ 116 ∷ 112 ∷ []), 25)
    ∷ ((104 ∷ 116 ∷ 116 ∷ 112 ∷ []), 8080)
    ∷ ((116 ∷ 112 ∷ []), 5068)
    ∷ []

-- What `sscanf(arg, "%8[^:]:%255[^:]:%i", prot, host, &port)` gives: fewer than two fields, two or
-- three.
pub data Scanned : Type 0 where
  fewer : Scanned
  prot_host : Text → Text → Scanned
  prot_host_port : Text → Text → ℤ → Scanned

-- How parse_port_spec ends: by exit(5) for a bad spec, with 0, or with a spec in front of the list.
pub data Parsed : Type 0 where
  bad_spec refused : Parsed
  parsed : List HostSpec → Parsed

-- The number and the default port of a protocol, counted from `i`.
unfoldable pub find_proto : List (Text × ℕ) → ℕ → Text → Option (ℕ × ℕ)
find_proto [] i prot = none
find_proto ((name, port) ∷ protos) i prot =
    if same_text name prot then some (i, port) else find_proto protos (i + 1) prot

-- -1 stands for the default port.
abbrev pub or_default : ℤ → ℕ → ℤ
or_default (pos n) port = pos n
or_default (negsuc n) port = if n == 0 then pos port else negsuc n

abbrev pub is_path : Text → Bool
is_path [] = false
is_path (c ∷ cs) = c == 47

abbrev pub or_host : Text → Text → Text
or_host [] default_host = default_host
or_host (c ∷ cs) default_host = c ∷ cs

-- Behind sscanf, with a port that may be -1. `resolves` says whether gethostbyname finds the host.
unfoldable pub add_spec : (Text → Bool) → Text → List HostSpec → Text → Text → Text → ℤ → Parsed
unfolding find_proto
add_spec resolves arg head default_host prot host port = elim (find_proto prototab 0 prot) [
  | none ↦ bad_spec
  | some (proto, default_port) ↦
      (let target = or_host host default_host in
        let sin : Text × ℕ = (target, port_field (or_default port default_port)) in
        if is_path target
        then parsed (record { specstr = arg; proto = proto; sin = none } ∷ head)
        else if resolves target
        then parsed (record { specstr = arg; proto = proto; sin = some sin } ∷ head)
        else bad_spec)
]

unfoldable pub parse_port_spec : (Text → Bool) → Scanned → Text → List HostSpec → Text → Parsed
unfolding add_spec
parse_port_spec resolves fewer arg head default_host = refused
parse_port_spec resolves (prot_host prot host) arg head default_host =
    add_spec resolves arg head default_host prot host (negsuc 0)
parse_port_spec resolves (prot_host_port prot host port) arg head default_host =
    add_spec resolves arg head default_host prot host port
