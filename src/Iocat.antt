-- ===== src/Iocat.antt =====
-- iocat.c: the options, which are carried out one after the other, as in the build for Solaris. What
-- the system calls return, and what sscanf and atoi make of a text, are arguments.
use open_lib.Prelude.{
  ℕ, zero, suc, ◌+◌, ◌-◌, ◌%◌, ◌^◌, Bool, true, false, not, ◌&&◌, ◌||◌, Option, none, some, List,
  [], ◌∷◌, ◌++◌, map, Mem, at, ltb, ◌==◌, if◌then◌else◌,
}
use open_lib.S5066.{sign_extend}
use open_lib.Hiwrite.Loop.{prefix}
use open_lib.Counters.Names.{nth}
use open_lib.Daemon.{Text, same_text, ℤ, pos, negsuc}
use open_lib.Synccat.{text_of}
pub mod Run
pub mod Bits
pub mod Hex
pub mod Ends
pub mod Session

-- The modem control lines.
pub data Line : Type 0 where
  dtr dsr rts cts cd ri : Line

-- The calls that end the program by IOERR when they fail. modify_tios_cflag does the same for all its
-- masks: it clears CRTSCTS.
pub data Call : Type 0 where
  fcntl_block fcntl_nonblock tcgetattr tcsetattr_cflag tcsetattr_raw tiocmget tiocmset tiocssoftcar
        tiocgsoftcar set_baud s_iocsetmru s_iocgetmode s_iocgetspeed s_iocgetmctl s_iocgetstats :
      Call
  tiocmbis tiocmbic : Line → Call

pub data Reading : Type 0 where
  as_chars as_hex discarded : Reading

-- What an option does: `plain` and `valued` make calls only, the latter with the next argument. Those
-- that set a variable of the tool make none.
pub data Action : Type 0 where
  finish opens inherits bits closes jumps execs writes hexes prints_license : Action
  plain valued : List Call → Action
  reads : Reading → Action

-- The options by their first letter: `-`, p, b and n.
abbrev device_options : List (Text × Action)
device_options =
    (45 ∷ 45 ∷ [], Action.finish)
    ∷ (45 ∷ 112 ∷ [], Action.opens)
    ∷ (45 ∷ 112 ∷ 102 ∷ 100 ∷ [], Action.inherits)
    ∷ (45 ∷ 98 ∷ 108 ∷ 111 ∷ 99 ∷ 107 ∷ [], Action.plain (fcntl_block ∷ []))
    ∷ (45 ∷ 98 ∷ 97 ∷ 117 ∷ 100 ∷ [], Action.valued (tcgetattr ∷ tcsetattr_cflag ∷ []))
    ∷ (45 ∷ 98 ∷ 105 ∷ 116 ∷ 115 ∷ [], Action.bits)
    ∷ (45 ∷ 110 ∷ 98 ∷ 108 ∷ 111 ∷ 99 ∷ 107 ∷ [], Action.plain (fcntl_nonblock ∷ []))
    ∷ (45 ∷ 110 ∷ 111 ∷ 112 ∷ [], Action.plain ([]))
    ∷ (
      45 ∷ 110 ∷ 114 ∷ 116 ∷ 115 ∷ 99 ∷ 116 ∷ 115 ∷ [],
      Action.plain (tcgetattr ∷ tcsetattr_cflag ∷ []),
    )
    ∷ (
      45 ∷ 110 ∷ 114 ∷ 116 ∷ 115 ∷ 120 ∷ 111 ∷ 102 ∷ 102 ∷ [],
      Action.plain (tcgetattr ∷ tcsetattr_cflag ∷ []),
    )
    ∷ (45 ∷ 110 ∷ 114 ∷ 116 ∷ 115 ∷ [], Action.plain (tiocmbic Line.rts ∷ []))
    ∷ (45 ∷ 110 ∷ 114 ∷ 105 ∷ [], Action.plain (tiocmbic Line.ri ∷ []))
    ∷ (45 ∷ 110 ∷ 100 ∷ 116 ∷ 114 ∷ [], Action.plain (tiocmbic Line.dtr ∷ []))
    ∷ (45 ∷ 110 ∷ 100 ∷ 115 ∷ 114 ∷ [], Action.plain (tiocmbic Line.dsr ∷ []))
    ∷ (45 ∷ 110 ∷ 99 ∷ 116 ∷ 115 ∷ [], Action.plain (tiocmbic Line.cts ∷ []))
    ∷ (45 ∷ 110 ∷ 99 ∷ 100 ∷ [], Action.plain (tiocmbic Line.cd ∷ []))
    ∷ []

-- s, t and c.
abbrev line_options : List (Text × Action)
line_options =
    (45 ∷ 115 ∷ 110 ∷ 109 ∷ 112 ∷ [], Action.valued ([]))
    ∷ (45 ∷ 115 ∷ 108 ∷ 101 ∷ 101 ∷ 112 ∷ [], Action.valued ([]))
    ∷ (45 ∷ 115 ∷ 111 ∷ 102 ∷ 116 ∷ 99 ∷ 97 ∷ 114 ∷ [], Action.valued (tiocssoftcar ∷ []))
    ∷ (45 ∷ 115 ∷ 98 ∷ 97 ∷ 117 ∷ 100 ∷ [], Action.valued (set_baud ∷ []))
    ∷ (45 ∷ 115 ∷ 102 ∷ 114 ∷ 97 ∷ 109 ∷ 101 ∷ [], Action.valued (s_iocsetmru ∷ []))
    ∷ (45 ∷ 116 ∷ [], Action.valued ([]))
    ∷ (45 ∷ 99 ∷ [], Action.plain (tcgetattr ∷ []))
    ∷ (45 ∷ 99 ∷ 108 ∷ 111 ∷ 115 ∷ 101 ∷ [], Action.closes)
    ∷ (45 ∷ 99 ∷ 109 ∷ 103 ∷ 101 ∷ 116 ∷ [], Action.plain (tiocmget ∷ []))
    ∷ (45 ∷ 99 ∷ 109 ∷ 115 ∷ 101 ∷ 116 ∷ [], Action.valued (tiocmset ∷ []))
    ∷ (45 ∷ 99 ∷ 116 ∷ 115 ∷ [], Action.plain (tiocmbis Line.cts ∷ []))
    ∷ (45 ∷ 99 ∷ 100 ∷ [], Action.plain (tiocmbis Line.cd ∷ []))
    ∷ []

-- a, g, e, d, v and q.
abbrev report_options : List (Text × Action)
report_options =
    (45 ∷ 100 ∷ 116 ∷ 114 ∷ [], Action.plain (tiocmbis Line.dtr ∷ []))
    ∷ (45 ∷ 100 ∷ 115 ∷ 114 ∷ [], Action.plain (tiocmbis Line.dsr ∷ []))
    ∷ (45 ∷ 97 ∷ 114 ∷ 103 ∷ 105 ∷ [], Action.plain ([]))
    ∷ (45 ∷ 103 ∷ 111 ∷ 116 ∷ 111 ∷ [], Action.jumps)
    ∷ (45 ∷ 103 ∷ 115 ∷ 111 ∷ 102 ∷ 116 ∷ 99 ∷ 97 ∷ 114 ∷ [], Action.plain (tiocgsoftcar ∷ []))
    ∷ (45 ∷ 103 ∷ 101 ∷ 116 ∷ 109 ∷ 111 ∷ 100 ∷ 101 ∷ [], Action.plain (s_iocgetmode ∷ []))
    ∷ (45 ∷ 103 ∷ 101 ∷ 116 ∷ 115 ∷ 112 ∷ 101 ∷ 101 ∷ 100 ∷ [], Action.plain (s_iocgetspeed ∷ []))
    ∷ (45 ∷ 103 ∷ 101 ∷ 116 ∷ 109 ∷ 99 ∷ 116 ∷ 108 ∷ [], Action.plain (s_iocgetmctl ∷ []))
    ∷ (45 ∷ 103 ∷ 101 ∷ 116 ∷ 115 ∷ 116 ∷ 97 ∷ 116 ∷ 115 ∷ [], Action.plain (s_iocgetstats ∷ []))
    ∷ (45 ∷ 101 ∷ 120 ∷ 101 ∷ 99 ∷ [], Action.execs)
    ∷ (45 ∷ 100 ∷ [], Action.plain ([]))
    ∷ (45 ∷ 100 ∷ 112 ∷ [], Action.plain ([]))
    ∷ (45 ∷ 100 ∷ 105 ∷ [], Action.valued ([]))
    ∷ (45 ∷ 118 ∷ [], Action.plain ([]))
    ∷ (45 ∷ 113 ∷ [], Action.plain ([]))
    ∷ []

-- r, w, k, u and l; and of r those that are not in `prefixed`.
abbrev transfer_options : List (Text × Action)
transfer_options =
    (45 ∷ 114 ∷ 116 ∷ 115 ∷ [], Action.plain (tiocmbis Line.rts ∷ []))
    ∷ (45 ∷ 114 ∷ 105 ∷ [], Action.plain (tiocmbis Line.ri ∷ []))
    ∷ (45 ∷ 114 ∷ 103 ∷ [], Action.valued ([]))
    ∷ (45 ∷ 114 ∷ 97 ∷ [], Action.plain ([]))
    ∷ (45 ∷ 114 ∷ 97 ∷ 119 ∷ [], Action.plain (tcgetattr ∷ tcsetattr_raw ∷ []))
    ∷ (45 ∷ 114 ∷ [], Action.reads Reading.as_chars)
    ∷ (45 ∷ 114 ∷ 116 ∷ 115 ∷ 99 ∷ 116 ∷ 115 ∷ [], Action.plain (tcgetattr ∷ tcsetattr_cflag ∷ []))
    ∷ (
      45 ∷ 114 ∷ 116 ∷ 115 ∷ 120 ∷ 111 ∷ 102 ∷ 102 ∷ [],
      Action.plain (tcgetattr ∷ tcsetattr_cflag ∷ []),
    )
    ∷ (45 ∷ 119 ∷ 97 ∷ 116 ∷ 99 ∷ 104 ∷ 100 ∷ 111 ∷ 103 ∷ [], Action.plain ([]))
    ∷ (45 ∷ 119 ∷ [], Action.writes)
    ∷ (45 ∷ 119 ∷ 120 ∷ [], Action.hexes)
    ∷ (45 ∷ 107 ∷ 105 ∷ 100 ∷ 112 ∷ 105 ∷ 100 ∷ [], Action.valued ([]))
    ∷ (45 ∷ 117 ∷ 105 ∷ 100 ∷ [], Action.valued ([]))
    ∷ (45 ∷ 117 ∷ 115 ∷ 108 ∷ 101 ∷ 101 ∷ 112 ∷ [], Action.valued ([]))
    ∷ (45 ∷ 108 ∷ 105 ∷ 99 ∷ 101 ∷ 110 ∷ 115 ∷ 101 ∷ [], Action.prints_license)
    ∷ []

abbrev options : List (Text × Action)
options = device_options ++ (line_options ++ (report_options ++ transfer_options))

-- `-rf`, `-rx` and `-rd` may be followed by anything.
abbrev prefixed : Text → Option Action
prefixed (a ∷ b ∷ c ∷ cs) =
    if not (b == 114)
    then none
    else if c == 102
    then some (Action.plain [])
    else if c == 120
    then some (Action.reads Reading.as_hex)
    else if c == 100
    then some (Action.reads Reading.discarded)
    else none
prefixed text = none

unfoldable pub find_action : List (Text × Action) → Text → Option Action
find_action [] a = none
find_action ((name, action) ∷ rest) a =
    let later = find_action rest a in if same_text name a then some action else later

unfoldable pub action_of : Text → Option Action
unfolding find_action
action_of a = elim (prefixed a) [ some action ↦ some action | none ↦ find_action options a ]

-- What atoi and sscanf with `%i` make of a text; `none`: sscanf stores nothing.
pub record Numbers : Type 0 where
  pub atoi : Text → ℤ
  pub scan : Text → Option ℤ

-- What a system call returns: -1, or a number, with the memory that it has filled.
pub data Answer : Type 0 where
  fails : Answer
  gives : ℕ → Mem → Answer

-- What the tool has done: calls with the option's value, what was printed on the standard output, the
-- bytes for the port that were written, and `close`.
pub data Done : Type 0 where
  called : Call → Text → Done
  chars hex_codes wrote : List ℕ → Done
  closed : Done

-- `none` is -1.
pub record Tool : Type 0 where
  pub argi : ℕ
  pub fd : Option ℕ
  pub done : List Done

abbrev pub add_done : Done → Tool → Tool
add_done d t = record t { done = t.done ++ (d ∷ []) }

-- How the options end: by exit, in execvp, behind the last one, with an index below 0 in argv, or with
-- a value that is not a number, for which the tool takes what the variable held before. `waits`: there
-- are no more results.
pub data End : Type 0 where
  exits : ℕ → End
  exec_done all_done wild_index stale waits : End

pub data Step : Type 0 where
  next : Tool → List Answer → Step
  stop : End → Tool → Step
