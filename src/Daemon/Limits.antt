-- ===== src/Daemon/Limits.antt =====
-- The limits that opt keeps.
use open_lib.Prelude.{zero, suc, List, [], ◌∷◌, ◌≡◌, refl}
use open_lib.Daemon.{Text, ℤ, pos, negsuc}
use open_lib.Daemon.Options.{
  flag_of, find_flag, Options, Library, OptEnd, exit_0, exit_3, exit_5, cut_short, finished,
  at_least_one, clamp, opt_loop, opt,
}

abbrev pub IsPositive : ℤ → Type 0
IsPositive (pos zero) = ⊥
IsPositive (pos (suc n)) = Unit {0}
IsPositive (negsuc n) = ⊥

-- The pools and the threads that the program starts with are not empty.
abbrev pub HasLimits : OptEnd → Type 0
HasLimits (finished o) = IsPositive o.nfd × IsPositive o.npdu × IsPositive o.nthr
HasLimits end = Unit {0}

at_least_one-IsPositive : (n : ℤ) → IsPositive (at_least_one n)
at_least_one-IsPositive (pos zero) = tt
at_least_one-IsPositive (pos (suc n)) = tt
at_least_one-IsPositive (negsuc n) = tt

clamp-HasLimits : (end : OptEnd) → HasLimits (clamp end)
clamp-HasLimits (finished o) =
    (at_least_one-IsPositive o.nfd, at_least_one-IsPositive o.npdu, at_least_one-IsPositive o.nthr)
clamp-HasLimits exit_0 = tt
clamp-HasLimits exit_3 = tt
clamp-HasLimits exit_5 = tt
clamp-HasLimits (cut_short o) = tt

-- `-npdu` and `--`
abbrev pub npdu_flag : Text
npdu_flag = 45 ∷ 110 ∷ 112 ∷ 100 ∷ 117 ∷ []

abbrev pub end_flag : Text
end_flag = 45 ∷ 45 ∷ []

cut_behind :
    (lib : Library) (args : List Text) (o : Options)
    → clamp (opt_loop lib (end_flag ∷ args) o) ≡ cut_short o
unfolding opt_loop flag_of find_flag
cut_behind lib [] o = refl
cut_behind lib (a ∷ args) o = refl

-- When opt reaches the end of the arguments, there is at least one descriptor, one PDU and one
-- thread. Behind `--` it returns before that: with `-npdu` and a value in front of it, the number
-- of PDUs is what atoi makes of the value, also 0 or a negative one.
pub opt-HasLimits :
    (lib : Library) (args : List Text) (o : Options)
    → HasLimits (opt lib args o)
      × ((v : Text)
          → opt lib (npdu_flag ∷ v ∷ end_flag ∷ args) o
            ≡ cut_short (record o { npdu = lib.atoi v }))
unfolding opt opt_loop flag_of find_flag
opt-HasLimits lib args o = (limits args, λ v. cut_behind lib args (record o { npdu = lib.atoi v }))
  where
    limits : (args : List Text) → HasLimits (opt lib args o)
    limits [] = tt
    limits (a ∷ args) = clamp-HasLimits (opt_loop lib (a ∷ args) o)
