-- ===== src/Daemon/Setup/Order.antt =====
-- The order of the remote hosts, from the command line to the table of the protocols.
use open_lib.Prelude.{
  ℕ, ◌+◌, ◌≤◌, Bool, true, false, some, List, [], ◌∷◌, ◌++◌, map, ◌≡◌, refl, ap, ◌∙◌, ◌==◌,
  if◌then◌else◌, arith,
}
use mathlib.Core.List.{append-nil}
use open_lib.Prelude.Lists.{length}
use open_lib.Prelude.Pointers.{update}
use open_lib.Daemon.{Text, HostSpec, parsed, refused, parse_port_spec}
use open_lib.Daemon.Options.{Options, Library, local_host, finished, remote_loop}
use open_lib.Conns.{Remote, s5066_smtp}
use open_lib.Daemon.Setup.{Setup, greet_remote, add_remote, open_remote, open_remotes}

-- The arguments with the specs that parse_port_spec makes of them: of all, or of those in front of one
-- that it refuses.
abbrev pub Parses : Library → List Text → List HostSpec → Type 0
Parses lib [] [] = Unit {0}
Parses lib [] (hs ∷ specs) = ⊥
Parses lib (a ∷ args) [] =
    (head : List HostSpec) → parse_port_spec lib.resolves (lib.scan a) a head local_host ≡ refused
Parses lib (a ∷ args) (hs ∷ specs) =
    ((head : List HostSpec)
      → parse_port_spec lib.resolves (lib.scan a) a head local_host ≡ parsed (hs ∷ head))
    × Parses lib args specs

-- The list in reverse order, in front of another one.
abbrev pub onto {ℓ} : {A : Type ℓ} → List A → List A → List A
onto [] ys = ys
onto (x ∷ xs) ys = onto xs (x ∷ ys)

-- The specs of a protocol.
abbrev pub only : ℕ → List HostSpec → List HostSpec
only p [] = []
only p (hs ∷ specs) = if hs.proto == p then hs ∷ only p specs else only p specs

-- How many are opened at once.
abbrev pub to_open : List HostSpec → ℕ
to_open [] = 0
to_open (hs ∷ specs) = if hs.proto == s5066_smtp then to_open specs else 1 + to_open specs

abbrev pub spec_of : Remote → HostSpec
spec_of r = r.spec

abbrev pub known : ℕ → Setup → List HostSpec
known p st = map spec_of (st.table.specs p)

remote_loop-Parses :
    (lib : Library) (args : List Text) (specs : List HostSpec) (o : Options)
    → Parses lib args specs
    → remote_loop lib args o ≡ finished (record o { remotes = onto specs o.remotes })
unfolding remote_loop
remote_loop-Parses lib [] [] o h = refl
remote_loop-Parses lib [] (hs ∷ specs) o h = absurd h
remote_loop-Parses lib (a ∷ args) [] o h = rw (h o.remotes, remote_loop) refl
remote_loop-Parses lib (a ∷ args) (hs ∷ specs) o h =
    rw (h.0 o.remotes, remote_loop)
      (remote_loop-Parses lib args specs (record o { remotes = hs ∷ o.remotes }) h.1)

map-update :
    (f : ℕ → List Remote) (q p : ℕ) (r : Remote)
    → map spec_of (update f q (r ∷ f q) p)
      ≡ (if q == p then r.spec ∷ map spec_of (f p) else map spec_of (f p))
map-update f q p r = ground arith

known-greet_remote :
    (p : ℕ) (st : Setup) (hs : HostSpec) (io : ℕ) → known p (greet_remote st hs io) ≡ known p st
known-greet_remote p st hs io = ground arith

known-add_remote :
    (p : ℕ) (st : Setup) (hs : HostSpec)
    → known p (add_remote st hs) ≡ (if hs.proto == p then hs ∷ known p st else known p st)
known-add_remote p st hs = map-update st.table.specs hs.proto p _

known-open_remote :
    (p : ℕ) (st : Setup) (hs : HostSpec) (io : ℕ)
    → known p (open_remote st hs io) ≡ (if hs.proto == p then hs ∷ known p st else known p st)
known-open_remote p st hs io = known-greet_remote p _ hs io ∙ map-update st.table.specs hs.proto p _

only-onto : (p : ℕ) (xs ys : List HostSpec) → only p (onto xs ys) ≡ onto (only p xs) (only p ys)
only-onto p [] ys = refl
only-onto p (hs ∷ xs) ys = only-onto p xs (hs ∷ ys) ∙ ground arith

onto-onto : (xs ys zs : List HostSpec) → onto (onto xs ys) zs ≡ onto ys (xs ++ zs)
onto-onto [] ys zs = refl
onto-onto (x ∷ xs) ys zs = onto-onto xs (x ∷ ys) zs

to_open-onto : (xs ys : List HostSpec) → to_open (onto xs ys) ≡ to_open xs + to_open ys
to_open-onto [] ys = omega arith
to_open-onto (hs ∷ xs) ys = to_open-onto xs (hs ∷ ys) ∙ ground arith

if_known :
    (p : ℕ) (b : Bool) (x y : Setup) (r : List HostSpec)
    → (b ≡ true → known p x ≡ r)
    → (b ≡ false → known p y ≡ r)
    → known p (if b then x else y) ≡ r
if_known p true x y r h k = h refl
if_known p false x y r h k = k refl

onto_cons :
    (p : ℕ) (hs : HostSpec) (specs known : List HostSpec)
    → onto (only p specs) (if hs.proto == p then hs ∷ known else known)
      ≡ onto (only p (hs ∷ specs)) known
onto_cons p hs specs known = ground arith

open_remotes-known :
    (p : ℕ) (specs : List HostSpec) (ios : List ℕ) (st : Setup)
    → to_open specs ≤ length ios
    → known p (open_remotes specs (map some ios) st) ≡ onto (only p specs) (known p st)
unfolding open_remotes
open_remotes-known p [] ios st h = refl
open_remotes-known p (hs ∷ specs) [] st h =
    if_known p (hs.proto == s5066_smtp) _ _ _
      (λ e.
        open_remotes-known p specs [] (add_remote st hs) (ground arith)
        ∙ ap (onto (only p specs)) (known-add_remote p st hs)
        ∙ onto_cons p hs specs (known p st))
      (λ e. absurd (ground arith))
open_remotes-known p (hs ∷ specs) (io ∷ ios) st h =
    if_known p (hs.proto == s5066_smtp) _ _ _
      (λ e.
        open_remotes-known p specs (io ∷ ios) (add_remote st hs) (ground arith)
        ∙ ap (onto (only p specs)) (known-add_remote p st hs)
        ∙ onto_cons p hs specs (known p st))
      (λ e.
        open_remotes-known p specs ios (open_remote st hs io) (ground arith)
        ∙ ap (onto (only p specs)) (known-open_remote p st hs io)
        ∙ onto_cons p hs specs (known p st))

-- The arguments for remote hosts are such that parse_port_spec makes a spec of each, or of those in
-- front of one that it refuses. Nothing was known before, and all hosts that are opened at once can
-- be. Then the loop over the arguments returns, and the table has, for each protocol, exactly the
-- specs that were made, in the order of the command line, the first one in front; what stands behind
-- an argument that is refused is lost.
pub open_remotes-Parses :
    (lib : Library) (args : List Text) (specs : List HostSpec) (o : Options) (ios : List ℕ)
    (st : Setup) (p : ℕ)
    → Parses lib args specs
    → o.remotes ≡ []
    → to_open specs ≤ length ios
    → known p st ≡ []
    → (o' : Options) × (remote_loop lib args o ≡ finished o')
      × (known p (open_remotes o'.remotes (map some ios) st) ≡ only p specs)
open_remotes-Parses lib args specs o ios st p h start enough empty =
    let reversed : only p (onto specs []) ≡ onto (only p specs) [] = only-onto p specs [] in
    (
      record o { remotes = onto specs o.remotes },
      remote_loop-Parses lib args specs o h,
      ap (λ r. known p (open_remotes (onto specs r) (map some ios) st)) start
          ∙ open_remotes-known p (onto specs []) ios st (omega (arith, to_open-onto specs []))
          ∙ ap (onto (only p (onto specs []))) empty
          ∙ ap (λ xs. onto xs []) reversed
          ∙ onto-onto (only p specs) [] []
          ∙ append-nil (only p specs),
    )
