-- ===== src/Prelude/Memory.antt =====
-- A buffer is a function from offsets to its bytes. A store of an `int` into a `char` keeps the
-- low eight bits. No bounds are built in: an operation that may leave its buffer says so itself.
use open_lib.Prelude.Tests.{ltb, leb, ◌==◌, if◌then◌else◌}
use Prim.Native.Nat.{ℕ, ◌+◌, ◌-◌, ◌%◌, ◌<◌}
use mathlib.Core.Path.{◌≡◌, ap}
use mathlib.Core.Bool.{◌&&◌}
use native.Mathlib.Omega.{arith}

abbrev pub Mem : Type 0
Mem = ℕ → ℕ

abbrev pub IsBytes : Mem → Type 0
IsBytes m = (i : ℕ) → m i < 256

-- `m[i] = v`
abbrev pub store : Mem → ℕ → ℕ → Mem
store m i v j = if j == i then v % 256 else m j

-- `m + k`, read as a buffer of its own
abbrev pub at : Mem → ℕ → Mem
at m k i = m (k + i)

-- `memcpy(dst + to, src, n)`
abbrev pub memcpy : Mem → ℕ → Mem → ℕ → Mem
memcpy dst to src n j = if leb to j && ltb j (to + n) then src (j - to) else dst j

pub store-IsBytes : (m : Mem) (i v : ℕ) → IsBytes m → IsBytes (store m i v)
store-IsBytes m i v h j = ground (arith, h j)

pub memcpy-IsBytes :
    (dst : Mem) (to : ℕ) (src : Mem) (n : ℕ)
    → IsBytes dst
    → IsBytes src
    → IsBytes (memcpy dst to src n)
memcpy-IsBytes dst to src n d s j = ground (arith, d j, s (j - to))

pub memcpy-front : (dst src : Mem) (n i : ℕ) → i < n → memcpy dst 0 src n i ≡ src i
memcpy-front dst src n i lt = let e : i - 0 ≡ i = omega arith in ground (arith, ap src e)
