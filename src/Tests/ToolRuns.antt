-- ===== src/Tests/ToolRuns.antt =====
-- Runs of iocat.c and of the counters of serial_sync.c.
use open_lib.Prelude.{◌≡◌, refl, some, [], ◌∷◌, arith}
use open_lib.Daemon.{pos}
use open_lib.Iocat.{Numbers, Tool, gives, exits, stop}
use open_lib.Iocat.Run.{round, write_all}
use open_lib.Iocat.Bits.{bits_text, round-bits}
use open_lib.Iocat.Hex.{wx_text, round-wx}
use open_lib.Tests.{zeroes}

-- Every text is the number 65.
abbrev ascii_a : Numbers
ascii_a = record { atoi = λ t. pos 65; scan = λ t. some (pos 65) }

abbrev tool : Tool
tool = record { argi = 1; fd = some 3; done = [] }

-- `iocat -bits 8N1`
round-bits_example :
    round ascii_a ((105 ∷ []) ∷ bits_text ∷ (56 ∷ 78 ∷ 49 ∷ []) ∷ []) (gives 0 zeroes ∷ []) tool
    ≡ stop (exits 2) (record tool { argi = 3 })
round-bits_example =
    round-bits ascii_a ((105 ∷ []) ∷ bits_text ∷ (56 ∷ 78 ∷ 49 ∷ []) ∷ []) tool (56 ∷ 78 ∷ 49 ∷ [])
      0 zeroes [] refl refl

-- `iocat -wx A A`, in which one byte is written.
round-wx_example :
    round ascii_a ((105 ∷ []) ∷ wx_text ∷ (65 ∷ []) ∷ (65 ∷ []) ∷ []) [] tool
    ≡ write_all (65 ∷ []) 1 [] (record tool { argi = 5 })
round-wx_example =
    (round-wx ascii_a ((105 ∷ []) ∷ wx_text ∷ (65 ∷ []) ∷ (65 ∷ []) ∷ []) [] tool
        (((65 ∷ []), pos 65) ∷ []) refl ((refl, refl), tt) (omega arith)).1
      (65 ∷ []) (pos 65) (omega arith) (refl, refl) refl
