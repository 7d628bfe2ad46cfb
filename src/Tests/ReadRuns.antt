-- ===== src/Tests/ReadRuns.antt =====
-- Runs of hi_read with the decoders, of test_ping and http.c, of the counters and of hexdump.
use open_lib.Prelude.{ℕ, zero, suc, IsBytes, ◌<◌, none, some, List, [], ◌∷◌, ◌≡◌, refl, arith, Mem}
use open_lib.Prelude.Lists.{length, All}
use open_lib.Hiios.{HiPdu, out_of_fuel, ok, fault, noerr}
use open_lib.Sis.{Sis}
use open_lib.Hiread.{Reading, got, hi_read}
use open_lib.Hiread.Protocols.{sis}
use open_lib.Hiread.Halves.{hi_read-sis_half}
use open_lib.Smtp.{bytes_of}
use open_lib.Testping.{PlainIo}
use open_lib.Http.{http_decode}
use open_lib.Http.Replies.{error_text, http_decode_answers}
use open_lib.Tests.{new_pdu, idle, sap_in_mode}

-- A SIS connection with a PDU that is empty.
abbrev reading_sis : Reading Sis
reading_sis = record {
  conn = record {
    fd = 4;
    io = record { cur_pdu = some new_pdu; reqs = [] };
    sap = 0;
    free = [];
    saptab = λ i. sap_in_mode 0;
    dts = none;
    dts_sent = [];
    sent = [];
    hmtp = [];
  };
  n_pdu_in = 1;
  n_read = 0;
}

-- The first six bytes of a primitive of nine.
abbrev sis_bytes : Mem
sis_bytes = bytes_of (0x90 ∷ 0xeb ∷ 0 ∷ 0 ∷ 4 ∷ 1 ∷ [])

hi_read-sis_half_example :
    hi_read (sis 0) 100 (got 6 sis_bytes ∷ []) reading_sis ≡ fault out_of_fuel
hi_read-sis_half_example =
    hi_read-sis_half 100 6 0 4 sis_bytes [] reading_sis new_pdu refl refl (omega arith) refl refl
      refl (omega arith) refl (omega arith) (omega arith) (omega arith) (omega arith) (omega arith)

abbrev plain : PlainIo
plain = record { io = idle; free = new_pdu ∷ new_pdu ∷ []; sent = [] }

-- The bytes `hallo`.
abbrev hallo : HiPdu
hallo = record new_pdu { m = bytes_of (104 ∷ 97 ∷ 108 ∷ 108 ∷ 111 ∷ []); ap = 5 }

bytes_of-IsBytes : (bs : List ℕ) → All (λ b. b < 256) bs → IsBytes (bytes_of bs)
bytes_of-IsBytes [] h i = omega arith
bytes_of-IsBytes (b ∷ bs) h zero = h.0
bytes_of-IsBytes (b ∷ bs) h (suc i) = bytes_of-IsBytes bs h.1 i

hallo-IsBytes : IsBytes hallo.m
hallo-IsBytes =
    bytes_of-IsBytes (104 ∷ 97 ∷ 108 ∷ 108 ∷ 111 ∷ [])
      (omega arith, (omega arith, (omega arith, (omega arith, (omega arith, tt)))))

-- `GET /bc HTTP/1.0` and two line ends.
abbrev request : HiPdu
request = record new_pdu {
  m = bytes_of (
      71 ∷ 69 ∷ 84 ∷ 32 ∷ 47 ∷ 98 ∷ 99 ∷ 32 ∷ 72 ∷ 84 ∷ 84 ∷ 80 ∷ 47 ∷ 49 ∷ 46 ∷ 48 ∷ 10 ∷ 10 ∷ []);
  ap = 18;
}

http_decode_answers_example :
    (m : Mem) × (http_decode plain request
      ≡ ok (
        noerr,
        record {
          io = record { cur_pdu = none; reqs = request ∷ [] };
          free = new_pdu ∷ [];
          sent = (record { iov_base = m; iov_len = length error_text } ∷ []) ∷ [];
        },
      ))
    × ((i : ℕ) → i < length error_text → m i ≡ bytes_of error_text i)
http_decode_answers_example =
    (http_decode_answers plain request new_pdu (new_pdu ∷ []) 7 refl (omega arith) refl refl
        (omega arith) (omega arith)).0
      (λ e. absurd (omega (arith, e))) (λ e. absurd (omega (arith, e)))
