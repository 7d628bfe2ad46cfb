-- ===== src/Http.antt =====
-- http.c
use open_lib.Prelude.{
  ℕ, zero, suc, ◌+◌, ◌-◌, ◌/◌, ◌%◌, Bool, true, not, Option, none, some, List, [], ◌∷◌, ◌++◌, Mem,
  ltb, ◌==◌, memcpy, if◌then◌else◌,
}
use open_lib.Prelude.Lists.{length}
use open_lib.Hiios.{
  HiPdu, core_dump, Result, ok, fault, ◌>>=◌, alloc_or, hi_add_to_reqs, Verdict, noerr, conn_close,
}
use open_lib.Hiread.{Protocol}
use open_lib.Smtp.{bytes_of, starts}
use open_lib.Testping.{PlainIo, set_cur, hi_send, take_free}
pub mod Replies

unfoldable pub http_encode_start : PlainIo → Result (HiPdu × List HiPdu)
unfolding alloc_or
http_encode_start st = alloc_or core_dump st.free

-- `%d` for a number with that many digits at most, the last one last.
unfoldable pub decimal : ℕ → ℕ → List ℕ
decimal zero n = []
decimal (suc digits) n =
    let front = decimal digits (n / 10) in
    if ltb n 10 then (48 + n) ∷ [] else front ++ ((48 + n % 10) ∷ [])

-- `%03d` for a number below 1000
abbrev pub three_digits : ℕ → List ℕ
three_digits r = (48 + r / 100) ∷ (48 + r / 10 % 10) ∷ (48 + r % 10) ∷ []

-- "HTTP/1.0 %03d %s\r\nContent-Type: text/plain\r\nContent-Length: %d\r\n\r\n%s"
unfoldable pub err_text : ℕ → List ℕ → List ℕ
unfolding decimal
err_text r m =
    (72 ∷ 84 ∷ 84 ∷ 80 ∷ 47 ∷ 49 ∷ 46 ∷ 48 ∷ 32 ∷ [])
    ++ (three_digits r
        ++ ((32 ∷ [])
            ++ (m
                ++ ((13 ∷ 10 ∷ 67 ∷ 111 ∷ 110 ∷ 116 ∷ 101 ∷ 110 ∷ 116 ∷ 45 ∷ 84 ∷ 121 ∷ 112 ∷ 101
                      ∷ 58 ∷ 32 ∷ 116 ∷ 101 ∷ 120 ∷ 116 ∷ 47 ∷ 112 ∷ 108 ∷ 97 ∷ 105 ∷ 110 ∷ 13 ∷ 10
                      ∷ 67 ∷ 111 ∷ 110 ∷ 116 ∷ 101 ∷ 110 ∷ 116 ∷ 45 ∷ 76 ∷ 101 ∷ 110 ∷ 103 ∷ 116
                      ∷ 104 ∷ 58 ∷ 32 ∷ [])
                    ++ (decimal 10 (length m) ++ ((13 ∷ 10 ∷ 13 ∷ 10 ∷ []) ++ m))))))

-- sprintf writes a zero byte behind the text.
unfoldable pub http_send_err : PlainIo → ℕ → List ℕ → Result PlainIo
unfolding http_encode_start err_text
http_send_err st r text = do
  (resp, rest) ← http_encode_start st
  let line = err_text r text
  ok (
      hi_send st rest
        (record resp { m = memcpy resp.m 0 (bytes_of line) (length line + 1); len = length line }))

-- The response is allocated, and nothing is sent.
unfoldable pub http_send_data : PlainIo → Result PlainIo
unfolding http_encode_start
http_send_data st = do (resp, rest) ← http_encode_start st; ok (record st { free = rest })

unfoldable pub http_send_file : PlainIo → Result PlainIo
unfolding http_encode_start
http_send_file st = do (resp, rest) ← http_encode_start st; ok (record st { free = rest })

-- `sizeof("GET / HTTP/1.0\n\n")-1`
abbrev pub http_min_pdu_size : ℕ
http_min_pdu_size = 16

-- The offset of the first ` HTTP/1.0` from `p` on, among `rounds` offsets.
unfoldable pub url_lim : ℕ → Mem → ℕ → Option ℕ
url_lim zero m p = none
url_lim (suc rounds) m p =
    let rest = url_lim rounds m (p + 1) in
    if starts (32 ∷ 72 ∷ 84 ∷ 84 ∷ 80 ∷ 47 ∷ 49 ∷ 46 ∷ 48 ∷ []) m p then some p else rest

-- The end of the URL is only compared with 0: the functions that are given the URL do not use it.
abbrev pub http_answer : PlainIo → Mem → Result PlainIo
http_answer st m =
    if m 6 == 97
    then http_send_data st
    else if m 6 == 98
    then http_send_file st
    else http_send_err st 500 (69 ∷ 114 ∷ 114 ∷ 111 ∷ 114 ∷ [])

unfoldable pub http_decode : PlainIo → HiPdu → Result (Verdict × PlainIo)
unfolding url_lim http_send_err http_send_data http_send_file hi_add_to_reqs
http_decode st req =
    let n = req.ap in
    let answer : Result (Verdict × PlainIo) = (do
      let io = record st.io { cur_pdu = none }
      st1 ← http_answer (record st { io = hi_add_to_reqs io req }) req.m
      ok (noerr, st1)) in
    if ltb n http_min_pdu_size
    then ok (noerr, set_cur st (record req { need = http_min_pdu_size - n }))
    else if not (starts (71 ∷ 69 ∷ 84 ∷ 32 ∷ 47 ∷ []) req.m 0)
    then ok (conn_close, st)
    else elim (url_lim (n - 8 - 5) req.m 5) [
      | none ↦ ok (noerr, set_cur st (record req { need = 1 }))
      | some lim ↦ answer
    ]

unfoldable pub http : Protocol PlainIo
unfolding http_decode
http = record {
  cur_pdu = λ st. st.io.cur_pdu;
  set_cur_pdu = set_cur;
  alloc = take_free;
  decode = http_decode;
  closes = true;
}
