-- ===== src/Testping.antt =====
-- testping.c: a connection on which what comes in is sent back in upper case. http.c works on the
-- same state.
use open_lib.Prelude.{
  ℕ, zero, suc, ◌+◌, ◌-◌, true, Option, none, some, List, [], ◌∷◌, ◌++◌, Mem, store, at, memcpy,
  ltb, if◌then◌else◌,
}
use open_lib.Hiios.{
  HiPdu, HiIo, Iov, core_dump, Result, ok, fault, ◌>>=◌, hi_pdu_alloc, alloc_or, hi_add_to_reqs,
  Verdict, noerr,
}
use open_lib.Hiread.{Protocol}
use open_lib.Smtp.{toupper}
pub mod Reply

-- The connection's reading state, the free PDUs, and what was handed to `hi_send`, oldest first.
pub record PlainIo : Type 0 where
  pub io : HiIo
  pub free : List HiPdu
  pub sent : List (List Iov)

abbrev pub set_cur : PlainIo → HiPdu → PlainIo
set_cur st pdu = record st { io = record st.io { cur_pdu = some pdu } }

-- `hi_send` of a response: `resp->len` bytes.
abbrev pub hi_send : PlainIo → List HiPdu → HiPdu → PlainIo
hi_send st rest resp = record st {
  free = rest;
  sent = st.sent ++ ((record { iov_base = resp.m; iov_len = resp.len } ∷ []) ∷ []);
}

abbrev pub min_ping : ℕ
min_ping = 5

abbrev pub max_ping : ℕ
max_ping = 10

-- `for (i = n-1; i; --i) m[i] = toupper(m[i])`
unfoldable pub upper_loop : ℕ → Mem → Mem
upper_loop zero m = m
upper_loop (suc i) m = upper_loop i (store m (suc i) (toupper (m (suc i))))

-- `n` is not 0.
unfoldable pub test_ping_reply : PlainIo → HiPdu → Result PlainIo
unfolding upper_loop alloc_or
test_ping_reply st req = do
  let n = req.ap
  (resp, rest) ← alloc_or core_dump st.free
  let m = memcpy resp.m resp.ap req.m n
  ok (hi_send st rest (record resp { m = upper_loop (n - 1) m; ap = resp.ap + n }))

unfoldable pub test_ping : PlainIo → HiPdu → Result PlainIo
unfolding test_ping_reply alloc_or hi_add_to_reqs
test_ping st req =
    let n = req.ap in
    if ltb n min_ping then ok (set_cur st (record req { need = min_ping - n })) else (do
      st1 ←
          (if ltb max_ping n
            then (do
              (nreq, rest) ← alloc_or core_dump st.free
              let next = record nreq {
                m = memcpy nreq.m nreq.ap (at req.m max_ping) (n - max_ping);
                ap = nreq.ap + (n - max_ping);
              }
              ok (set_cur (record st { free = rest }) next))
            else ok (record st { io = record st.io { cur_pdu = none } }))
      test_ping_reply (record st1 { io = hi_add_to_reqs st1.io req }) req)

-- `io->cur_pdu = hi_pdu_alloc(hit)`
abbrev pub take_free : PlainIo → Option PlainIo
take_free st = elim (hi_pdu_alloc st.free) [
  | none ↦ none
  | some (pdu, rest) ↦ some (set_cur (record st { free = rest }) pdu)
]

unfoldable pub ping : Protocol PlainIo
unfolding test_ping hi_pdu_alloc
ping = record {
  cur_pdu = λ st. st.io.cur_pdu;
  set_cur_pdu = set_cur;
  alloc = take_free;
  decode = λ st req. (do st1 ← test_ping st req; ok (noerr, st1));
  closes = true;
}
