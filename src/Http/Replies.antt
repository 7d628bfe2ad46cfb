-- ===== src/Http/Replies.antt =====
-- What http_decode answers.
use open_lib.Prelude.{
  ℕ, zero, suc, ◌+◌, ◌-◌, ◌≤◌, ◌<◌, true, false, none, some, List, [], ◌∷◌, ◌++◌, ◌≡◌, ◌≢◌, refl,
  sym, subst, Mem, memcpy, memcpy-front, ◌==◌, arith, ltb-false, Bool-cases, inl, inr,
}
use open_lib.Prelude.Lists.{length}
use open_lib.Hiios.{HiPdu, out_of_fuel, ok, fault, noerr, hi_pdu_reset, alloc_or, hi_add_to_reqs}
use open_lib.Smtp.{bytes_of, starts}
use open_lib.Testping.{PlainIo, set_cur}
use open_lib.Http.{
  http_encode_start, err_text, http_send_err, http_send_data, http_send_file, url_lim, http_decode,
  http,
}
use open_lib.Hiread.{Read, got, Reading, hi_read}
use open_lib.Hiread.Stuck.{Unmoved, hi_read-Unmoved}

-- ` HTTP/1.0`
abbrev pub version : List ℕ
version = 32 ∷ 72 ∷ 84 ∷ 84 ∷ 80 ∷ 47 ∷ 49 ∷ 46 ∷ 48 ∷ []

-- `GET /`
abbrev pub get : List ℕ
get = 71 ∷ 69 ∷ 84 ∷ 32 ∷ 47 ∷ []

url_lim-none :
    (rounds : ℕ) (m : Mem) (p : ℕ)
    → ((i : ℕ) → p ≤ i → i < p + rounds → starts version m i ≡ false)
    → url_lim rounds m p ≡ none
unfolding url_lim
url_lim-none zero m p h = refl
url_lim-none (suc rounds) m p h =
    rw (h p (omega arith) (omega arith))
      (url_lim-none rounds m (p + 1) (λ i lo hi. h i (omega arith) (omega arith)))

url_lim-some :
    (rounds : ℕ) (m : Mem) (p lim : ℕ)
    → p ≤ lim
    → lim < p + rounds
    → starts version m lim ≡ true
    → (q : ℕ) × (url_lim rounds m p ≡ some q)
unfolding url_lim
url_lim-some zero m p lim lo hi h = absurd (omega arith)
url_lim-some (suc rounds) m p lim lo hi h = elim (Bool-cases (starts version m p)) [
  | inl e ↦ (p, rw e refl)
  | inr e ↦ rw e (url_lim-some rounds m (p + 1) lim (ground arith) (omega arith) h)
]

-- The answer with the status 500.
abbrev pub error_text : List ℕ
error_text = err_text 500 (69 ∷ 114 ∷ 114 ∷ 111 ∷ 114 ∷ [])

-- A complete request: at least 16 bytes that begin with GET and have a version further on. When its
-- second letter of the path is neither a nor b, the free PDU is sent with the error, and the
-- length of the text. When it is a or b, nothing is sent, and the free PDU is gone.
pub http_decode_answers :
    (st : PlainIo) (req resp : HiPdu) (rest : List HiPdu) (lim : ℕ)
    → st.free ≡ resp ∷ rest
    → 16 ≤ req.ap
    → starts get req.m 0 ≡ true
    → starts version req.m lim ≡ true
    → 5 ≤ lim
    → lim + 8 < req.ap
    → ((req.m 6 ≢ 97)
        → (req.m 6 ≢ 98)
        → (m : Mem) × (http_decode st req
            ≡ ok (
              noerr,
              record {
                io = record { cur_pdu = none; reqs = req ∷ st.io.reqs };
                free = rest;
                sent =
                    st.sent ++ ((record { iov_base = m; iov_len = length error_text } ∷ []) ∷ []);
              },
            ))
          × ((i : ℕ) → i < length error_text → m i ≡ bytes_of error_text i))
      × ((req.m 6 ≡ 97)
          → http_decode st req
            ≡ ok (
              noerr,
              record {
                io = record { cur_pdu = none; reqs = req ∷ st.io.reqs };
                free = rest;
                sent = st.sent;
              },
            ))
      × ((req.m 6 ≡ 98)
          → http_decode st req
            ≡ ok (
              noerr,
              record {
                io = record { cur_pdu = none; reqs = req ∷ st.io.reqs };
                free = rest;
                sent = st.sent;
              },
            ))
unfolding http_decode http_send_err http_send_data http_send_file http_encode_start alloc_or
    hi_pdu_reset hi_add_to_reqs
http_decode_answers st req resp rest lim free enough gets versions low high =
    let (q, found) = url_lim-some (req.ap - 8 - 5) req.m 5 lim low (omega arith) versions in
    (
      λ na nb. (
        memcpy resp.m 0 (bytes_of error_text) (length error_text + 1),
        (let not_a : (req.m 6 == 97) ≡ false = ground arith in
            let not_b : (req.m 6 == 98) ≡ false = ground arith in
            rw (ltb-false req.ap 16 enough, gets, found, not_a, not_b, free) refl),
        λ i lt. memcpy-front resp.m (bytes_of error_text) (length error_text + 1) i (omega arith),
      ),
      λ e. rw (ltb-false req.ap 16 enough, gets, found, e, free) refl,
      λ e. rw (ltb-false req.ap 16 enough, gets, found, e, free) refl,
    )

-- What hi_read has in its PDU, but for what the PDU needs, which is there.
abbrev Has : PlainIo → HiPdu → PlainIo → Type 0
Has st req st' =
    (need : ℕ) × (st' ≡ set_cur st (record req { need = need })) × (0 < need) × (need ≤ req.ap)

http_decode-half :
    (st : PlainIo) (req : HiPdu)
    → 16 ≤ req.ap
    → starts get req.m 0 ≡ true
    → ((i : ℕ) → 5 ≤ i → i + 8 < req.ap → starts version req.m i ≡ false)
    → http_decode st req ≡ ok (noerr, set_cur st (record req { need = 1 }))
unfolding http_decode
http_decode-half st req enough gets versions =
    rw
      (
        ltb-false req.ap 16 enough,
        gets,
        url_lim-none (req.ap - 8 - 5) req.m 5 (λ i lo hi. versions i lo (omega arith)),
      )
      refl

-- What has been read begins with GET and has 16 bytes or more, but no version yet. hi_read never
-- returns, and reads no more.
pub hi_read-http_half :
    (fuel n : ℕ) (bytes : Mem) (reads : List Read) (r : Reading PlainIo) (pdu : HiPdu)
    → r.conn.io.cur_pdu ≡ some pdu
    → 0 < pdu.need
    → pdu.need ≤ pdu.ap + n
    → 16 ≤ pdu.ap + n
    → starts get (memcpy pdu.m pdu.ap bytes n) 0 ≡ true
    → ((i : ℕ)
        → 5 ≤ i
        → i + 8 < pdu.ap + n
        → starts version (memcpy pdu.m pdu.ap bytes n) i ≡ false)
    → hi_read http fuel (got n bytes ∷ reads) r ≡ fault out_of_fuel
unfolding http
hi_read-http_half fuel n bytes reads r pdu has needs enough long gets versions =
    let req : HiPdu = record pdu { m = memcpy pdu.m pdu.ap bytes n; ap = pdu.ap + n } in
    let Holds = Has r.conn req in
    hi_read-Unmoved http Holds
      (λ st (need, e, pos, le). subst (Unmoved http Holds) (sym e) (record {
        pdu = record req { need = need };
        next = set_cur r.conn (record req { need = 1 });
        has = refl;
        needs = pos;
        enough = le;
        decodes =
            http_decode-half (set_cur r.conn (record req { need = need }))
              (record req { need = need }) long gets versions;
        again = (1, refl, omega arith, omega arith);
      }))
      fuel n bytes reads r pdu has (pdu.need, refl, needs, enough)
