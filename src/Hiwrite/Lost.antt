-- ===== src/Hiwrite/Lost.antt =====
-- Of several PDUs that wait to be written only the first is: `hi_send0` links them by `qel.n`, and
-- `hi_make_iov` follows `wn`.
use open_lib.Prelude.{
  ℕ, suc, ◌+◌, ◌≤◌, ◌<◌, true, Option, none, some, List, [], ◌∷◌, ltb, leb, ◌==◌, ◌≡◌, ◌≢◌, refl,
  ap, sym, subst, eqb_iff, ◌∙◌, Bool-cases, inl, inr, if◌then◌else◌, arith,
}
use open_lib.Prelude.Lists.{length}
use open_lib.Hiios.{Iov, ok, assertop, ◌>>◌}
use open_lib.Hiwrite.{
  Pdu, Writer, set_pdu, hi_n_iov, has_bytes, take_pdu, make_iov_loop, hi_make_iov, hi_send0,
  hi_send3, link_req, link_write,
}

-- Only `p` is reached from `to_write_consume`; `others` more PDUs are counted.
pub record Waits (w : Writer) (p : ℕ) (iov : List Iov) (others : ℕ) : Type 0 where
  pub first : w.to_write_consume ≡ some p
  pub last : w.to_write_produce ≢ none
  pub alone : (w.pdus p).wn ≡ none
  pub holds : (w.pdus p).iov ≡ iov
  pub counted : w.n_to_write ≡ suc others

pub hi_make_iov-single :
    (iov_max : ℕ) (w : Writer) (p : ℕ)
    → w.to_write_consume ≡ some p
    → (w.pdus p).wn ≡ none
    → 0 < w.n_to_write
    → has_bytes (w.pdus p).iov ≡ true
    → length (w.pdus p).iov ≤ hi_n_iov iov_max
    → hi_make_iov iov_max w ≡ ok (take_pdu (record w { iov = [] }) p)
unfolding hi_make_iov make_iov_loop
hi_make_iov-single iov_max w p first alone counted full fits =
    let w0 = record w { iov = [] } in
    let lim = hi_n_iov iov_max in
    let rest = make_iov_loop lim lim (take_pdu w0 p) (w.pdus p).wn in
    let fits_test : leb (length w0.iov + length (w.pdus p).iov) lim ≡ true = ground arith in
    let counted_test : ltb 0 w.n_to_write ≡ true = ground arith in
    ap (make_iov_loop lim (suc lim) w0) first
    ∙ ap
        (λ b.
          if b
          then assertop (ltb 0 w.n_to_write)
            >> (assertop (has_bytes (w.pdus p).iov)
                >> make_iov_loop lim lim (take_pdu w0 p) (w.pdus p).wn)
          else ok w0)
        fits_test
    ∙ ap (λ b. assertop b >> (assertop (has_bytes (w.pdus p).iov) >> rest)) counted_test
    ∙ ap (λ b. assertop b >> rest) full
    ∙ ap (make_iov_loop lim lim (take_pdu w0 p)) alone

-- A PDU is handed over for each element of the list.
pub send_all : Writer → List (ℕ × List Iov) → Writer
send_all w [] = w
send_all w ((q, iov) ∷ qs) = send_all (hi_send3 w none q iov) qs

abbrev pub Without : ℕ → List (ℕ × List Iov) → Type 0
Without p [] = Unit {0}
Without p ((q, iov) ∷ qs) = (p ≢ q) × Without p qs

set_pdu-Waits :
    (w : Writer) (p : ℕ) (iov : List Iov) (others q : ℕ) (pdu : Pdu)
    → (p ≡ q → (pdu.wn ≡ none) × (pdu.iov ≡ iov))
    → Waits w p iov others
    → Waits (set_pdu w q pdu) p iov others
set_pdu-Waits w p iov others q pdu same h = elim (Bool-cases (p == q)) [
  | inl e ↦
      let (wn, kept) = same ((eqb_iff p q).0 e) in
      record {
        first = h.first;
        last = h.last;
        alone = rw e wn;
        holds = rw e kept;
        counted = h.counted;
      }
  | inr e ↦ record {
    first = h.first;
    last = h.last;
    alone = rw e h.alone;
    holds = rw e h.holds;
    counted = h.counted;
  }
]

-- A further PDU, behind the last one, is not reached by `wn`.
link_write-Waits :
    (w : Writer) (p : ℕ) (iov : List Iov) (others q : ℕ) (o : Option ℕ)
    → o ≢ none
    → Waits w p iov others
    → Waits (link_write w q o) p iov others
link_write-Waits w p iov others q none ne h = absurd (ne refl)
link_write-Waits w p iov others q (some l) ne h =
    set_pdu-Waits w p iov others l _ (λ e. (rw (sym e) h.alone, rw (sym e) h.holds)) h

hi_send3-Waits :
    (w : Writer) (p q : ℕ) (iov qiov : List Iov) (others : ℕ)
    → p ≢ q
    → Waits w p iov others
    → Waits (hi_send3 w none q qiov) p iov (suc others)
unfolding hi_send3 hi_send0
hi_send3-Waits w p q iov qiov others ne h =
    let h1 =
      set_pdu-Waits w p iov others q (record (w.pdus q) { iov = qiov }) (λ e. absurd (ne e)) h in
    let w1 = set_pdu w q (record (w.pdus q) { iov = qiov }) in
    let h2 = set_pdu-Waits w1 p iov others q _ (λ e. absurd (ne e)) h1 in
    let w2 = link_req w1 none q in
    let h3 = link_write-Waits w2 p iov others q w2.to_write_produce h2.last h2 in
    let w3 = link_write w2 q w2.to_write_produce in
    let h4 =
      set_pdu-Waits w3 p iov others q (record (w3.pdus q) { qel_n = none }) (λ e. absurd (ne e))
        h3 in
    record {
      first = h4.first;
      last = λ e. absurd (cc);
      alone = h4.alone;
      holds = h4.holds;
      counted = omega (arith, h4.counted);
    }

send_all-Waits :
    (w : Writer) (p : ℕ) (iov : List Iov) (others : ℕ) (qs : List (ℕ × List Iov))
    → Without p qs
    → Waits w p iov others
    → Waits (send_all w qs) p iov (others + length qs)
unfolding send_all
send_all-Waits w p iov others [] ne h =
    let k : others ≡ others + 0 = omega arith in subst (λ n. Waits w p iov n) k h
send_all-Waits w p iov others ((q, qiov) ∷ qs) ne h =
    let k : suc others + length qs ≡ others + suc (length qs) = omega arith in
    subst (λ n. Waits (send_all (hi_send3 w none q qiov) qs) p iov n) k
      (send_all-Waits (hi_send3 w none q qiov) p iov (suc others) qs ne.1
        (hi_send3-Waits w p q iov qiov others ne.0 h))

-- While a PDU waits alone, others are handed over. The next iovecs are those of the first PDU only;
-- afterwards the queue is empty, while its counter says that the others are still there.
pub hi_make_iov-send_all :
    (iov_max : ℕ) (w : Writer) (p : ℕ) (iov : List Iov) (qs : List (ℕ × List Iov))
    → Waits w p iov 0
    → Without p qs
    → has_bytes iov ≡ true
    → length iov ≤ hi_n_iov iov_max
    → (w' : Writer) × (hi_make_iov iov_max (send_all w qs) ≡ ok w')
      × (w'.iov ≡ iov)
      × (w'.to_write_consume ≡ none)
      × (w'.to_write_produce ≡ none)
      × (w'.n_to_write ≡ length qs)
hi_make_iov-send_all iov_max w p iov qs h ne full fits =
    let k = send_all-Waits w p iov 0 qs ne h in
    let w1 = record (send_all w qs) { iov = [] } in
    (
      take_pdu w1 p,
      hi_make_iov-single iov_max (send_all w qs) p k.first k.alone (omega (arith, k.counted))
          (ap has_bytes k.holds ∙ full)
          (subst (λ v. length v ≤ hi_n_iov iov_max) (sym k.holds) fits),
      k.holds,
      k.alone,
      ap (λ o. elim o as (λ x. Option ℕ) [ none ↦ none | some q ↦ w1.to_write_produce ]) k.alone,
      omega (arith, k.counted),
    )
