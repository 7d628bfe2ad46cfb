-- ===== src/Hiread/Stuck.antt =====
-- A decoder that asks for fewer bytes than its PDU has already is called for ever.
use open_lib.Prelude.{
  ℕ, zero, suc, ◌≤◌, ◌<◌, false, ◌||◌, some, List, ◌∷◌, ◌≡◌, refl, ap, ◌∙◌, Mem, ltb, ◌==◌,
  if◌then◌else◌, arith,
}
use open_lib.Hiios.{HiPdu, out_of_fuel, Result, ok, fault, ◌>>=◌, Verdict, noerr, conn_close}
use open_lib.Hiread.{Protocol, Read, got, Reading, received, decode_loop, hi_read, End, refuse}

module _ {S : Type 0} (protocol : Protocol S) where
  open protocol use {cur_pdu, set_cur_pdu, alloc, decode, closes}

  -- The state has a PDU with what it needs, the decoder takes nothing, and leads to such a state.
  pub record Unmoved (Holds : S → Type 0) (st : S) : Type 0 where
    pub pdu : HiPdu
    pub next : S
    pub has : cur_pdu st ≡ some pdu
    pub needs : 0 < pdu.need
    pub enough : pdu.need ≤ pdu.ap
    pub decodes : decode st pdu ≡ ok (noerr, next)
    pub again : Holds next

  called_again : (need n : ℕ) → 0 < need → need ≤ n → (need == 0 || ltb n need) ≡ false
  called_again need n h k = ground arith

  pub decode_loop-Unmoved :
      (Holds : S → Type 0)
      → ((st : S) → Holds st → Unmoved Holds st)
      → (fuel : ℕ) (st : S) → Holds st
      → decode_loop protocol fuel st (cur_pdu st) ≡ fault out_of_fuel
  unfolding decode_loop
  decode_loop-Unmoved Holds stays zero st h =
      let u = stays st h in
      ap (decode_loop protocol zero st) u.has
      ∙ ap (λ b. if b then ok (noerr, st) else fault out_of_fuel)
          (called_again u.pdu.need u.pdu.ap u.needs u.enough)
  decode_loop-Unmoved Holds stays (suc fuel) st h =
      let u = stays st h in
      let go : Verdict → S → Result (Verdict × S) = λ v st'. elim v [
        | conn_close ↦ ok (conn_close, st')
        | noerr ↦ decode_loop protocol fuel st' (cur_pdu st')
      ] in
      ap (decode_loop protocol (suc fuel) st) u.has
      ∙ ap (λ b. if b then ok (noerr, st) else (decode st u.pdu >>= λ r. go r.0 r.1))
          (called_again u.pdu.need u.pdu.ap u.needs u.enough)
      ∙ ap (λ r. r >>= λ r. go r.0 r.1) u.decodes
      ∙ decode_loop-Unmoved Holds stays fuel u.next u.again

  -- hi_read, when what it has just read leads to such a state.
  pub hi_read-Unmoved :
      (Holds : S → Type 0)
      → ((st : S) → Holds st → Unmoved Holds st)
      → (fuel n : ℕ) (bytes : Mem) (reads : List Read) (r : Reading S) (pdu : HiPdu)
      → cur_pdu r.conn ≡ some pdu
      → Holds (received protocol r pdu n bytes).conn
      → hi_read protocol fuel (got n bytes ∷ reads) r ≡ fault out_of_fuel
  unfolding hi_read
  hi_read-Unmoved Holds stays fuel n bytes reads r pdu has h =
      let r2 = received protocol r pdu n bytes in
      let go : Result (Verdict × S) → Result (End × Reading S) = λ m. m >>= λ (v, st). elim v [
        | conn_close ↦ refuse protocol r2 st
        | noerr ↦ hi_read protocol fuel reads (record r2 { conn = st })
      ] in
      rw (has, hi_read) (rw has refl) ∙ ap go (decode_loop-Unmoved Holds stays fuel r2.conn h)
