-- ===== src/Hiread/Halves.antt =====
-- The decoders set `need` to what is missing, where hi_read compares it with what the PDU has: when
-- the first half of a PDU is there they are called for ever, and nothing more is read.
use open_lib.Prelude.{
  ℕ, ◌+◌, ◌-◌, ◌*◌, ◌≤◌, ◌<◌, false, some, List, ◌∷◌, ◌≡◌, refl, sym, subst, ◌∙◌, Mem, memcpy,
  memcpy-front, arith, ltb-false, lt→ltb,
}
use mathlib.Core.Path.{ap₂}
use open_lib.Hiios.{HiPdu, out_of_fuel, ok, fault, noerr}
use open_lib.S5066.{dts_min_pdu_size}
use open_lib.Sis.{Sis}
use open_lib.Sis.Decode.{with_cur, sis_decode, too_long}
use open_lib.Dts.Receive.{Receiver, set_cur, dts_decode}
use open_lib.Hiread.{Read, got, Reading, hi_read}
use open_lib.Hiread.Protocols.{sis, dts}
use open_lib.Hiread.Stuck.{Unmoved, hi_read-Unmoved}

sis_decode-half :
    (st : Sis) (req : HiPdu) (now v : ℕ)
    → req.m 0 ≡ 0x90
    → req.m 1 ≡ 0xeb
    → req.m 2 ≡ 0
    → req.m 3 < 128
    → req.m 3 * 256 + req.m 4 ≡ v
    → v ≤ 2195
    → 5 ≤ req.ap
    → req.ap < v + 5
    → sis_decode st req now ≡ ok (noerr, with_cur st (record req { need = v + 5 - req.ap }))
unfolding sis_decode
sis_decode-half st req now v p0 p1 p2 small field high header half =
    let fits : too_long req.m ≡ false = ground arith in
    rw
      (
        ltb-false req.ap 5 header,
        p0,
        p1,
        p2,
        fits,
        lt→ltb (req.m 3) 128 small,
        field,
        lt→ltb req.ap (v + 5) half,
      )
      refl

-- The connection has `req`, but for what it needs, which is there.
abbrev SisHas : Sis → HiPdu → Sis → Type 0
SisHas st req st' =
    (need : ℕ) × (st' ≡ with_cur st (record req { need = need })) × (0 < need) × (need ≤ req.ap)

abbrev DtsHas : Receiver → HiPdu → Receiver → Type 0
DtsHas st req st' =
    (need : ℕ) × (st' ≡ set_cur st (record req { need = need })) × (0 < need) × (need ≤ req.ap)

-- The first bytes of a SIS primitive are read, at least half of it and its header, but not all.
-- hi_read never returns, and reads no more.
pub hi_read-sis_half :
    (fuel n now v : ℕ) (bytes : Mem) (reads : List Read) (r : Reading Sis) (pdu : HiPdu)
    → r.conn.io.cur_pdu ≡ some pdu
    → pdu.ap ≡ 0
    → 0 < pdu.need
    → bytes 0 ≡ 0x90
    → bytes 1 ≡ 0xeb
    → bytes 2 ≡ 0
    → bytes 3 < 128
    → bytes 3 * 256 + bytes 4 ≡ v
    → v ≤ 2195
    → 5 ≤ n
    → pdu.need ≤ n
    → n < v + 5
    → v + 5 ≤ 2 * n
    → hi_read (sis now) fuel (got n bytes ∷ reads) r ≡ fault out_of_fuel
unfolding sis
hi_read-sis_half fuel n now v bytes reads r pdu has start needs p0 p1 p2 small field high header
      enough part half =
    let m = memcpy pdu.m pdu.ap bytes n in
    let req : HiPdu = record pdu { m = m; ap = pdu.ap + n } in
    let front : (i : ℕ) → i < n → m i ≡ bytes i = λ i lt.
      subst (λ k. memcpy pdu.m k bytes n i ≡ bytes i) (sym start)
        (memcpy-front pdu.m bytes n i lt) in
    let Holds = SisHas r.conn req in
    hi_read-Unmoved (sis now) Holds
      (λ st (need, e, pos, le). subst (Unmoved (sis now) Holds) (sym e) (record {
        pdu = record req { need = need };
        next = with_cur r.conn (record req { need = v + 5 - req.ap });
        has = refl;
        needs = pos;
        enough = le;
        decodes =
            sis_decode-half (with_cur r.conn (record req { need = need }))
              (record req { need = need }) now v (front 0 (omega arith) ∙ p0)
              (front 1 (omega arith) ∙ p1) (front 2 (omega arith) ∙ p2)
              (subst (λ b. b < 128) (sym (front 3 (omega arith))) small)
              (ap₂ (λ a b. a * 256 + b) (front 3 (omega arith)) (front 4 (omega arith)) ∙ field)
              high (omega (arith, start)) (omega (arith, start));
        again = (v + 5 - req.ap, refl, omega (arith, start), omega (arith, start));
      }))
      fuel n bytes reads r pdu has (pdu.need, refl, needs, omega (arith, start))

dts_decode-half :
    (st : Receiver) (req : HiPdu)
    → req.ap < dts_min_pdu_size
    → dts_decode st req ≡ ok (noerr, set_cur st (record req { need = dts_min_pdu_size - req.ap }))
unfolding dts_decode
dts_decode-half st req few = rw (lt→ltb req.ap dts_min_pdu_size few) refl

-- Three to five bytes of a D_PDU are read. hi_read never returns, and reads no more.
pub hi_read-dts_half :
    (fuel n : ℕ) (bytes : Mem) (reads : List Read) (r : Reading Receiver) (pdu : HiPdu)
    → r.conn.io.cur_pdu ≡ some pdu
    → pdu.ap ≡ 0
    → 0 < pdu.need
    → pdu.need ≤ n
    → n < dts_min_pdu_size
    → dts_min_pdu_size ≤ 2 * n
    → hi_read dts fuel (got n bytes ∷ reads) r ≡ fault out_of_fuel
unfolding dts
hi_read-dts_half fuel n bytes reads r pdu has start needs enough few half =
    let req : HiPdu = record pdu { m = memcpy pdu.m pdu.ap bytes n; ap = pdu.ap + n } in
    let Holds = DtsHas r.conn req in
    hi_read-Unmoved dts Holds
      (λ st (need, e, pos, le). subst (Unmoved dts Holds) (sym e) (record {
        pdu = record req { need = need };
        next = set_cur r.conn (record req { need = dts_min_pdu_size - req.ap });
        has = refl;
        needs = pos;
        enough = le;
        decodes =
            dts_decode-half (set_cur r.conn (record req { need = need }))
              (record req { need = need }) (omega (arith, start));
        again = (dts_min_pdu_size - req.ap, refl, omega (arith, start), omega (arith, start));
      }))
      fuel n bytes reads r pdu has (pdu.need, refl, needs, omega (arith, start))
