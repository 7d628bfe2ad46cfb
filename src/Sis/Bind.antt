-- ===== src/Sis/Bind.antt =====
-- Binding and unbinding of SAPs in sis.c.
use open_lib.Prelude.{
  ℕ, zero, suc, ◌+◌, ◌*◌, ◌/◌, ◌%◌, Bool, false, Option, none, some, Mem, ◌==◌, if◌then◌else◌, ◌&&◌,
}
use open_lib.Hiios.{HiPdu, Result, ok, ◌>>=◌, Verdict, noerr}
use open_lib.S5066.{SisSap, Saptab}
use open_lib.Sis.{
  Sis, sismtu, sis_send_bind_rej, sis_send_bind_ok, sis_send_unbind_ind, sis_len_check,
}

abbrev pub is_io : Option ℕ → ℕ → Bool
is_io none fd = false
is_io (some x) fd = x == fd

-- The pass of sis_clean over the first `n` SAPs.
unfoldable pub clean_saps : ℕ → Saptab → ℕ → Saptab
clean_saps zero t fd = t
clean_saps (suc n) t fd =
    let t' = clean_saps n t fd in
    λ i. if i == n && is_io (t' n).io fd then (record (t' i) { io = none }) else t' i

abbrev pub sis_clean : Saptab → ℕ → Saptab
sis_clean t fd = clean_saps 16 t fd

-- The entry that a S_BIND_REQUEST makes.
abbrev pub bind_entry : ℕ → Mem → SisSap
bind_entry fd m = record {
  io = some fd;
  rank = m 6 % 16;
  tx_mode = m 7 / 16 % 16;
  n_re_tx = m 8 / 16 % 16;
  flags = m 7 / 4 % 4 * 4 + m 7 / 2 % 2 * 2 + m 7 % 2;
}

abbrev pub set_sap : Saptab → ℕ → SisSap → Saptab
set_sap t sap e i = if i == sap then e else t i

-- A SAP that is taken is rejected, with the reason 3 (`SAP_ALRDY_ALLOC`), and then bound all the
-- same: there is no return behind sis_send_bind_rej.
unfoldable pub sis_bind : Sis → HiPdu → Result (Verdict × Sis)
sis_bind st req =
    let sap = req.m 6 / 16 % 16 in
    let rejected : Result Sis = elim (st.saptab sap).io [
      | none ↦ ok st
      | some x ↦ sis_send_bind_rej st 3
    ] in
    sis_len_check st req 4 (do
      st1 ← rejected
      let st2 = record st1 { saptab = set_sap st1.saptab sap (bind_entry st1.fd req.m); sap = sap }
      st3 ← sis_send_bind_ok st2 sap sismtu
      ok (noerr, st3))

unfoldable pub sis_unbind : Sis → HiPdu → Result (Verdict × Sis)
sis_unbind st req = sis_len_check st req 1 (do
  st1 ← sis_send_unbind_ind (record st { saptab = sis_clean st.saptab st.fd }) 0
  ok (noerr, st1))

unfoldable pub sis_bind_ok : Sis → HiPdu → Result (Verdict × Sis)
sis_bind_ok st req = sis_len_check st req 4 (ok (noerr, st))

unfoldable pub sis_bind_rej : Sis → HiPdu → Result (Verdict × Sis)
sis_bind_rej st req = sis_len_check st req 2 (ok (noerr, st))

unfoldable pub sis_unbind_ind : Sis → HiPdu → Result (Verdict × Sis)
sis_unbind_ind st req = sis_len_check st req 2 (ok (noerr, st))
