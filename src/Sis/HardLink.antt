-- ===== src/Sis/HardLink.antt =====
-- The hard link primitives of sis.c: each is checked for its length, logged, and left at that.
use open_lib.Hiios.{HiPdu, Result, ok, Verdict, noerr}
use open_lib.Sis.{Sis, sis_len_check}

unfoldable pub sis_hle : Sis → HiPdu → Result (Verdict × Sis)
sis_hle st req = sis_len_check st req 6 (ok (noerr, st))

unfoldable pub sis_hlt : Sis → HiPdu → Result (Verdict × Sis)
sis_hlt st req = sis_len_check st req 5 (ok (noerr, st))

unfoldable pub sis_hl_ok : Sis → HiPdu → Result (Verdict × Sis)
sis_hl_ok st req = sis_len_check st req 7 (ok (noerr, st))

unfoldable pub sis_hl_rej : Sis → HiPdu → Result (Verdict × Sis)
sis_hl_rej st req = sis_len_check st req 7 (ok (noerr, st))

unfoldable pub sis_hlt_ok : Sis → HiPdu → Result (Verdict × Sis)
sis_hlt_ok st req = sis_len_check st req 7 (ok (noerr, st))

unfoldable pub sis_hl_ind : Sis → HiPdu → Result (Verdict × Sis)
sis_hl_ind st req = sis_len_check st req 7 (ok (noerr, st))

unfoldable pub sis_hla : Sis → HiPdu → Result (Verdict × Sis)
sis_hla st req = sis_len_check st req 6 (ok (noerr, st))

unfoldable pub sis_hlr : Sis → HiPdu → Result (Verdict × Sis)
sis_hlr st req = sis_len_check st req 7 (ok (noerr, st))
