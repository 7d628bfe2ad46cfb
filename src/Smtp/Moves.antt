-- ===== src/Smtp/Moves.antt =====
-- The state machine of the SMTP client: what a call of smtp_decode_resp can do to the state, and what
-- it sends.
use open_lib.Prelude.{ℕ, ◌≡◌}
use open_lib.Hiios.{Verdict}
use open_lib.Smtp.{SmtpState, SmtpIo}
use open_lib.Smtp.Dialog.{View, view, IsMove}

-- The state and what was sent, behind a call.
abbrev pub Leads : (View → Type 0) → Verdict × SmtpIo → Type 0
Leads P (v, st) = P (view st)

abbrev Keeps : SmtpIo → SmtpIo → Type 0
Keeps st st' = view st' ≡ view st

-- The line ends in front of `p`.
abbrev scanned : SmtpIo → ℕ → SmtpIo
scanned st p = record st { cur_pdu = record st.cur_pdu { scan = p } }

-- The moves of a connection.
abbrev Moves : SmtpIo → SmtpState → View → Type 0
Moves st s = IsMove st.uni_ind_hmtp (s, st.sent)
