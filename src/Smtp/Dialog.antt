-- ===== src/Smtp/Dialog.antt =====
-- The dialog of the SMTP client of smtp.c: its steps, and what is sent in each.
use open_lib.Prelude.{
  ℕ, ◌+◌, ◌-◌, ◌%◌, ◌^◌, ◌++◌, ◌⊎◌, at, ◌≡◌, Bool, true, false, Option, some, List, [], ◌∷◌, Mem,
}
use open_lib.Prelude.Lists.{length}
use open_lib.Hiios.{HiPdu, Iov}
use open_lib.Smtp.{
  SmtpState, in_init, in_ehlo, in_rdy, in_mail, in_rcpt, in_data, in_send, in_sent, in_quit, SmtpIo,
  upper4, bytes_of,
}
use open_lib.Smtp.Client.{skip_ehlo, find_data, find_dot}

-- Where a reply 354 is waited for.
abbrev pub awaits_354 : SmtpState → Bool
awaits_354 in_mail = true
awaits_354 in_rcpt = true
awaits_354 in_data = true
awaits_354 in_send = true
awaits_354 _ = false

-- The state, and what has been sent to the server.
abbrev pub View : Type 0
View = SmtpState × List (List Iov)

abbrev pub view : SmtpIo → View
view st = (st.state, st.sent)

-- hi_sendf of a text, which does nothing without a free PDU.
abbrev pub Texted : List (List Iov) → List ℕ → List (List Iov) → Type 0
Texted sent text sent' =
    (sent' ≡ sent)
    ⊎ (sent' ≡ sent ++ ((record { iov_base = bytes_of text; iov_len = length text } ∷ []) ∷ []))

abbrev pub ehlo_text : List ℕ
ehlo_text =
    69 ∷ 72 ∷ 76 ∷ 79 ∷ 32 ∷ 111 ∷ 112 ∷ 101 ∷ 110 ∷ 53 ∷ 48 ∷ 54 ∷ 54 ∷ 46 ∷ 111 ∷ 114 ∷ 103 ∷ 13
    ∷ 10 ∷ []

abbrev pub quit_text : List ℕ
quit_text = 81 ∷ 85 ∷ 73 ∷ 84 ∷ 13 ∷ 10 ∷ []

-- The bytes of a mail from `from` to `until`.
abbrev pub part_of : Mem → ℕ → ℕ → List Iov
part_of m from until =
    record { iov_base = at m from; iov_len = (until + 2 ^ 64 - from) % 2 ^ 64 } ∷ []

-- The commands of a mail: from behind its EHLO to the end of its line with DATA.
abbrev pub commands_of : HiPdu → ℕ → List Iov
commands_of mail payload =
    let m = upper4 mail.m mail.scan in
    part_of m payload (find_data (mail.ap - payload) m payload mail.ap)

-- Its message: from where the commands ended to the dot.
abbrev pub message_of : HiPdu → List Iov
message_of mail =
    part_of mail.m mail.scan (find_dot (mail.ap - (mail.scan - 1)) mail.m (mail.scan - 1) mail.ap)

abbrev pub awaits_ehlo : SmtpState → Bool
awaits_ehlo in_rdy = true
awaits_ehlo in_ehlo = true
awaits_ehlo _ = false

-- The steps of a dialog about the mail `hmtp`: from the greeting to the commands, the message, the
-- report and the end.
pub data IsMove (hmtp : Option HiPdu) : View → View → Type 0 where
  stay : {v : View} → IsMove hmtp v v
  greeted :
      {sent sent' : List (List Iov)}
      → Texted sent ehlo_text sent'
      → IsMove hmtp (in_init, sent) (in_rdy, sent')
  hello :
      {s : SmtpState} {sent : List (List Iov)} {mail : HiPdu} {payload : ℕ}
      → awaits_ehlo s ≡ true
      → hmtp ≡ some mail
      → skip_ehlo (upper4 mail.m mail.scan) mail.scan mail.ap ≡ some payload
      → IsMove hmtp (s, sent) (in_send, sent ++ (commands_of mail payload ∷ []))
  entered :
      {s : SmtpState} {sent : List (List Iov)} {mail : HiPdu}
      → awaits_354 s ≡ true
      → hmtp ≡ some mail
      → IsMove hmtp (s, sent) (in_sent, sent ++ (message_of mail ∷ []))
  reported :
      {sent sent' : List (List Iov)}
      → Texted sent quit_text sent'
      → IsMove hmtp (in_sent, sent) (in_quit, sent')
  closed : {sent : List (List Iov)} → IsMove hmtp (in_quit, sent) (in_init, sent)
