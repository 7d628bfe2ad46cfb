-- ===== src/Smtp/Gateway.antt =====
-- smtp_send of smtp.c: what a SIS connection hands to the SMTP side.
use open_lib.Prelude.{ℕ, Option, none, some, List, [], ◌∷◌, ◌++◌, ◌≡◌, ap, ◌∙◌, at}
use open_lib.Hiios.{HiPdu, core_dump, null_pointer, Result, ok, fault, hi_pdu_alloc}
use open_lib.Todo.{QelKind, poll, pdu, listen, tcp_s, tcp_c, snmp}
use open_lib.Smtp.{in_init, in_end, SmtpIo}

-- A connection of the SMTP side.
pub record SmtpConn : Type 0 where
  pub fd : ℕ
  pub kind : QelKind
  pub smtp : SmtpIo

-- The SIS connection `fd`: its pair, and the connections of the first SMTP specs, `none` when there
-- are no specs.
pub record Gateway : Type 0 where
  pub fd : ℕ
  pub pair : Option SmtpConn
  pub conns : Option (List ℕ)

-- How smtp_send ends: by exit(1), without a connection, or with the data handed on.
pub data SendEnd : Type 0 where
  exits no_connection handed_on : SendEnd

abbrev pub with_pair : Gateway → SmtpConn → SmtpIo → Gateway
with_pair gw c smtp = record gw { pair = some (record c { smtp = smtp }) }

-- The reply of the other side goes to the SMTP client.
abbrev pub reply :
    Gateway → SmtpConn → Option (HiPdu × List HiPdu) → HiPdu → ℕ → ℕ → Result (SendEnd × Gateway)
reply gw c none req len d = fault null_pointer
reply gw c (some (resp, rest)) req len d = ok (
  handed_on,
  with_pair gw c (record c.smtp {
    free = rest;
    sent = c.smtp.sent ++ ((record { iov_base = at req.m d; iov_len = len } ∷ []) ∷ []);
    state = in_end;
  }),
)

-- The role is that of the pair. A server gets the reply as it is; a client waits for the greeting of
-- the server.
abbrev pub by_role : Gateway → SmtpConn → QelKind → HiPdu → ℕ → ℕ → Result (SendEnd × Gateway)
by_role gw c tcp_s req len d = reply gw c (hi_pdu_alloc c.smtp.free) req len d
by_role gw c tcp_c req len d = ok (
  handed_on,
  with_pair gw c (record c.smtp { uni_ind_hmtp = some (record req { scan = d }); state = in_init }),
)
by_role gw c poll req len d = fault core_dump
by_role gw c pdu req len d = fault core_dump
by_role gw c listen req len d = fault core_dump
by_role gw c snmp req len d = fault core_dump

-- `len` bytes at the offset `d` of the PDU. `opened` is what hi_open_tcp returns, if it is called.
abbrev pub send_by :
    Option SmtpConn → Gateway → Option SmtpConn → HiPdu → ℕ → ℕ → Result (SendEnd × Gateway)
send_by opened gw (some c) req len d = by_role gw c c.kind req len d
send_by opened gw none req len d = elim gw.conns [
  | none ↦ ok (exits, gw)
  | some conns ↦ elim opened [
    | none ↦ ok (no_connection, gw)
    | some c ↦
        (let c1 = record c { smtp = record c.smtp { pair = some gw.fd } } in
          by_role (record gw { pair = some c1; conns = some (c.fd ∷ conns) }) c1 c1.kind req len d)
  ]
]

unfoldable pub smtp_send : Option SmtpConn → Gateway → HiPdu → ℕ → ℕ → Result (SendEnd × Gateway)
smtp_send opened gw req len d = send_by opened gw gw.pair req len d

-- A U_PDU for a connection that has a pair. For the SMTP client, wherever its dialog stands, it waits
-- for a greeting again, and the primitive that it was working on is lost. For the server the data
-- is sent as it is, if there is a free PDU, and the connection is at its end.
pub smtp_send-pair :
    (opened : Option SmtpConn) (gw : Gateway) (c : SmtpConn) (req : HiPdu) (len d : ℕ)
    → gw.pair ≡ some c
    → (c.kind ≡ tcp_c
        → smtp_send opened gw req len d
          ≡ ok (
            handed_on,
            with_pair gw c
                (record c.smtp { uni_ind_hmtp = some (record req { scan = d }); state = in_init }),
          ))
      × ((resp : HiPdu) (rest : List HiPdu)
          → c.kind ≡ tcp_s
          → c.smtp.free ≡ resp ∷ rest
          → smtp_send opened gw req len d
            ≡ ok (
              handed_on,
              with_pair gw c (record c.smtp {
                free = rest;
                sent = c.smtp.sent ++ ((record { iov_base = at req.m d; iov_len = len } ∷ []) ∷ []);
                state = in_end;
              }),
            ))
unfolding smtp_send hi_pdu_alloc
smtp_send-pair opened gw c req len d has =
    let role : smtp_send opened gw req len d ≡ by_role gw c c.kind req len d =
      ap (λ o. send_by opened gw o req len d) has in
    (
      λ k. role ∙ ap (λ kind. by_role gw c kind req len d) k,
      λ resp rest k free.
          role
          ∙ ap (λ kind. by_role gw c kind req len d) k
          ∙ ap (λ f. reply gw c (hi_pdu_alloc f) req len d) free,
    )
