-- ===== src/Tests/SmtpRuns.antt =====
-- Runs of smtp.c.
use open_lib.Prelude.{ℕ, refl, inr, true, false, none, some, List, [], ◌∷◌, arith}
use open_lib.Smtp.{in_init, in_rdy, in_more1, SmtpIo, bytes_of}
use open_lib.Smtp.Stuck.{EndsOrWaits, smtp_data-stuck}
use open_lib.Tests.{new_pdu}

-- The bytes `220 a`, with a line's end.
abbrev greeting : List ℕ
greeting = 50 ∷ 50 ∷ 48 ∷ 32 ∷ 97 ∷ 13 ∷ 10 ∷ []

abbrev client : ℕ → SmtpIo
client n = record {
  state = in_init;
  cur_pdu = record new_pdu { m = bytes_of greeting; ap = n };
  pair = some 4;
  uni_ind_hmtp = none;
  sis = some 4;
  sis_paired = false;
  free = new_pdu ∷ [];
  sent = [];
  to_pair = [];
}

-- Behind the whole greeting.
abbrev greeted_client : SmtpIo
greeted_client = record (client 7) {
  state = in_rdy;
  cur_pdu = record (client 7).cur_pdu { scan = 7; need = 13 };
  free = [];
  sent =
      (record {
        iov_base = bytes_of (
            69 ∷ 72 ∷ 76 ∷ 79 ∷ 32 ∷ 111 ∷ 112 ∷ 101 ∷ 110 ∷ 53 ∷ 48 ∷ 54 ∷ 54 ∷ 46 ∷ 111 ∷ 114
            ∷ 103 ∷ 13 ∷ 10 ∷ []);
        iov_len = 19;
      }
        ∷ [])
      ∷ [];
}

abbrev server : SmtpIo
server = record (client 7) { state = in_more1 }

smtp_data-stuck_example : EndsOrWaits server true
smtp_data-stuck_example = smtp_data-stuck server (inr refl) (omega arith) (omega arith)
