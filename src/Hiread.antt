-- ===== src/Hiread.antt =====
-- hi_read of hiread.c: the loop over read, and the loop over the decoder of the protocol. The
-- decoders are those of the other modules, through an interface.
use open_lib.Prelude.{
  ℕ, zero, suc, ◌+◌, Bool, true, false, ◌||◌, Option, none, some, List, [], ◌∷◌, Mem, memcpy, ltb,
  ◌==◌, if◌then◌else◌,
}
use open_lib.Hiios.{HiPdu, out_of_fuel, Result, ok, fault, ◌>>=◌, Verdict, noerr, conn_close}
pub mod Stuck
pub mod Protocols
pub mod Halves

-- What hi_read uses of a protocol whose connection is in a state of the type `S`. `alloc` is
-- `io->cur_pdu = hi_pdu_alloc(hit)`, `none` if that gives 0. For SMTP hi_read returns when the decoder
-- asks for the connection to be closed: `closes` is false.
pub record Protocol (S : Type 0) : Type 0 where
  pub cur_pdu : S → Option HiPdu
  pub set_cur_pdu : S → HiPdu → S
  pub alloc : S → Option S
  pub decode : S → HiPdu → Result (Verdict × S)
  pub closes : Bool

-- What read returns, with errno.
pub data Read : Type 0 where
  got : ℕ → Mem → Read
  eof eintr eagain failed : Read

-- Why hi_read ends: hi_close was called, nothing more is there to be read, there was no PDU and the
-- connection is back in the todo queue, the decoder for SMTP refused, or (`waits`) there are no more
-- results, and the thread is in read.
pub data End : Type 0 where
  closed exhausted retry_later refused waits : End

pub record Reading (S : Type 0) : Type 0 where
  pub conn : S
  pub n_pdu_in : ℕ
  pub n_read : ℕ

module _ {S : Type 0} (protocol : Protocol S) where
  open protocol use {cur_pdu, set_cur_pdu, alloc, decode, closes}

  -- The decoder is called while the PDU has what it needs.
  unfoldable pub decode_loop : ℕ → S → Option HiPdu → Result (Verdict × S)
  decode_loop fuel st none = ok (noerr, st)
  decode_loop zero st (some pdu) =
      if pdu.need == 0 || ltb pdu.ap pdu.need then ok (noerr, st) else fault out_of_fuel
  decode_loop (suc fuel) st (some pdu) =
      let more : Result (Verdict × S) = (do
        (v, st') ← decode st pdu
        elim v [
          | conn_close ↦ ok (conn_close, st')
          | noerr ↦ decode_loop fuel st' (cur_pdu st')
        ]) in
      if pdu.need == 0 || ltb pdu.ap pdu.need then ok (noerr, st) else more

  -- The PDU that the bytes go to.
  abbrev pub with_pdu : Reading S → Option HiPdu → Option (Reading S)
  with_pdu r (some pdu) = some r
  with_pdu r none = elim (alloc r.conn) [
    | none ↦ none
    | some st ↦ some (record r { conn = st; n_pdu_in = r.n_pdu_in + 1 })
  ]

  abbrev pub received : Reading S → HiPdu → ℕ → Mem → Reading S
  received r pdu n bytes = record r {
    conn = set_cur_pdu r.conn (record pdu { m = memcpy pdu.m pdu.ap bytes n; ap = pdu.ap + n });
    n_read = r.n_read + n;
  }

  -- `closes` decides what becomes of a connection that the decoder refuses.
  abbrev pub refuse : Reading S → S → Result (End × Reading S)
  refuse r st = ok (if closes then closed else refused, record r { conn = st })

  unfoldable pub hi_read : ℕ → List Read → Reading S → Result (End × Reading S)
  hi_read fuel [] r = elim (with_pdu r (cur_pdu r.conn)) [
    | none ↦ ok (retry_later, r)
    | some r1 ↦ ok (waits, r1)
  ]
  hi_read fuel (got n bytes ∷ reads) r = elim (with_pdu r (cur_pdu r.conn)) [
    | none ↦ ok (retry_later, r)
    | some r1 ↦ elim (cur_pdu r1.conn) [
      | none ↦ ok (retry_later, r)
      | some pdu ↦ (do
        let r2 = received r1 pdu n bytes
        (v, st) ← decode_loop fuel r2.conn (cur_pdu r2.conn)
        elim v [ conn_close ↦ refuse r2 st | noerr ↦ hi_read fuel reads (record r2 { conn = st }) ])
    ]
  ]
  hi_read fuel (eof ∷ reads) r = elim (with_pdu r (cur_pdu r.conn)) [
    | none ↦ ok (retry_later, r)
    | some r1 ↦ ok (closed, r1)
  ]
  hi_read fuel (eintr ∷ reads) r = elim (with_pdu r (cur_pdu r.conn)) [
    | none ↦ ok (retry_later, r)
    | some r1 ↦ hi_read fuel reads r1
  ]
  hi_read fuel (eagain ∷ reads) r = elim (with_pdu r (cur_pdu r.conn)) [
    | none ↦ ok (retry_later, r)
    | some r1 ↦ ok (exhausted, r1)
  ]
  hi_read fuel (failed ∷ reads) r = elim (with_pdu r (cur_pdu r.conn)) [
    | none ↦ ok (retry_later, r)
    | some r1 ↦ ok (closed, r1)
  ]
