-- ===== src/Hiios.antt =====
-- The objects of hiios.h that the protocol layers work on, and the helpers of hiread.c and
-- hiwrite.c that they call. Objects are values: `hit->free_pdus` is the list of the free PDUs,
-- first one first, and a PDU that is handed to `hi_send` is recorded with the bytes it has then.
pub mod Outcome
use open_lib.Prelude.{
  ℕ, ◌+◌, ◌-◌, Bool, Option, none, some, List, [], ◌∷◌, Mem, at, memcpy, ltb, if◌then◌else◌,
}

-- Where the C program stops or leaves its own memory. `out_of_fuel` is no such place: a loop of
-- the model has used up its rounds.
pub data Fault : Type 0 where
  core_dump null_pointer bad_index buffer_overflow out_of_fuel : Fault

pub data Result {ℓ} (A : Type ℓ) : Type ℓ where
  ok : A → Result A
  fault : Fault → Result A

infixl 5 ◌>>=◌ ◌>>◌
abbrev pub ◌>>=◌ {ℓ κ} : {A : Type ℓ} {B : Type κ} → Result A → (A → Result B) → Result B
ok a >>= f = f a
fault e >>= f = fault e

abbrev pub ◌>>◌ {ℓ} : {B : Type ℓ} → Result (Unit {0}) → Result B → Result B
m >> k = m >>= λ _. k

-- `ASSERTOP` in the build that the Makefile makes, with DEBUG and without the option -ra.
abbrev pub assertop : Bool → Result (Unit {0})
assertop c = if c then ok tt else fault core_dump

-- `struct hi_pdu`. `m` is the memory from `pdu->m` on, `ap` is `pdu->ap - pdu->m` and `scan` is
-- `pdu->scan - pdu->m`; `rx_map` is `ad.dtsrx.rx_map`.
pub record HiPdu : Type 0 where
  pub m : Mem
  pub ap : ℕ
  pub scan : ℕ
  pub need : ℕ
  pub len : ℕ
  pub rx_map : Mem

abbrev pub hi_pdu_mem : ℕ
hi_pdu_mem = 2200

-- `struct iovec`
pub record Iov : Type 0 where
  pub iov_base : Mem
  pub iov_len : ℕ

-- The bytes that writev sends for some iovecs, and how many they are.
abbrev pub wire : List Iov → Mem
wire [] i = 0
wire (v ∷ vs) i = if ltb i v.iov_len then v.iov_base i else wire vs (i - v.iov_len)

abbrev pub wire_len : List Iov → ℕ
wire_len [] = 0
wire_len (v ∷ vs) = v.iov_len + wire_len vs

-- The part of `hi_pdu_alloc` behind `retpdu`: the memory and `len` stay as they were.
unfoldable pub hi_pdu_reset : HiPdu → HiPdu
hi_pdu_reset p = record p { ap = 0; scan = 0; need = 1 }

-- hi_pdu_alloc from the thread's own list. Its other branch, which takes PDUs from the shuffler, is in
-- Pool; here an empty list stands for both lists being empty.
unfoldable pub hi_pdu_alloc : List HiPdu → Option (HiPdu × List HiPdu)
unfolding hi_pdu_reset
hi_pdu_alloc [] = none
hi_pdu_alloc (p ∷ free) = some (hi_pdu_reset p, free)

-- A use of `hi_pdu_alloc` that calls NEVERNEVER, or reads through the pointer, when it is 0.
unfoldable pub alloc_or : Fault → List HiPdu → Result (HiPdu × List HiPdu)
unfolding hi_pdu_alloc
alloc_or e free = elim (hi_pdu_alloc free) [ none ↦ fault e | some r ↦ ok r ]

-- The fields of `struct hi_io` that reading uses.
pub record HiIo : Type 0 where
  pub cur_pdu : Option HiPdu
  pub reqs : List HiPdu

-- The bytes behind the PDU that has just been read start the next one.
unfoldable pub hi_checkmore : List HiPdu → HiIo → HiPdu → ℕ → Result (List HiPdu × HiIo × HiPdu)
unfolding alloc_or
hi_checkmore free io req minlen =
    if ltb req.len req.ap
    then (do
      (nreq, rest) ← alloc_or core_dump free
      let more = req.ap - req.len
      let next = record nreq {
        need = minlen;
        m = memcpy nreq.m nreq.ap (at req.m req.len) more;
        ap = nreq.ap + more;
      }
      ok (rest, record io { cur_pdu = some next }, record req { ap = req.len }))
    else ok (free, record io { cur_pdu = none }, req)

unfoldable pub hi_free_req : List HiPdu → HiPdu → List HiPdu
hi_free_req free req = req ∷ free

unfoldable pub hi_add_to_reqs : HiIo → HiPdu → HiIo
hi_add_to_reqs io req = record io { reqs = req ∷ io.reqs }

-- What a decoder tells the read loop: `HI_CONN_CLOSE` is 1, `HI_NOERR` is 0.
pub data Verdict : Type 0 where
  noerr conn_close : Verdict
