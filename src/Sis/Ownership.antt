-- ===== src/Sis/Ownership.antt =====
-- Who owns a SAP after sis_bind, sis_unbind and sis_clean.
use open_lib.Prelude.{
  ℕ, zero, suc, ◌+◌, ◌*◌, ◌/◌, ◌%◌, ◌-◌, ◌<◌, ◌≤◌, ◌≡◌, ◌≢◌, refl, sym, ap, ◌∙◌, inl, inr, true,
  false, Bool-cases, Option-cases, Option, none, some, List, [], ◌∷◌, ◌++◌, Mem, store, arith,
  if◌then◌else◌,
}
use mathlib.Core.Bool.{true≢false}
use native.Mathlib.Decide.{ℕ_discrete}
use open_lib.Hiios.{HiPdu, Iov, ok, hi_pdu_reset, alloc_or, noerr, wire}
use open_lib.S5066.{SisSap, Saptab}
use open_lib.Sis.{Sis, sis_encode_start, sis_send_bind_rej, sis_send_bind_ok, sis_send_unbind_ind}
use open_lib.Sis.Bind.{is_io, clean_saps, sis_clean, bind_entry, set_sap, sis_bind, sis_unbind}

is_io_self : (fd : ℕ) → is_io (some fd) fd ≡ true
is_io_self fd = ground arith

is_io_sound : (o : Option ℕ) (fd : ℕ) → is_io o fd ≡ true → o ≡ some fd
is_io_sound none fd h = absurd (ground arith)
is_io_sound (some x) fd h = ap some (ground arith)

clean_saps-above : (n : ℕ) (t : Saptab) (fd i : ℕ) → n ≤ i → clean_saps n t fd i ≡ t i
unfolding clean_saps
clean_saps-above zero t fd i h = refl
clean_saps-above (suc n) t fd i h = ground (arith, clean_saps-above n t fd i (omega arith))

none-some : (fd : ℕ) → none ≢ some fd
none-some fd e = true≢false (ap (λ o. elim o [ none ↦ true | some x ↦ false ]) e)

-- What is left of an entry when its SAP is cleaned.
abbrev cleaned : SisSap → ℕ → SisSap
cleaned e fd = if is_io e.io fd then (record e { io = none }) else e

clean_saps-below : (n : ℕ) (t : Saptab) (fd i : ℕ) → i < n → clean_saps n t fd i ≡ cleaned (t i) fd
unfolding clean_saps
clean_saps-below zero t fd i h = absurd (omega arith)
clean_saps-below (suc n) t fd i h = elim (ℕ_discrete i n) [
  | yes e ↦ rw (e, clean_saps-above n t fd n (omega arith)) (ground arith)
  | no ne ↦ ground (arith, ne, clean_saps-below n t fd i (omega (arith, ne)))
]

-- sis_clean takes every SAP below 16 that the connection owns from it, keeps the entry but for its
-- owner, and leaves the SAPs of other connections as they are.
pub sis_clean_lem :
    (t : Saptab) (fd i : ℕ)
    → i < 16
    → ((sis_clean t fd i).io ≢ some fd)
      × ((t i).io ≡ some fd → sis_clean t fd i ≡ record (t i) { io = none })
      × ((t i).io ≢ some fd → sis_clean t fd i ≡ t i)
sis_clean_lem t fd i h = elim (Bool-cases (is_io (t i).io fd)) [
  | inl mine ↦
      let here : sis_clean t fd i ≡ record (t i) { io = none } =
        clean_saps-below 16 t fd i h ∙ rw mine refl in
      (
        λ e. none-some fd (sym (ap (λ (s : SisSap). s.io) here) ∙ e),
        λ e. here,
        λ ne. absurd (ne (is_io_sound (t i).io fd mine)),
      )
  | inr other ↦
      let here : sis_clean t fd i ≡ t i = clean_saps-below 16 t fd i h ∙ rw other refl in
      let not_mine : (t i).io ≢ some fd =
        λ e. absurd (true≢false (sym (is_io_self fd) ∙ ap (λ o. is_io o fd) (sym e) ∙ other)) in
      (
        λ e. not_mine (ap (λ (s : SisSap). s.io) (sym here) ∙ e),
        λ e. absurd (not_mine e),
        λ ne. here,
      )
]

-- The one primitive that a PDU of the free list is sent with.
abbrev pub primitive : HiPdu → ℕ → ℕ → Mem
primitive a op len =
    store
      (store (store (store (store (store a.m 0 0x90) 1 0xeb) 2 0x00) 3 ((len - 5) / 256 % 256)) 4
        ((len - 5) % 256))
      5 op

pub encode_start-free :
    (a : HiPdu) (rest : List HiPdu) (op len : ℕ)
    → sis_encode_start (a ∷ rest) op len
      ≡ ok (record (hi_pdu_reset a) { m = primitive a op len; len = len; ap = 0 + len }, rest)
unfolding sis_encode_start alloc_or hi_pdu_reset
encode_start-free a rest op len = refl

-- The answers of sis_bind to the connection `fd`.
abbrev pub acceptance : ℕ → HiPdu → ℕ → ℕ × List Iov
acceptance fd a sap = (
  fd,
  record {
    iov_base = store (store (store (primitive a 3 9) 6 (sap * 16 % 256)) 7 0) 8 200;
    iov_len = 9;
  }
      ∷ [],
)

abbrev rejection : ℕ → HiPdu → ℕ × List Iov
rejection fd a = (fd, record { iov_base = store (primitive a 4 7) 6 3; iov_len = 7 } ∷ [])

-- A primitive with its type in byte 5 and one more byte.
abbrev pub IsPrimitive : ℕ × List Iov → ℕ → ℕ → ℕ → Type 0
IsPrimitive (to, frame) fd op byte6 = (to ≡ fd) × (wire frame 5 ≡ op) × (wire frame 6 ≡ byte6)

-- A S_BIND_REQUEST of nine bytes, with two free PDUs. sis_bind succeeds, the connection owns the
-- SAP, and the entries of the other SAPs are as before. If the SAP was free, what is sent is one
-- S_BIND_ACCEPTED. If it was taken, a S_BIND_REJECTED with the reason 3 and a S_BIND_ACCEPTED are
-- sent, and the former owner has lost the SAP.
pub sis_bind_lem :
    (st : Sis) (req a b : HiPdu) (rest : List HiPdu)
    → req.len ≡ 9
    → st.free ≡ a ∷ b ∷ rest
    → let sap = req.m 6 / 16 % 16 in
      (st' : Sis) × (sis_bind st req ≡ ok (noerr, st'))
      × (st'.saptab sap ≡ bind_entry st.fd req.m)
      × ((i : ℕ) → i ≢ sap → st'.saptab i ≡ st.saptab i)
      × (accept : ℕ × List Iov) × IsPrimitive accept st.fd 3 (sap * 16)
      × ((st.saptab sap).io ≡ none → st'.sent ≡ st.sent ++ (accept ∷ []))
      × ((x : ℕ)
          → (st.saptab sap).io ≡ some x
          → (reject : ℕ × List Iov) × IsPrimitive reject st.fd 4 3
            × (st'.sent ≡ (st.sent ++ (reject ∷ [])) ++ (accept ∷ [])))
unfolding sis_bind sis_send_bind_ok sis_send_bind_rej
sis_bind_lem st req a b rest el ef =
    let sap = req.m 6 / 16 % 16 in
    let table = set_sap st.saptab sap (bind_entry st.fd req.m) in
    let mine : table sap ≡ bind_entry st.fd req.m = ground arith in
    let others : (i : ℕ) → i ≢ sap → table i ≡ st.saptab i = λ i ne. ground (arith, ne) in
    elim (Option-cases (st.saptab sap).io) [
      | inl free ↦ (
        record st {
          free = b ∷ rest;
          saptab = table;
          sap = sap;
          sent = st.sent ++ (acceptance st.fd a sap ∷ []);
        },
        rw (el, free, ef, encode_start-free a (b ∷ rest) 3 9) refl,
        mine,
        others,
        acceptance st.fd a sap,
        (refl, omega arith, omega arith),
        λ e. refl,
        λ x e. absurd (none-some x (sym free ∙ e)),
      )
      | inr (x, taken) ↦ (
        record st {
          free = rest;
          saptab = table;
          sap = sap;
          sent = (st.sent ++ (rejection st.fd a ∷ [])) ++ (acceptance st.fd b sap ∷ []);
        },
        rw (el, taken, ef, encode_start-free a (b ∷ rest) 4 7, encode_start-free b rest 3 9) refl,
        mine,
        others,
        acceptance st.fd b sap,
        (refl, omega arith, omega arith),
        λ e. absurd (none-some x (sym e ∙ taken)),
        λ y e. (rejection st.fd a, (refl, omega arith, omega arith), refl),
      )
    ]

-- A S_UNBIND_REQUEST of six bytes, with a free PDU. sis_unbind succeeds, the connection owns no
-- SAP below 16 any more, the SAPs of other connections keep their entries, and one
-- S_UNBIND_INDICATION with the reason 0 is sent.
pub sis_unbind_lem :
    (st : Sis) (req a : HiPdu) (rest : List HiPdu)
    → req.len ≡ 6
    → st.free ≡ a ∷ rest
    → (st' : Sis) × (sis_unbind st req ≡ ok (noerr, st'))
      × ((i : ℕ) → i < 16 → (st'.saptab i).io ≢ some st.fd)
      × ((i : ℕ) → i < 16 → (st.saptab i).io ≢ some st.fd → st'.saptab i ≡ st.saptab i)
      × (ind : ℕ × List Iov) × IsPrimitive ind st.fd 5 0
      × (st'.sent ≡ st.sent ++ (ind ∷ []))
unfolding sis_unbind sis_send_unbind_ind
sis_unbind_lem st req a rest el ef =
    let table = sis_clean st.saptab st.fd in
    let ind : ℕ × List Iov =
      (st.fd, record { iov_base = store (primitive a 5 7) 6 0; iov_len = 7 } ∷ []) in
    (
      record st { free = rest; saptab = table; sent = st.sent ++ (ind ∷ []) },
      rw (el, ef, encode_start-free a rest 5 7) refl,
      λ i h. (sis_clean_lem st.saptab st.fd i h).0,
      λ i h ne. (sis_clean_lem st.saptab st.fd i h).2 ne,
      ind,
      (refl, omega arith, omega arith),
      refl,
    )
