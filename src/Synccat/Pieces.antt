-- ===== src/Synccat/Pieces.antt =====
-- What processStdin sends when the port takes the bytes in pieces.
use open_lib.Prelude.{
  ℕ, zero, suc, ◌+◌, ◌-◌, ◌<◌, some, List, [], ◌∷◌, ◌++◌, map, ◌≡◌, refl, ap, ◌∙◌, Mem, store, at,
  arith, fun_ext, lt→ltb, ltb-false,
}
use mathlib.Core.Path.{ap₂}
use mathlib.Core.List.{append_assoc, append-nil}
use open_lib.Prelude.Lists.{All}
use open_lib.Hiwrite.Loop.{prefix}
use open_lib.Hiwrite.Single.{total}
use open_lib.Synccat.{moved, write_pieces, process_stdin}

-- The pieces that follow the offset `done`, as they are sent: their first byte is a zero.
abbrev pub later_pieces : Mem → ℕ → List ℕ → List ℕ
later_pieces buffer done [] = []
later_pieces buffer done (n ∷ ns) =
    (0 ∷ prefix (at buffer (done + 1)) (n - 1)) ++ later_pieces buffer (done + n) ns

-- Behind `done` the buffer is still the one that was read, and at `done` it has a zero.
record Cut (buffer cut : Mem) (done : ℕ) : Type 0 where
  behind : (i : ℕ) → done < i → cut i ≡ buffer i
  zeroed : cut done ≡ 0

store-Cut :
    (buffer cut : Mem) (done n : ℕ)
    → ((i : ℕ) → done < i → cut i ≡ buffer i)
    → Cut buffer (store cut (done + n) 0) (done + n)
store-Cut buffer cut done n h = record {
  behind = λ i lt. ground (arith, h i);
  zeroed = ground arith;
}

prefix-Cut :
    (buffer cut : Mem) (done n : ℕ)
    → 0 < n
    → Cut buffer cut done
    → prefix (at cut done) n ≡ 0 ∷ prefix (at buffer (done + 1)) (n - 1)
unfolding prefix
prefix-Cut buffer cut done zero pos c = absurd (omega arith)
prefix-Cut buffer cut done (suc n) pos c =
    let first : cut (done + 0) ≡ 0 = ap cut (omega arith) ∙ c.zeroed in
    let rest : (i : ℕ) → cut (done + (1 + i)) ≡ buffer (done + 1 + i) =
      λ i. c.behind (done + (1 + i)) (omega arith) ∙ ap buffer (omega arith) in
    ap₂ (λ x xs. x ∷ xs) first (ap₂ prefix (fun_ext rest) (omega arith))

write_pieces-Cut :
    (ns : List ℕ) (buffer cut : Mem) (size done : ℕ) (sent : List ℕ)
    → All (λ n. 0 < n) ns
    → done + total ns ≡ size
    → Cut buffer cut done
    → write_pieces (map moved ns) cut size done sent ≡ (sent ++ later_pieces buffer done ns, some 1)
unfolding write_pieces
write_pieces-Cut [] buffer cut size done sent pos h c =
    rw (ltb-false done size (omega (arith, h)), append-nil sent) refl
write_pieces-Cut (n ∷ ns) buffer cut size done sent pos h c =
    rw (lt→ltb done size (omega (arith, h, pos.0))) (
      write_pieces-Cut ns buffer (store cut (done + n) 0) size (done + n)
        (sent ++ prefix (at cut done) n) pos.1 (omega (arith, h))
        (store-Cut buffer cut done n c.behind)
      ∙ ap (λ r. (r, some 1))
          (append_assoc sent (prefix (at cut done) n) (later_pieces buffer (done + n) ns)
            ∙ ap (λ r. sent ++ (r ++ later_pieces buffer (done + n) ns))
                (prefix-Cut buffer cut done n pos.0 c)))

-- The port takes the bytes in pieces, none of them empty. All are sent, and 1 is returned, but of
-- each piece behind the first one, the first byte is sent as a zero.
pub process_stdin_pieces :
    (buffer : Mem) (size n : ℕ) (ns : List ℕ)
    → 0 < n
    → All (λ n. 0 < n) ns
    → n + total ns ≡ size
    → process_stdin (moved size) buffer (map moved (n ∷ ns))
      ≡ (prefix buffer n ++ later_pieces buffer n ns, some 1)
unfolding process_stdin write_pieces
process_stdin_pieces buffer size n ns first pos h = rw (lt→ltb 0 size (omega (arith, h, first))) (
    write_pieces-Cut ns buffer (store buffer (0 + n) 0) size (0 + n) (prefix (at buffer 0) n) pos
      (omega (arith, h)) (store-Cut buffer buffer 0 n (λ i lt. refl))
    ∙ (let start : (i : ℕ) → buffer (0 + i) ≡ buffer i = λ i. ap buffer (omega arith) in
        let from : 0 + n ≡ n = omega arith in
        ap₂ (λ b k. (prefix b n ++ later_pieces buffer k ns, some 1)) (fun_ext start) from))
