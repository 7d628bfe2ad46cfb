-- ===== src/Todo/Links.antt =====
-- The linked queue of the shuffler stands for a queue of distinct elements, and the operations
-- keep that.
use open_lib.Prelude.{
  ℕ, sym, ap, ◌∙◌, true, false, none, some, List, [], ◌∷◌, ◌++◌, ◌≡◌, refl, if◌then◌else◌, arith,
}
use open_lib.Prelude.Lists.{length, length-append}
use open_lib.Prelude.Pointers.{
  update, member, Distinct, last?, last?-some, Chain, member-append, member-last, last-append,
  append-Distinct, Chain-same, Chain-append,
}
use open_lib.Todo.{Shuffler, appended, set_qel, link_last, hi_todo_produce, hi_todo_consume_inlock}

-- The links of the queue lead through `items`, the last of them is the one to link a new element
-- to, exactly they are marked `inqueue`, each is there once, and `n_todo` counts them.
pub record IsQueue (shf : Shuffler) (items : List ℕ) : Type 0 where
  pub chained : Chain (λ p. (shf.qels p).n) shf.todo_consume items
  pub produced : shf.todo_produce ≡ last? items
  pub marked : (p : ℕ) → (shf.qels p).inqueue ≡ member p items
  pub distinct : Distinct items
  pub counted : shf.n_todo ≡ length items

-- The shuffler once `qe` has been linked behind `last`, or as the first element.
abbrev linked_behind : Shuffler → ℕ → ℕ → Shuffler
linked_behind shf last qe =
    let old = record shf { qels = update shf.qels last (record (shf.qels last) { n = some qe }) } in
    appended old qe

abbrev linked_first : Shuffler → ℕ → Shuffler
linked_first shf qe = appended (record shf { todo_consume = some qe }) qe

pub hi_todo_produce-marked :
    (shf : Shuffler) (qe : ℕ) → (shf.qels qe).inqueue ≡ true → hi_todo_produce shf qe ≡ shf
unfolding hi_todo_produce
hi_todo_produce-marked shf qe h = rw h refl

produce_links :
    (shf : Shuffler) (qe l : ℕ)
    → (shf.qels qe).inqueue ≡ false
    → shf.todo_produce ≡ some l
    → hi_todo_produce shf qe ≡ linked_behind shf l qe
unfolding hi_todo_produce
produce_links shf qe l h k =
    ap (λ b. if b then shf else appended (link_last shf qe shf.todo_produce) qe) h
    ∙ ap (λ o. appended (link_last shf qe o) qe) k

produce_starts :
    (shf : Shuffler) (qe : ℕ)
    → (shf.qels qe).inqueue ≡ false
    → shf.todo_produce ≡ none
    → hi_todo_produce shf qe ≡ linked_first shf qe
unfolding hi_todo_produce
produce_starts shf qe h k = rw h (ap (λ o. appended (link_last shf qe o) qe) k)

pub produce-poll_tok : (shf : Shuffler) (qe : ℕ) → (hi_todo_produce shf qe).poll_tok ≡ shf.poll_tok
unfolding hi_todo_produce
produce-poll_tok shf qe = ground arith

pub consume-poll_tok :
    (shf : Shuffler) (qe : ℕ) → (hi_todo_consume_inlock shf qe).poll_tok ≡ shf.poll_tok
unfolding hi_todo_consume_inlock
consume-poll_tok shf qe = refl

pub produce-IsQueue :
    (shf : Shuffler) (items : List ℕ) (qe : ℕ)
    → member qe items ≡ false
    → IsQueue shf items
    → IsQueue (hi_todo_produce shf qe) (items ++ (qe ∷ []))
unfolding last?
produce-IsQueue shf [] qe h q = rw (produce_starts shf qe (q.marked qe) q.produced) (record {
  chained = (refl, ground arith);
  produced = refl;
  marked = λ p. ground (arith, q.marked p);
  distinct = (refl, tt);
  counted = omega (arith, q.counted);
})
produce-IsQueue shf (x ∷ xs) qe h q =
    let (l, el) = last?-some x xs in
    rw (produce_links shf qe l (q.marked qe ∙ h) (q.produced ∙ el)) (record {
      chained =
          Chain-append (λ p. (shf.qels p).n) (λ p. ((linked_behind shf l qe).qels p).n)
            shf.todo_consume (x ∷ xs) l qe q.distinct el (ground (arith, member-last l (x ∷ xs)))
            (ground arith) (λ p m ne. ground arith) q.chained;
      produced = sym (last-append (x ∷ xs) qe);
      marked = λ p. ground (arith, q.marked p, member-append p (x ∷ xs) qe, member-last l (x ∷ xs));
      distinct = append-Distinct (x ∷ xs) qe q.distinct h;
      counted = omega (arith, q.counted, length-append {0} (x ∷ xs) (qe ∷ []));
    })

pub consume-IsQueue :
    (shf : Shuffler) (x : ℕ) (xs : List ℕ)
    → IsQueue shf (x ∷ xs)
    → IsQueue (hi_todo_consume_inlock shf x) xs
unfolding hi_todo_consume_inlock last?
consume-IsQueue shf x [] q = record {
  chained = q.chained.1;
  produced = rw (q.chained.1) refl;
  marked = λ p. ground (arith, q.marked p);
  distinct = tt;
  counted = omega (arith, q.counted);
}
consume-IsQueue shf x (y ∷ ys) q = record {
  chained =
      Chain-same (λ p. (shf.qels p).n) (λ p. (set_qel shf x none false p).n) (shf.qels x).n (y ∷ ys)
        (λ p m. ground (arith, q.distinct.0)) q.chained.1;
  produced = rw (q.chained.1.0) q.produced;
  marked = λ p. ground (arith, q.marked p, q.distinct.0);
  distinct = q.distinct.1;
  counted = omega (arith, q.counted);
}
