-- ===== src/Tests/QueueRuns.antt =====
-- Runs of the queues, the pool and the write loop.
use open_lib.Prelude.{ℕ, true, false, none, some, List, [], ◌∷◌, ◌≡◌, refl, arith}
use open_lib.Prelude.Pointers.{update, Chain, last?}
use open_lib.Hiios.{Iov, ok, ◌>>=◌}
use open_lib.Hiios.Outcome.{AllOk}
use open_lib.Todo.{
  pdu, Shuffler, hi_todo_produce, hi_todo_consume, hi_todo_consume_inlock, element, token, produce,
  consume, polled, handed_out, tcp_s,
}
use open_lib.Todo.Spec.{Fifo, served}
use open_lib.Todo.Refinement.{Implements, handed_out-served}
use open_lib.Hiwrite.{
  Pdu, Writer, hi_send3, hi_send0, hi_make_iov, hi_free_resp, clear_iov, hi_clear_iov,
  make_iov_loop, release_all,
}
use open_lib.Hiwrite.Loop.{bytes, prefix, wrote, eintr, eagain, drained, hi_write}
use open_lib.Hiwrite.Faithful.{IsFaithful, hi_write-IsFaithful}
use open_lib.Hiwrite.Bounds.{Fits, hi_make_iov_bounds}
use open_lib.Hiwrite.Lost.{Waits, send_all, hi_make_iov-send_all}
use open_lib.Hiwrite.Whole.{hi_write-pieces}
use open_lib.Hiwrite.Release.{without, hi_free_resp-without}
use open_lib.Pool.{hi_pdu_alloc}
use open_lib.Pool.Close.{Slot, hi_close, hi_add_fd, hi_close-hi_add_fd}
use open_lib.Shuffle.{Poller, hi_poll}
use open_lib.Shuffle.Polling.{enqueue_ready, consumers, hi_poll_lem}
use open_lib.Tests.{counting}

-- The queue of a new shuffler.
abbrev new_shuffler : Shuffler
new_shuffler = record {
  qels = λ p. record { n = none; kind = pdu; inqueue = false };
  todo_consume = none;
  todo_produce = none;
  n_todo = 0;
  poll_tok = true;
}

abbrev new_fifo : Fifo
new_fifo = record { items = []; may_poll = true }

new_shuffler-Implements : Implements new_shuffler new_fifo
unfolding last?
new_shuffler-Implements = record {
  queue = record {
    chained = refl;
    produced = refl;
    marked = λ p. refl;
    distinct = tt;
    counted = refl;
  };
  flag = refl;
}

handed_out-served_example :
    handed_out new_shuffler (produce 4 ∷ consume ∷ consume ∷ produce 7 ∷ polled ∷ [])
    ≡ served new_fifo (produce 4 ∷ consume ∷ consume ∷ produce 7 ∷ polled ∷ [])
handed_out-served_example =
    handed_out-served (produce 4 ∷ consume ∷ consume ∷ produce 7 ∷ polled ∷ []) new_shuffler
      new_fifo new_shuffler-Implements

handed_out_run :
    handed_out new_shuffler (produce 4 ∷ produce 9 ∷ produce 4 ∷ consume ∷ consume ∷ consume ∷ [])
    ≡ element 4 ∷ element 9 ∷ token ∷ []
unfolding handed_out hi_todo_consume hi_todo_produce hi_todo_consume_inlock
handed_out_run = refl

abbrev blank : Pdu
blank = record { qel_n = none; n = none; wn = none; req = none; reals = none; iov = [] }

abbrev two_iovs : List Iov
two_iovs =
    record { iov_base = counting; iov_len = 3 } ∷ record { iov_base = counting; iov_len = 2 } ∷ []

-- A connection that writes nothing.
abbrev quiet : Writer
quiet = record {
  pdus = λ p. blank;
  free_pdus = none;
  iov = [];
  in_write = none;
  to_write_consume = none;
  to_write_produce = none;
  n_to_write = 0;
  n_written = 0;
  n_pdu_out = 0;
  sent = [];
  copied = [];
}

-- PDU 5 has been handed over.
abbrev handed : Writer
unfolding hi_send3 hi_send0
handed = hi_send3 quiet none 5 two_iovs

hi_write_run :
    hi_write 16 2 (wrote 2 ∷ eintr ∷ wrote 3 ∷ []) handed >>= (λ r. ok r.1.sent)
    ≡ ok (1 ∷ 2 ∷ 3 ∷ 1 ∷ 2 ∷ [])
unfolding hi_write hi_make_iov make_iov_loop hi_clear_iov clear_iov release_all bytes prefix handed
hi_write_run = refl

hi_write-pieces_example :
    (w' : Writer) × (hi_write 16 1 (wrote 2 ∷ wrote 3 ∷ []) handed ≡ ok (drained, w'))
    × (w'.sent ≡ bytes two_iovs)
    × (w'.in_write ≡ none)
unfolding handed
hi_write-pieces_example =
    hi_write-pieces 16 handed 5
      (record {
        idle = refl;
        first = refl;
        alone = refl;
        no_req = refl;
        counted = omega arith;
        full = (omega arith, (omega arith, tt));
        some_iov = omega arith;
        fits = omega arith;
      })
      0 (2 ∷ 3 ∷ []) (omega arith, (omega arith, tt)) refl

hi_write-IsFaithful_example :
    AllOk (λ r. IsFaithful r.1) (hi_write 16 2 (wrote 2 ∷ eintr ∷ eagain ∷ []) handed)
unfolding bytes handed
hi_write-IsFaithful_example =
    hi_write-IsFaithful 16 2 (wrote 2 ∷ eintr ∷ eagain ∷ []) handed
      (record { in_order = refl; idle = λ i. refl })

hi_make_iov_bounds_example : Fits 16 (hi_make_iov 16 handed)
hi_make_iov_bounds_example = hi_make_iov_bounds 16 handed

handed-Waits : Waits handed 5 two_iovs 0
unfolding handed
handed-Waits = record {
  first = refl;
  last = λ e. absurd (cc);
  alone = refl;
  holds = refl;
  counted = refl;
}

hi_make_iov-send_all_example :
    (w' : Writer) × (hi_make_iov 16 (send_all handed ((6, two_iovs) ∷ (7, two_iovs) ∷ [])) ≡ ok w')
    × (w'.iov ≡ two_iovs)
    × (w'.to_write_consume ≡ none)
    × (w'.to_write_produce ≡ none)
    × (w'.n_to_write ≡ 2)
unfolding handed
hi_make_iov-send_all_example =
    hi_make_iov-send_all 16 handed 5 two_iovs ((6, two_iovs) ∷ (7, two_iovs) ∷ []) handed-Waits
      (omega arith, (omega arith, tt)) refl (omega arith)

-- The request 1 has the responses 2 and 3.
abbrev answered : Writer
answered = record quiet {
  pdus =
      update (update (λ p. blank) 1 (record blank { reals = some 2 })) 2
        (record blank { n = some 3 });
}

hi_free_resp-without_example :
    (w' : Writer) × (hi_free_resp 2 answered 1 3 ≡ ok w')
    × Chain (λ x. (w'.pdus x).n) (w'.pdus 1).reals (without 3 (2 ∷ 3 ∷ []))
    × (w'.free_pdus ≡ some 3)
    × ((w'.pdus 3).qel_n ≡ none)
hi_free_resp-without_example =
    hi_free_resp-without 2 answered 1 3 (2 ∷ 3 ∷ []) (omega arith) (refl, (refl, refl))
      (refl, (refl, tt)) refl

-- The descriptor 7, with a PDU that is being read and one request.
abbrev slot : Slot
slot = record {
  fd = 7;
  kind = tcp_s;
  inqueue = false;
  cur_pdu = some 3;
  reqs = some 1;
  writer = quiet;
}

hi_close-hi_add_fd_example :
    (io' : Slot) × (hi_close 2 slot ≡ ok io')
    × ((hi_add_fd io' 7 tcp_s).cur_pdu ≡ some 3)
    × (w : Writer) × (hi_pdu_alloc none io'.writer ≡ some (3, w))
hi_close-hi_add_fd_example =
    hi_close-hi_add_fd 2 slot 3 (1 ∷ []) none 7 tcp_s refl refl (omega arith) (refl, refl)
      (λ x m. refl) refl

-- The thread has the token, and the connections 4 and 9 have no PDU.
abbrev polling : Poller
polling = record {
  shf = record new_shuffler { poll_tok = false };
  ios = λ p. record { events = 0; cur_need = none };
}

polling-Implements : Implements polling.shf (record new_fifo { may_poll = false })
unfolding last?
polling-Implements = record {
  queue = record {
    chained = refl;
    produced = refl;
    marked = λ p. refl;
    distinct = tt;
    counted = refl;
  };
  flag = refl;
}

hi_poll_lem_example :
    ((evs : List (ℕ × ℕ))
      → Implements
          (hi_poll (some evs) polling).shf
          (record (enqueue_ready polling.ios (record new_fifo { may_poll = false }) evs) {
            may_poll = true;
          }))
    × ((k : ℕ)
        → (record new_fifo { may_poll = false }).items ≡ []
        → (record new_fifo { may_poll = false }).may_poll ≡ false
        → handed_out (hi_poll none polling).shf (consumers k) ≡ [])
hi_poll_lem_example = hi_poll_lem polling (record new_fifo { may_poll = false }) polling-Implements
