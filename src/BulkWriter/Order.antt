-- ===== src/BulkWriter/Order.antt =====
-- bulk_writer.h keeps its rows in order and never stores one twice.
use mathlib.Core.List.{Sublist, append-nil, append_assoc, nil-sublist, sublist-append_right}
use mathlib.Core.List.Sublist
use vms_ai.Prelude.{
  ℕ, ◌≡◌, refl, ap, inl, inr, Bool, true, false, List, [], ◌∷◌, ◌++◌, Bool-cases, leb, length,
  arith,
}
use vms_ai.BulkWriter.{
  Options, BulkWriter, Answer, no_connection, stored, refused, thrown, start, enqueue, push_row,
  pop_front, take_batch, settle, push_back_in_front, stop_accepting, drain,
}
use vms_ai.BulkWriter.Runs.{
  System, Op, enqueues, takes, answers, starts, stops, drains, kept, step, run, rows_of,
}

module _ {ℓ} {A : Type ℓ} where
  pub push_back_in_front-append : (batch q : List A) → push_back_in_front batch q ≡ batch ++ q
  unfolding push_back_in_front
  push_back_in_front-append [] q = refl
  push_back_in_front-append (x ∷ xs) q = ap (λ (l : List A). x ∷ l) (push_back_in_front-append xs q)

  pop_front-Sublist : (q : List A) → Sublist (pop_front q) q
  pop_front-Sublist [] = Sublist.refl []
  pop_front-Sublist (x ∷ xs) = Sublist.cons x (Sublist.refl xs)

  push_row-Sublist : (m : ℕ) (row : A) (q : List A) → Sublist (push_row m row q) (q ++ row ∷ [])
  unfolding push_row
  push_row-Sublist m row q = elim (Bool-cases (leb m (length q))) [
    | inl full ↦
        rw (full, push_row) (Sublist.append (pop_front-Sublist q) (Sublist.refl (row ∷ [])))
    | inr room ↦ rw (room, push_row) (Sublist.refl (q ++ row ∷ []))
  ]

  -- Rows put on the end of the queue go on the end of all.
  end_row-append :
      (written hand queue end : List A)
      → written ++ (hand ++ (queue ++ end)) ≡ (written ++ (hand ++ queue)) ++ end
  end_row-append written hand queue end =
      rw (append_assoc written (hand ++ queue) end, append_assoc hand queue end) refl

  enqueue-Sublist :
      (o : Options) (s : System A) (row : A)
      → Sublist (rows_of s) s.accepted
      → Sublist (rows_of (step o s (enqueues row))) (step o s (enqueues row)).accepted
  unfolding step enqueue
  enqueue-Sublist o s row h = elim (Bool-cases s.writer.accepting) [
    | inr closed ↦ rw closed h
    | inl lets_in ↦ rw lets_in (
        Sublist.trans
          (Sublist.append (Sublist.refl s.written) (
            Sublist.append (Sublist.refl s.hand) (push_row-Sublist o.max_queue row s.writer.queue)))
          (rw (end_row-append s.written s.hand s.writer.queue (row ∷ []))
            (Sublist.append h (Sublist.refl (row ∷ [])))))
  ]

  pub take_batch-rows : (o : Options) (s : System A) → rows_of (step o s takes) ≡ rows_of s
  unfolding step take_batch
  take_batch-rows o s = taken s.writer.running s.hand s.writer.queue refl refl refl
    where
      taken :
          (r : Bool) (hand queue : List A)
          → s.writer.running ≡ r
          → s.hand ≡ hand
          → s.writer.queue ≡ queue
          → rows_of (step o s takes) ≡ rows_of s
      taken false hand queue er eh eq = rw er refl
      taken true (x ∷ xs) queue er eh eq = rw (er, eh) refl
      taken true [] [] er eh eq = rw (er, eh, eq) refl
      taken true [] (y ∷ ys) er eh eq = rw (er, eh, eq) (rw (append-nil ys) refl)

  -- What a batch that is settled leaves: all of the rows in order, or all but the batch.
  settle-Sublist :
      (a : Answer) (written hand : List A) (w : BulkWriter A)
      → Sublist ((written ++ kept a hand) ++ (settle a hand w).queue) (written ++ (hand ++ w.queue))
  unfolding settle
  settle-Sublist no_connection written hand w =
      rw (append-nil written, push_back_in_front-append hand w.queue) (Sublist.refl _)
  settle-Sublist stored written hand w =
      rw (append_assoc written hand w.queue) (Sublist.refl (written ++ (hand ++ w.queue)))
  settle-Sublist refused written hand w =
      rw (append-nil written, push_back_in_front-append hand w.queue) (Sublist.refl _)
  settle-Sublist thrown written hand w =
      rw (append-nil written)
        (Sublist.append (Sublist.refl written) (sublist-append_right hand w.queue))

  drained-Sublist :
      (a : Answer) (written queue : List A)
      → Sublist ((written ++ kept a queue) ++ []) (written ++ queue)
  drained-Sublist a written queue =
      rw (append-nil (written ++ kept a queue))
        (Sublist.append (Sublist.refl written) (kept-Sublist a))
    where
      kept-Sublist : (b : Answer) → Sublist (kept b queue) queue
      kept-Sublist stored = Sublist.refl queue
      kept-Sublist no_connection = nil-sublist queue
      kept-Sublist refused = nil-sublist queue
      kept-Sublist thrown = nil-sublist queue

  drain-Sublist :
      (o : Options) (a : Answer) (s : System A)
      → Sublist (rows_of (step o s (drains a))) (rows_of s)
  unfolding step drain
  drain-Sublist o a s = drained s.writer.running s.hand refl refl
    where
      drained :
          (r : Bool) (hand : List A)
          → s.writer.running ≡ r
          → s.hand ≡ hand
          → Sublist (rows_of (step o s (drains a))) (rows_of s)
      drained true hand er eh = rw er (Sublist.refl (rows_of s))
      drained false (x ∷ xs) er eh =
          rw (er, eh) (Sublist.refl (s.written ++ ((x ∷ xs) ++ s.writer.queue)))
      drained false [] er eh = rw (er, eh) (drained-Sublist a s.written s.writer.queue)

  start-queue : (w : BulkWriter A) → (start w).queue ≡ w.queue
  unfolding start
  start-queue w = ground arith

  pub step-accepted :
      (o : Options) (s : System A) (a : Answer)
      → ((step o s takes).accepted ≡ s.accepted) × ((step o s (drains a)).accepted ≡ s.accepted)
  unfolding step
  step-accepted o s a = ground arith

  pub step-Sublist :
      (o : Options) (s : System A) (op : Op A)
      → Sublist (rows_of s) s.accepted
      → Sublist (rows_of (step o s op)) (step o s op).accepted
  unfolding step stop_accepting
  step-Sublist o s (enqueues row) h = enqueue-Sublist o s row h
  step-Sublist o s takes h = rw ((step-accepted o s stored).0, take_batch-rows o s) h
  step-Sublist o s (answers a) h = Sublist.trans (settle-Sublist a s.written s.hand s.writer) h
  step-Sublist o s starts h = rw (start-queue s.writer) h
  step-Sublist o s stops h = h
  step-Sublist o s (drains a) h = rw (step-accepted o s a).1 (Sublist.trans (drain-Sublist o a s) h)

  -- Whatever the callers and the thread do, in any interleaving and however the flushes come out,
  -- the rows stored, the batch in hand and the queue, one behind the other, are a sublist of the
  -- rows that enqueue let in: no row is made up, stored twice or moved past another.
  pub run-Sublist :
      (o : Options) (s : System A) (ops : List (Op A))
      → Sublist (rows_of s) s.accepted
      → Sublist (rows_of (run o s ops)) (run o s ops).accepted
  unfolding run
  run-Sublist o s [] h = h
  run-Sublist o s (op ∷ ops) h = run-Sublist o (step o s op) ops (step-Sublist o s op h)
