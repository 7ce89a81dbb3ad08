-- ===== src/BulkWriter/Dropped.antt =====
-- What the drop counter of bulk_writer.h counts.
use vms_ai.Prelude.{
  ◌+◌, ◌-◌, ◌%◌, ◌^◌, ◌≤◌, ◌<◌, ◌≡◌, refl, ap, Bool, true, false, ◌||◌, List, [], ◌∷◌, ◌++◌, length,
  length-append, arith,
}
use vms_ai.BulkWriter.{
  Options, BulkWriter, Answer, no_connection, stored, refused, thrown, start, enqueue, take_batch,
  settle, stop_accepting, drain, dropped_count,
}
use vms_ai.BulkWriter.Runs.{
  System, Op, enqueues, takes, answers, starts, stops, drains, kept, step, run, rows_of,
}
use vms_ai.BulkWriter.Order.{take_batch-rows, step-accepted}
use vms_ai.BulkWriter.Bounds.{length-push_row, length-push_back_in_front}

-- The answers after which the loop has lost its batch: the catch clauses do not put it back.
abbrev pub loses : Answer → Bool
loses no_connection = false
loses stored = false
loses refused = false
loses thrown = true

-- The drain of stop keeps nothing but what it stores.
abbrev pub drain_loses : Answer → Bool
drain_loses no_connection = true
drain_loses stored = false
drain_loses refused = true
drain_loses thrown = true

module _ {ℓ} {A : Type ℓ} where
  abbrev pub op_loses : Op A → Bool
  op_loses (enqueues row) = false
  op_loses takes = false
  op_loses (answers a) = loses a
  op_loses starts = false
  op_loses stops = false
  op_loses (drains a) = drain_loses a

  abbrev pub any_loses : List (Op A) → Bool
  any_loses [] = false
  any_loses (op ∷ ops) = op_loses op || any_loses ops

  -- The counter is the number of rows let in that are neither stored nor still there, modulo 2^64.
  pub record IsCounted (s : System A) : Type 0 where
    pub within : length (rows_of s) ≤ length s.accepted
    pub counted : dropped_count s.writer ≡ (length s.accepted - length (rows_of s)) % 2 ^ 64

  length-rows_of :
      (s : System A)
      → length (rows_of s) ≡ length s.written + (length s.hand + length s.writer.queue)
  length-rows_of s = omega (
    arith,
    length-append s.written (s.hand ++ s.writer.queue),
    length-append s.hand s.writer.queue,
  )

  -- Steps that leave the counter, the rows let in and the number of rows held as they are.
  same-IsCounted :
      (s t : System A)
      → t.writer.drop_count ≡ s.writer.drop_count
      → length t.accepted ≡ length s.accepted
      → length (rows_of t) ≡ length (rows_of s)
      → IsCounted s
      → IsCounted t
  unfolding dropped_count
  same-IsCounted s t ed ea er c = record {
    within = omega (arith, c.within);
    counted = rw (ed, ea, er) c.counted;
  }

  enqueue-IsCounted :
      (o : Options) (s : System A) (row : A)
      → 0 < o.max_queue
      → IsCounted s
      → IsCounted (step o s (enqueues row))
  unfolding step enqueue dropped_count
  enqueue-IsCounted o s row some_room c = record {
    within = ground (
      arith,
      length-rows_of s,
      length-rows_of (step o s (enqueues row)),
      length-push_row o.max_queue row s.writer.queue some_room,
      length-append s.accepted (row ∷ []),
      c.within,
    );
    counted = ground (
      arith,
      length-rows_of s,
      length-rows_of (step o s (enqueues row)),
      length-push_row o.max_queue row s.writer.queue some_room,
      length-append s.accepted (row ∷ []),
      c.within,
      c.counted,
    );
  }

  settle-IsCounted :
      (o : Options) (s : System A) (a : Answer)
      → loses a ≡ false
      → IsCounted s
      → IsCounted (step o s (answers a))
  unfolding step settle
  settle-IsCounted o s a safe c =
      same-IsCounted s (step o s (answers a)) (settle-drop_count a s.hand s.writer) refl
        (settle-length a safe) c
    where
      settle-drop_count :
          (b : Answer) (hand : List A) (w : BulkWriter A)
          → (settle b hand w).drop_count ≡ w.drop_count
      settle-drop_count no_connection hand w = refl
      settle-drop_count stored hand w = refl
      settle-drop_count refused hand w = refl
      settle-drop_count thrown hand w = refl

      lengths :
          (b : Answer)
          → length (rows_of (step o s (answers b)))
            ≡ length s.written + length (kept b s.hand) + length (settle b s.hand s.writer).queue
      lengths b =
          omega
            (arith, length-rows_of (step o s (answers b)), length-append s.written (kept b s.hand))

      settle-length :
          (b : Answer)
          → loses b ≡ false
          → length (rows_of (step o s (answers b))) ≡ length (rows_of s)
      settle-length no_connection k = omega (
        arith,
        lengths no_connection,
        length-rows_of s,
        length-push_back_in_front s.hand s.writer.queue,
      )
      settle-length stored k = omega (arith, lengths stored, length-rows_of s)
      settle-length refused k = omega (
        arith,
        lengths refused,
        length-rows_of s,
        length-push_back_in_front s.hand s.writer.queue,
      )
      settle-length thrown k = cc

  take-drop_count :
      (o : Options) (s : System A) → (step o s takes).writer.drop_count ≡ s.writer.drop_count
  unfolding step take_batch
  take-drop_count o s = taken s.writer.running s.hand s.writer.queue refl refl refl
    where
      taken :
          (r : Bool) (hand queue : List A)
          → s.writer.running ≡ r
          → s.hand ≡ hand
          → s.writer.queue ≡ queue
          → (step o s takes).writer.drop_count ≡ s.writer.drop_count
      taken false hand queue er eh eq = rw er refl
      taken true (x ∷ xs) queue er eh eq = rw (er, eh) refl
      taken true [] [] er eh eq = rw (er, eh, eq) refl
      taken true [] (y ∷ ys) er eh eq = rw (er, eh, eq) refl

  drain-IsCounted :
      (o : Options) (s : System A) (a : Answer)
      → drain_loses a ≡ false
      → IsCounted s
      → IsCounted (step o s (drains a))
  unfolding step drain
  drain-IsCounted o s no_connection safe c = cc
  drain-IsCounted o s refused safe c = cc
  drain-IsCounted o s thrown safe c = cc
  drain-IsCounted o s stored safe c =
      same-IsCounted s (step o s (drains stored)) (ground arith) (ground arith)
        (drained s.writer.running s.hand refl refl) c
    where
      drained :
          (r : Bool) (hand : List A)
          → s.writer.running ≡ r
          → s.hand ≡ hand
          → length (rows_of (step o s (drains stored))) ≡ length (rows_of s)
      drained true hand er eh = rw er refl
      drained false (x ∷ xs) er eh = rw (er, eh) refl
      drained false [] er eh =
          rw (er, eh)
            (omega (
              arith,
              length-append (s.written ++ s.writer.queue) [],
              length-append s.written s.writer.queue,
            ))

  step-IsCounted :
      (o : Options) (s : System A) (op : Op A)
      → 0 < o.max_queue
      → op_loses op ≡ false
      → IsCounted s
      → IsCounted (step o s op)
  unfolding step start stop_accepting
  step-IsCounted o s (enqueues row) some_room safe c = enqueue-IsCounted o s row some_room c
  step-IsCounted o s takes some_room safe c =
      same-IsCounted s (step o s takes) (take-drop_count o s)
        (ap length (step-accepted o s stored).0) (ap length (take_batch-rows o s)) c
  step-IsCounted o s (answers a) some_room safe c = settle-IsCounted o s a safe c
  step-IsCounted o s starts some_room safe c =
      same-IsCounted s (step o s starts) (ground arith) refl (ground arith) c
  step-IsCounted o s stops some_room safe c = same-IsCounted s (step o s stops) refl refl refl c
  step-IsCounted o s (drains a) some_room safe c = drain-IsCounted o s a safe c

  -- With room for a row, and as long as no flush throws and the drain of stop is stored, the drop
  -- counter is, modulo 2^64, the number of the rows let in that are neither stored nor in hand nor
  -- queued, however often a flush fails and gives its batch back.
  pub run-IsCounted :
      (o : Options) (s : System A) (ops : List (Op A))
      → 0 < o.max_queue
      → any_loses ops ≡ false
      → IsCounted s
      → IsCounted (run o s ops)
  unfolding run
  run-IsCounted o s [] some_room safe c = c
  run-IsCounted o s (op ∷ ops) some_room safe c =
      run-IsCounted o (step o s op) ops some_room (ground arith)
        (step-IsCounted o s op some_room (ground arith) c)
