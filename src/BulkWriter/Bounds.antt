-- ===== src/BulkWriter/Bounds.antt =====
-- How long the queue of bulk_writer.h gets, and what its drop counter counts.
use vms_ai.Prelude.{
  ℕ, ◌+◌, ◌*◌, ◌≤◌, ◌<◌, ◌≡◌, refl, subst, ◌⊎◌, inl, inr, Bool, true, false, not, ◌&&◌, List, [],
  ◌∷◌, Bool-cases, leb, length, length-append, if◌then◌else◌, arith,
}
use vms_ai.BulkWriter.{
  Options, BulkWriter, Answer, no_connection, stored, refused, thrown, start, enqueue, push_row,
  take_batch, settle, push_back_in_front, queue_size, stop_accepting, drain,
}
use vms_ai.BulkWriter.Runs.{
  System, Op, enqueues, takes, answers, starts, stops, drains, is_nil, step, run,
}

-- The answers that give the batch back.
abbrev pub gives_back : Answer → ℕ
gives_back no_connection = 1
gives_back stored = 0
gives_back refused = 1
gives_back thrown = 0

one_at_least : (m n : ℕ) → m ≤ (1 + n) * m
one_at_least m n = omega arith

room_more : (m n : ℕ) → (1 + (1 + n)) * m ≡ m + (1 + n) * m
room_more m n = omega arith

zero_add : (n : ℕ) → 0 + n ≡ n
zero_add n = omega arith

shift : (a b n : ℕ) → b + (a + n) ≡ (a + b) + n
shift a b n = omega arith

module _ {ℓ} {A : Type ℓ} where
  pub length-push_back_in_front :
      (batch q : List A) → length (push_back_in_front batch q) ≡ length batch + length q
  unfolding push_back_in_front
  length-push_back_in_front [] q = omega arith
  length-push_back_in_front (x ∷ xs) q = omega (arith, length-push_back_in_front xs q)

  pub length-push_row :
      (m : ℕ) (row : A) (q : List A)
      → 0 < m
      → length (push_row m row q) ≡ (if leb m (length q) then length q else length q + 1)
  unfolding push_row
  length-push_row m row [] some_room = ground arith
  length-push_row m row (x ∷ xs) some_room =
      ground (arith, length-append xs (row ∷ []), length-append (x ∷ xs) (row ∷ []))

  abbrev pub given_back : Op A → ℕ
  given_back (enqueues row) = 0
  given_back takes = 0
  given_back (answers a) = gives_back a
  given_back starts = 0
  given_back stops = 0
  given_back (drains a) = 0

  -- The flushes that fail and give their batch back.
  abbrev pub failures : List (Op A) → ℕ
  failures [] = 0
  failures (op ∷ ops) = given_back op + failures ops

  -- After `n` failed flushes: the batch and the queue, and the queue beside a batch.
  record Fits (m n : ℕ) (hand queue : List A) : Type 0 where
    hand_fits : length hand ≤ (1 + n) * m
    queue_fits : length queue ≤ (1 + n) * m
    beside_fits : 0 < length hand → length queue ≤ m

  length-enqueue :
      (o : Options) (row : A) (w : BulkWriter A)
      → 0 < o.max_queue
      → (length (enqueue o row w).0.queue ≤ length w.queue)
        ⊎ (length (enqueue o row w).0.queue ≤ o.max_queue)
  unfolding enqueue
  length-enqueue o row w some_room =
      ground (arith, length-push_row o.max_queue row w.queue some_room)

  SystemFits : Options → ℕ → System A → Type 0
  SystemFits o n s = Fits o.max_queue n s.hand s.writer.queue

  enqueue-Fits :
      (o : Options) (s : System A) (row : A) (n : ℕ)
      → 0 < o.max_queue
      → SystemFits o n s
      → SystemFits o n (step o s (enqueues row))
  unfolding step SystemFits
  enqueue-Fits o s row n some_room f = record {
    hand_fits = f.hand_fits;
    queue_fits =
        ground (
          arith,
          length-enqueue o row s.writer some_room,
          one_at_least o.max_queue n,
          f.queue_fits,
        );
    beside_fits = λ h. ground (arith, length-enqueue o row s.writer some_room, f.beside_fits h);
  }

  kept-Fits : (m n : ℕ) (hand queue : List A) → Fits m n hand queue → Fits m n [] queue
  kept-Fits m n hand queue f = record {
    hand_fits = omega arith;
    queue_fits = f.queue_fits;
    beside_fits = λ h. elim h [ ];
  }

  given_back-Fits :
      (m n : ℕ) (hand queue : List A)
      → Fits m n hand queue
      → Fits m (1 + n) [] (push_back_in_front hand queue)
  given_back-Fits m n [] queue f = record {
    hand_fits = omega arith;
    queue_fits = omega (arith, f.queue_fits, length-push_back_in_front [] queue, room_more m n);
    beside_fits = λ h. elim h [ ];
  }
  given_back-Fits m n (x ∷ xs) queue f = record {
    hand_fits = omega arith;
    queue_fits = omega (
      arith,
      f.hand_fits,
      f.beside_fits (omega arith),
      length-push_back_in_front (x ∷ xs) queue,
      room_more m n,
    );
    beside_fits = λ h. elim h [ ];
  }

  settle-Fits :
      (o : Options) (s : System A) (a : Answer) (n : ℕ)
      → SystemFits o n s
      → SystemFits o (gives_back a + n) (step o s (answers a))
  unfolding step settle SystemFits
  settle-Fits o s no_connection n f = given_back-Fits o.max_queue n s.hand s.writer.queue f
  settle-Fits o s stored n f = rw (zero_add n) (kept-Fits o.max_queue n s.hand s.writer.queue f)
  settle-Fits o s refused n f = given_back-Fits o.max_queue n s.hand s.writer.queue f
  settle-Fits o s thrown n f = rw (zero_add n) (kept-Fits o.max_queue n s.hand s.writer.queue f)

  take-Fits :
      (o : Options) (s : System A) (n : ℕ) → SystemFits o n s → SystemFits o n (step o s takes)
  unfolding step take_batch SystemFits
  take-Fits o s n f = taken s.writer.running s.hand s.writer.queue refl refl refl f
    where
      taken :
          (r : Bool) (hand queue : List A)
          → s.writer.running ≡ r
          → s.hand ≡ hand
          → s.writer.queue ≡ queue
          → Fits o.max_queue n hand queue
          → SystemFits o n (step o s takes)
      taken false hand queue er eh eq g = rw (er, eh, eq) g
      taken true (x ∷ xs) queue er eh eq g = rw (er, eh, eq) g
      taken true [] [] er eh eq g = rw (er, eh, eq) g
      taken true [] (y ∷ ys) er eh eq g =
          rw (er, eh, eq)
            (record {
              hand_fits = g.queue_fits;
              queue_fits = omega arith;
              beside_fits = λ h. omega arith;
            })

  drain-Fits :
      (o : Options) (s : System A) (a : Answer) (n : ℕ)
      → SystemFits o n s
      → SystemFits o n (step o s (drains a))
  unfolding step drain SystemFits
  drain-Fits o s a n f = elim (Bool-cases (not s.writer.running && is_nil s.hand)) [
    | inl idle ↦ rw idle (record {
      hand_fits = f.hand_fits;
      queue_fits = omega arith;
      beside_fits = λ h. omega arith;
    })
    | inr busy ↦ rw busy f
  ]

  start-Fits :
      (o : Options) (s : System A) (n : ℕ) → SystemFits o n s → SystemFits o n (step o s starts)
  unfolding step start SystemFits
  start-Fits o s n f = elim (Bool-cases s.writer.running) [
    | inl runs ↦ rw runs f
    | inr rests ↦ rw rests f
  ]

  step-Fits :
      (o : Options) (s : System A) (op : Op A) (n : ℕ)
      → 0 < o.max_queue
      → SystemFits o n s
      → SystemFits o (given_back op + n) (step o s op)
  unfolding stop_accepting step SystemFits
  step-Fits o s (enqueues row) n some_room f = rw (zero_add n) (enqueue-Fits o s row n some_room f)
  step-Fits o s takes n some_room f = rw (zero_add n) (take-Fits o s n f)
  step-Fits o s (answers a) n some_room f = settle-Fits o s a n f
  step-Fits o s starts n some_room f = rw (zero_add n) (start-Fits o s n f)
  step-Fits o s stops n some_room f = rw (zero_add n) f
  step-Fits o s (drains a) n some_room f = rw (zero_add n) (drain-Fits o s a n f)

  run-Fits :
      (o : Options) (s : System A) (ops : List (Op A)) (n : ℕ)
      → 0 < o.max_queue
      → SystemFits o n s
      → SystemFits o (failures ops + n) (run o s ops)
  unfolding run
  run-Fits o s [] n some_room f = rw (zero_add n) f
  run-Fits o s (op ∷ ops) n some_room f =
      subst (λ k. SystemFits o k (run o (step o s op) ops)) (shift (given_back op) (failures ops) n)
        (run-Fits o (step o s op) ops (given_back op + n) some_room
          (step-Fits o s op n some_room f))

  -- From an empty writer with room for a row, the queue never holds more than `max_queue` rows, and
  -- as many again for each flush that failed and gave its batch back.
  pub length-run :
      (o : Options) (s : System A) (ops : List (Op A))
      → 0 < o.max_queue
      → s.hand ≡ []
      → s.writer.queue ≡ []
      → queue_size (run o s ops).writer ≤ (1 + failures ops) * o.max_queue
  unfolding queue_size SystemFits
  length-run o s ops some_room no_hand no_queue =
      omega (arith, (run-Fits o s ops 0 some_room fits).queue_fits)
    where
      fits : SystemFits o 0 s
      fits =
          rw (no_hand, no_queue, SystemFits)
            (record {
              hand_fits = omega arith;
              queue_fits = omega arith;
              beside_fits = λ h. omega arith;
            })
