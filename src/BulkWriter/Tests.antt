-- ===== src/BulkWriter/Tests.antt =====
-- Runs of bulk_writer.h, and its theorems at concrete histories.
use mathlib.Core.List.{Sublist, nil-sublist}
use vms_ai.Prelude.{ℕ, ◌+◌, ◌*◌, ◌≤◌, ◌≡◌, refl, List, [], ◌∷◌, arith}
use vms_ai.BulkWriter.{
  Options, stored, refused, new, start, push_row, enqueue, queue_size, dropped_count, take_batch,
  push_back_in_front, settle,
}
use vms_ai.BulkWriter.Runs.{System, Op, enqueues, takes, answers, starts, step, run, rows_of}
use vms_ai.BulkWriter.Order.{run-Sublist}
use vms_ai.BulkWriter.Bounds.{length-run, failures}
use vms_ai.BulkWriter.Dropped.{IsCounted, run-IsCounted}

abbrev room_for_two : Options
room_for_two = record { batch_size = 2; interval_ms = 100; max_queue = 2; backoff_ms = 1000 }

abbrev fresh : System ℕ
fresh = record { writer = new; hand = []; written = []; accepted = [] }

-- Two rows are taken, two more come in, and the flush fails.
abbrev failing : List (Op ℕ)
failing = starts ∷ enqueues 1 ∷ enqueues 2 ∷ takes ∷ enqueues 3 ∷ enqueues 4 ∷ answers refused ∷ []

-- The queue is then twice as long as `max_queue`.
refilled_queue : queue_size (run room_for_two fresh failing).writer ≡ 4
unfolding run step start enqueue push_row take_batch settle push_back_in_front queue_size
refilled_queue = refl

-- One row more, and all is stored.
abbrev storing : List (Op ℕ)
storing = starts ∷ enqueues 1 ∷ enqueues 2 ∷ enqueues 3 ∷ takes ∷ answers stored ∷ []

stored_rows : (run room_for_two fresh storing).written ≡ 2 ∷ 3 ∷ []
unfolding run step start enqueue push_row take_batch settle
stored_rows = refl

run-Sublist_example :
    Sublist (rows_of (run room_for_two fresh failing)) (run room_for_two fresh failing).accepted
run-Sublist_example = run-Sublist room_for_two fresh failing (nil-sublist [])

length-run_example : queue_size (run room_for_two fresh failing).writer ≤ (1 + failures failing) * 2
length-run_example = length-run room_for_two fresh failing (omega arith) refl refl

fresh-IsCounted : IsCounted fresh
unfolding dropped_count
fresh-IsCounted = record { within = omega arith; counted = omega arith }

run-IsCounted_example : IsCounted (run room_for_two fresh storing)
run-IsCounted_example = run-IsCounted room_for_two fresh storing (omega arith) refl fresh-IsCounted
