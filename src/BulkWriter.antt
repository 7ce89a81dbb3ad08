-- ===== src/BulkWriter.antt =====
-- cpp-backend/include/utils/bulk_writer.h: the batched writer with its queue, its thread and the
-- flush function of its client. The flush function and the database are outside the model: how one
-- flush comes out is an input of the step, and the function is taken to leave the batch that it is
-- handed as it is. The thread's waits and sleeps are gaps between steps.
pub mod Runs
pub mod Order
pub mod Bounds
pub mod Dropped
mod Tests
use vms_ai.Prelude.{
  ℕ, ◌+◌, ◌%◌, ◌^◌, Bool, true, false, not, ◌&&◌, Option, none, some, List, [], ◌∷◌, ◌++◌, ltb, leb,
  length, if◌then◌else◌,
}

-- struct Options
pub record Options : Type 0 where
  pub batch_size : ℕ
  pub interval_ms : ℕ
  pub max_queue : ℕ
  pub backoff_ms : ℕ

abbrev pub default_options : Options
default_options = record {
  batch_size = 50;
  interval_ms = 100;
  max_queue = 10000;
  backoff_ms = 1000;
}

pub record BulkWriter {ℓ} (A : Type ℓ) : Type ℓ where
  pub queue : List A
  pub running : Bool
  pub accepting : Bool
  pub drop_count : ℕ  -- uint64_t

-- How flush_ comes out in the thread: no connection, the rows are stored, false, an exception.
pub data Answer : Type 0 where
  no_connection stored refused thrown : Answer

module _ {ℓ} {A : Type ℓ} where
  abbrev pub new : BulkWriter A
  new = record { queue = []; running = false; accepting = false; drop_count = 0 }

  unfoldable pub start : BulkWriter A → BulkWriter A
  start s = if s.running then s else record s { running = true; accepting = true }

  -- queue_.pop_front(): the C++ behaviour on an empty queue is undefined. Here it stays empty.
  abbrev pub pop_front : List A → List A
  pop_front [] = []
  pop_front (x ∷ xs) = xs

  -- The two arms under the lock of enqueue: the new queue.
  unfoldable pub push_row : ℕ → A → List A → List A
  push_row max_queue row q =
      if leb max_queue (length q) then pop_front q ++ row ∷ [] else q ++ row ∷ []

  -- enqueue: the writer, and whether the thread is notified.
  unfoldable pub enqueue : Options → A → BulkWriter A → BulkWriter A × Bool
  enqueue o row s =
      if s.accepting
      then (let queue = push_row o.max_queue row s.queue in
          (
            record s {
              queue = queue;
              drop_count =
                  if leb o.max_queue (length s.queue)
                  then (s.drop_count + 1) % 2 ^ 64
                  else s.drop_count;
            },
            leb o.batch_size (length queue),
          ))
      else (s, false)

  unfoldable pub queue_size : BulkWriter A → ℕ
  queue_size s = length s.queue

  unfoldable pub dropped_count : BulkWriter A → ℕ
  dropped_count s = s.drop_count

  -- The first locked block of the loop: the batch that it takes, `none` where it goes round again.
  unfoldable pub take_batch : BulkWriter A → BulkWriter A × Option (List A)
  take_batch s = taken s.queue
    where
      taken : List A → BulkWriter A × Option (List A)
      taken [] = (s, none)
      taken (x ∷ xs) = (record s { queue = [] }, some (x ∷ xs))

  -- for (it = batch.rbegin(); ...) queue_.push_front(*it);
  unfoldable pub push_back_in_front : List A → List A → List A
  push_back_in_front [] q = q
  push_back_in_front (x ∷ xs) q = x ∷ push_back_in_front xs q

  -- The rest of the loop's body, on the batch taken.
  unfoldable pub settle : Answer → List A → BulkWriter A → BulkWriter A
  settle no_connection batch s = record s { queue = push_back_in_front batch s.queue }
  settle stored batch s = s
  settle refused batch s = record s { queue = push_back_in_front batch s.queue }
  settle thrown batch s = s

  -- stop up to thread_.join(): the writer, and whether there is a thread to stop.
  unfoldable pub stop_accepting : BulkWriter A → BulkWriter A × Bool
  stop_accepting s = (record s { accepting = false; running = false }, s.running)

  -- The final drain of stop: the writer, and the rows handed to the last flush.
  unfoldable pub drain : BulkWriter A → BulkWriter A × List A
  drain s = (record s { queue = [] }, s.queue)
