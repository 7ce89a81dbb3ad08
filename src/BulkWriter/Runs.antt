-- ===== src/BulkWriter/Runs.antt =====
-- Histories of bulk_writer.h: the callers' and the thread's steps, interleaved.
use vms_ai.Prelude.{
  Bool, true, false, not, ◌&&◌, Option, none, some, List, [], ◌∷◌, ◌++◌, if◌then◌else◌,
}
use vms_ai.BulkWriter.{
  Options, BulkWriter, Answer, no_connection, stored, refused, thrown, start, enqueue, take_batch,
  settle, stop_accepting, drain,
}

-- A writer with the batch in the thread's hands (`[]` between batches), the rows stored so far and
-- the rows that enqueue let in so far, both in order.
pub record System {ℓ} (A : Type ℓ) : Type ℓ where
  pub writer : BulkWriter A
  pub hand : List A
  pub written : List A
  pub accepted : List A

pub data Op {ℓ} (A : Type ℓ) : Type ℓ where
  enqueues : A → Op A
  takes : Op A
  answers : Answer → Op A
  starts stops : Op A
  drains : Answer → Op A

module _ {ℓ} {A : Type ℓ} where
  abbrev pub is_nil : List A → Bool
  is_nil [] = true
  is_nil (x ∷ xs) = false

  -- The rows of a batch that an answer stores.
  abbrev pub kept : Answer → List A → List A
  kept stored batch = batch
  kept no_connection batch = []
  kept refused batch = []
  kept thrown batch = []

  abbrev pub batch_of : Option (List A) → List A
  batch_of none = []
  batch_of (some batch) = batch

  -- A step that is not possible in the state changes nothing: the thread takes a batch while it runs
  -- with empty hands, and the drain comes when it is stopped with empty hands. In the source a thread
  -- that stop() wakes from its wait still takes the rows of the queue once before it ends; here they are
  -- left to the drain.
  unfoldable pub step : Options → System A → Op A → System A
  step o s (enqueues row) = record s {
    writer = (enqueue o row s.writer).0;
    accepted = if s.writer.accepting then s.accepted ++ row ∷ [] else s.accepted;
  }
  step o s takes =
      if s.writer.running && is_nil s.hand
      then (let (writer, batch) = take_batch s.writer in
          record s { writer = writer; hand = batch_of batch })
      else s
  step o s (answers a) = record s {
    writer = settle a s.hand s.writer;
    hand = [];
    written = s.written ++ kept a s.hand;
  }
  step o s starts = record s { writer = start s.writer }
  step o s stops = record s { writer = (stop_accepting s.writer).0 }
  step o s (drains a) =
      if not s.writer.running && is_nil s.hand
      then (let (writer, rows) = drain s.writer in
          record s { writer = writer; written = s.written ++ kept a rows })
      else s

  unfoldable pub run : Options → System A → List (Op A) → System A
  run o s [] = s
  run o s (op ∷ ops) = run o (step o s op) ops

  -- The rows in the writer's care and behind it, oldest first.
  abbrev pub rows_of : System A → List A
  rows_of s = s.written ++ (s.hand ++ s.writer.queue)
