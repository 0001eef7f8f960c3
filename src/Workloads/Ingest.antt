-- ===== src/Workloads/Ingest.antt =====
-- workloads/telemetry-ingest/main.py: the queue between the MQTT client and the database writer, which run in
-- two threads.
pub mod Delivered
use abb_accelerator_aiops.Prelude.{
  ℕ, ◌+◌, Bool, true, false, ◌&&◌, String, Option, none, some, List, [], ◌∷◌, ◌++◌, length, ltb,
  if◌then◌else◌,
}

-- A row of the table readings: when the message came, its topic and its payload.
pub record Row (T : Type 0) : Type 0 where
  pub ts : T
  pub topic : String
  pub payload : String

-- `Q`, the writer's `batch`, the rows of the table, and the counter INSERTED.
pub record Ingest (T : Type 0) : Type 0 where
  pub queue : List (Row T)
  pub batch : List (Row T)
  pub stored : List (Row T)
  pub inserted : ℕ

-- `queue.Queue(maxsize=50000)`, and the rows of one INSERT
abbrev pub queue_max : ℕ
queue_max = 50000

abbrev pub batch_max : ℕ
batch_max = 500

module _ {T : Type 0} where
  abbrev pub idle : Ingest T
  idle = record { queue = []; batch = []; stored = []; inserted = 0 }

  -- `on_msg`: of a message that finds the queue full nothing is kept.
  abbrev pub is_full : Ingest T → Bool
  is_full s = if ltb (length s.queue) queue_max then false else true

  unfoldable pub on_msg : Row T → Ingest T → Ingest T
  on_msg m s = if is_full s then s else record s { queue = s.queue ++ m ∷ [] }

  -- `Q.get()` for the first row of a batch, and `Q.get_nowait()` while the batch is short: nothing to do
  -- on an empty queue or with a full batch. The clock can end a batch at any row before.
  unfoldable pub take_from : Ingest T → List (Row T) → Ingest T
  take_from s [] = s
  take_from s (m ∷ queue) =
      if ltb (length s.batch) batch_max
      then record s { queue = queue; batch = s.batch ++ m ∷ [] }
      else s

  abbrev pub take_row : Ingest T → Ingest T
  take_row s = take_from s s.queue

  -- `executemany`, `commit` and the count of the rows, in one step: a commit that raises after the database has
  -- stored the rows is not modelled.
  unfoldable pub commit : Ingest T → Ingest T
  commit s = record s {
    batch = [];
    stored = s.stored ++ s.batch;
    inserted = s.inserted + length s.batch;
  }

  -- An exception of the database: the writer connects again and starts a new batch.
  unfoldable pub reconnect : Ingest T → Ingest T
  reconnect s = record s { batch = [] }
