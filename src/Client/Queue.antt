-- ===== src/Client/Queue.antt =====
-- StartQueueAndStorageSyncWorker (client/enqueue_job_manager.go): the loop that moves the jobs of
-- the message queue into the database in batches. Its events are the messages, decoded, and the
-- ticks of the timer, each with what the database does if the event flushes the batch.
pub mod Laws
use go_fire.Base.{
  ℕ, Bool, true, false, List, [], ◌∷◌, ◌++◌, Option, none, some, Error, leb, length, if◌then◌else◌,
}
use go_fire.Store.Sql.{Time}
use go_fire.Store.Enqueued.{Store, Job}
use go_fire.Store.Enqueued.Bulk.{bulk_insert}

-- The batch of the loop, `jobsBatch`, and the table.
abbrev pub State : Type 0
State = List Job × Store

-- A message that json.Unmarshal refuses carries no job.
pub data Event : Type 0 where
  message : Option Error → Time → Option Job → Event
  tick : Option Error → Time → Event

abbrev pub batch_size : ℕ
batch_size = 1000

-- A batch that BulkInsert refuses is logged and dropped.
unfoldable pub flush_batch : Option Error → Time → State → State
flush_batch fault now ([], s) = ([], s)
flush_batch fault now (job ∷ batch, s) = ([], (bulk_insert fault now (job ∷ batch) s).0)

abbrev pub add_job : Job → State → State
add_job job (batch, s) = (batch ++ job ∷ [], s)

unfoldable pub handle : Event → State → State
unfolding flush_batch
handle (message fault now none) st = st
handle (message fault now (some job)) st =
    if leb batch_size (length (st.0 ++ job ∷ []))
    then flush_batch fault now (add_job job st)
    else add_job job st
handle (tick fault now) st = flush_batch fault now st

unfoldable pub handle_all : List Event → State → State
unfolding handle
handle_all [] st = st
handle_all (event ∷ events) st = handle_all events (handle event st)

-- How the loop ends: the channel is closed, or the context is cancelled. The last BulkInsert gets
-- the same context, and database/sql answers a cancelled context with its error.
pub data End : Type 0 where
  closed : Option Error → Time → End
  cancelled : Time → End

unfoldable pub finish : End → State → State
unfolding flush_batch
finish (closed fault now) st = flush_batch fault now st
finish (cancelled now) st = flush_batch (some "context canceled") now st

unfoldable pub sync_worker : List Event → End → Store → State
unfolding handle_all finish
sync_worker events end s = finish end (handle_all events ([], s))
