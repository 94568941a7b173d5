-- ===== src/Client/Instances.antt =====
-- Several instances over one table of enqueued jobs (client/enqueue_job_manager.go): the calls of
-- their goroutines, interleaved in any order. A goroutine of handleJob runs from the LockJob that
-- starts it to the MarkSuccess or MarkFailure that the result processor makes for it.
pub mod Exclusion
use go_fire.Base.{ℕ, ◌≡◌, ◌≢◌, true, List, [], ◌∷◌, ◌++◌, Option, String, Error, ok}
use go_fire.Store.Sql.{Time}
use go_fire.Store.Enqueued.{Store, lock_job}
use go_fire.Store.Enqueued.Ops.{
  Op, insert_op, bulk_op, remove_op, retry_op, success_op, failure_op, run, empty,
}

-- A goroutine: the job that it runs, and its instance.
pub record Running : Type 0 where
  pub job_id : ℕ
  pub instance_name : String

pub record System : Type 0 where
  pub store : Store
  pub running : List Running

-- Calls that may come at any time from the job manager, the dashboard, the queue and the timer of
-- MarkRetryFailedJobs.
pub data Outside : Op → Type 0 where
  insert :
      (fault : Option Error) (now : Time) (name : String) (at : Time) (args : Option String)
      → Outside (insert_op fault now name at args)
  bulk :
      (fault : Option Error) (now : Time) (batch : List go_fire.Store.Enqueued.Job)
      → Outside (bulk_op fault now batch)
  remove : (fault : Option Error) (id : ℕ) → Outside (remove_op fault id)
  retry : (fault : Option Error) (now : Time) → Outside (retry_op fault now)

-- The call that ends a goroutine of the job; it may fail.
pub data Report : ℕ → Op → Type 0 where
  success : (fault : Option Error) (now : Time) (id : ℕ) → Report id (success_op fault now id)
  failure :
      (fault : Option Error) (id : ℕ) (msg : String) (attempts max : ℕ)
      → Report id (failure_op fault id msg attempts max)

pub data Step (s : System) : System → Type 0 where
  outside : {op : Op} → Outside op → Step s (record s { store = run op s.store })
  -- LockJob answers true, and a goroutine starts.
  locked :
      (fault : Option Error) (now : Time) (r : Running)
      → (lock_job fault now r.job_id r.instance_name s.store).1 ≡ ok true
      → Step s (record {
        store = (lock_job fault now r.job_id r.instance_name s.store).0;
        running = r ∷ s.running;
      })
  refused :
      (fault : Option Error) (now : Time) (r : Running)
      → (lock_job fault now r.job_id r.instance_name s.store).1 ≢ ok true
      → Step s (record s { store = (lock_job fault now r.job_id r.instance_name s.store).0 })
  -- A goroutine ends, and its result is stored.
  reported :
      (before : List Running) (r : Running) (after : List Running) {op : Op}
      → s.running ≡ before ++ r ∷ after
      → Report r.job_id op
      → Step s (record { store = run op s.store; running = before ++ after })
  -- A handler panics: the goroutine ends, and no result is sent.
  panicked :
      (before : List Running) (r : Running) (after : List Running)
      → s.running ≡ before ++ r ∷ after
      → Step s (record s { running = before ++ after })

abbrev pub init : System
init = record { store = empty; running = [] }

pub data Reach : System → Type 0 where
  start : Reach init
  later : {s t : System} → Reach s → Step s t → Reach t
