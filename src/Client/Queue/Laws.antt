-- ===== src/Client/Queue/Laws.antt =====
-- The jobs of the queue on their way to the database: none is lost while the database works and the
-- channel is closed; a cancelled context loses the last batch.
use go_fire.Base.{
  Result, ok, err, ◌<◌, ◌≡◌, refl, sym, ap, ◌∙◌, List, [], ◌∷◌, ◌++◌, map, Option, none, some,
  String, Error, arith, length, leb, All, Bool-cases, inl, inr, append_assoc, append-nil,
  map-append,
}
use go_fire.Store.Sql.{Time}
use go_fire.Store.Enqueued.{Row, Store, Job, insert, new_row, append_row}
use go_fire.Store.Enqueued.Bulk.{
  marshal_batch, insert_values, bulk_insert, insert_each, IsMarshalled, bulk_insert-insert_each,
}
use go_fire.Client.Queue.{
  State, Event, message, tick, batch_size, add_job, flush_batch, handle, handle_all, closed,
  cancelled, finish, sync_worker,
}

-- A job as its sender gave it, in the queue and in the table.
abbrev pub Sent : Type 0
Sent = String × Option String × Time

abbrev pub sent : Job → Sent
sent job = (job.name, job.args, job.scheduled_at)

abbrev pub stored : Row → Sent
stored r = (r.name, some r.payload, r.scheduled_at)

abbrev pub stored_jobs : Store → List Sent
stored_jobs s = map stored s.rows

-- The jobs of the messages, in the order of arrival.
abbrev pub jobs_of : List Event → List Job
jobs_of [] = []
jobs_of (message _ _ (some job) ∷ events) = job ∷ jobs_of events
jobs_of (message _ _ none ∷ events) = jobs_of events
jobs_of (tick _ _ ∷ events) = jobs_of events

-- The database does not fail while the event is handled.
abbrev pub Works : Event → Type 0
Works (message fault now job) = fault ≡ none
Works (tick fault now) = fault ≡ none

insert_each-stored :
    (now : Time) (batch : List Job) (s : Store)
    → IsMarshalled batch
    → stored_jobs (insert_each now batch s) ≡ stored_jobs s ++ map sent batch
unfolding insert
insert_each-stored now [] s h = sym (append-nil _)
insert_each-stored now (job ∷ batch) s ((payload, e), h) = rw e (
    insert_each-stored now batch
      (append_row (new_row now s.next_id job.name payload job.scheduled_at) s) h
    ∙ rw map-append
        (append_assoc (stored_jobs s) ((job.name, some payload, job.scheduled_at) ∷ []) _))

-- What the state holds: the table, and the batch that waits.
abbrev held : State → List Sent
held st = stored_jobs st.1 ++ map sent st.0

flush_batch-held :
    (now : Time) (st : State)
    → IsMarshalled st.0
    → (stored_jobs (flush_batch none now st).1 ≡ held st) × ((flush_batch none now st).0 ≡ [])
unfolding flush_batch
flush_batch-held now ([], s) h = (sym (append-nil _), refl)
flush_batch-held now (job ∷ batch, s) h = (
  ap (λ p. stored_jobs p.0) (bulk_insert-insert_each now (job ∷ batch) s h)
      ∙ insert_each-stored now (job ∷ batch) s h,
  refl,
)

IsMarshalled-append :
    (batch : List Job) (job : Job)
    → IsMarshalled batch
    → IsMarshalled (job ∷ [])
    → IsMarshalled (batch ++ job ∷ [])
IsMarshalled-append [] job h k = k
IsMarshalled-append (j ∷ batch) job h k = (h.0, IsMarshalled-append batch job h.1 k)

-- Between two events: fewer jobs than a batch wait, and all of them marshal.
abbrev IsReady : State → Type 0
IsReady st = (length st.0 < batch_size) × IsMarshalled st.0

add_job-held : (job : Job) (st : State) → held (add_job job st) ≡ held st ++ sent job ∷ []
add_job-held job st = rw map-append (sym (append_assoc (stored_jobs st.1) (map sent st.0) _))

flushed :
    (now : Time) (st : State)
    → IsMarshalled st.0
    → IsReady (flush_batch none now st) × (held (flush_batch none now st) ≡ held st)
flushed now st h =
    let (table, batch) = flush_batch-held now st h in
    ((rw batch (omega arith), rw batch tt), rw batch (append-nil _ ∙ table))

message-held :
    (now : Time) (job : Job) (st : State)
    → IsMarshalled (job ∷ [])
    → IsReady st
    → IsReady (handle (message none now (some job)) st)
      × (held (handle (message none now (some job)) st) ≡ held st ++ sent job ∷ [])
unfolding handle
message-held now job st k (small, h) =
    let all = IsMarshalled-append st.0 job h k in
    elim (Bool-cases (leb batch_size (length (st.0 ++ job ∷ [])))) [
      | inl full ↦
          let (ready, kept) = flushed now (add_job job st) all in
          rw full (ready, kept ∙ add_job-held job st)
      | inr room ↦ rw room ((ground arith, all), add_job-held job st)
    ]

handle_all-held :
    (events : List Event) (st : State)
    → All Works events
    → IsMarshalled (jobs_of events)
    → IsReady st
    → IsReady (handle_all events st)
      × (held (handle_all events st) ≡ held st ++ map sent (jobs_of events))
unfolding handle_all handle
handle_all-held [] st w h ready = (ready, sym (append-nil _))
handle_all-held (message fault now none ∷ events) st w h ready =
    handle_all-held events st w.1 h ready
handle_all-held (message fault now (some job) ∷ events) st w h ready = rw w.0 (
    let (ready', step) = message-held now job st (h.0, tt) ready in
    let (done, rest) =
      handle_all-held events (handle (message none now (some job)) st) w.1 h.1 ready' in
    (
      done,
      rest
          ∙ ap (λ l. l ++ map sent (jobs_of events)) step
          ∙ append_assoc (held st) (sent job ∷ []) _,
    ))
handle_all-held (tick fault now ∷ events) st w h ready = rw w.0 (
    let (ready', step) = flushed now st ready.1 in
    let (done, rest) = handle_all-held events (flush_batch none now st) w.1 h ready' in
    (done, rest ∙ ap (λ l. l ++ map sent (jobs_of events)) step))

-- While the database works, and every job marshals again, the worker that runs until the channel is
-- closed has added exactly the jobs of the messages to the table, in the order of their arrival,
-- and keeps none.
pub sync_worker_complete :
    (events : List Event) (now : Time) (s : Store)
    → All Works events
    → IsMarshalled (jobs_of events)
    → (stored_jobs (sync_worker events (closed none now) s).1
        ≡ stored_jobs s ++ map sent (jobs_of events))
      × ((sync_worker events (closed none now) s).0 ≡ [])
unfolding sync_worker finish
sync_worker_complete events now s w h =
    let st : State = ([], s) in
    let (ready, kept) = handle_all-held events st w h (omega arith, tt) in
    let (table, empty) = flush_batch-held now (handle_all events st) ready.1 in
    (table ∙ kept ∙ ap (λ l. l ++ map sent (jobs_of events)) (append-nil (stored_jobs s)), empty)

insert_values-fault :
    (e : Error) (now : Time) (values : Result (List (String × String × Time))) (s : Store)
    → (insert_values (some e) now values s).0 ≡ s
unfolding insert_values
insert_values-fault e now (ok values) s = refl
insert_values-fault e now (err _) s = refl

flush_batch-fault : (e : Error) (now : Time) (st : State) → flush_batch (some e) now st ≡ ([], st.1)
unfolding flush_batch bulk_insert
flush_batch-fault e now ([], s) = refl
flush_batch-fault e now (job ∷ batch, s) =
    ap (λ s'. ([], s')) (insert_values-fault e now (marshal_batch (job ∷ batch)) s)

-- Where the context is cancelled instead, the table has all jobs of the messages but those of the
-- batch that waits, which are fewer than 1000: they are dropped.
pub sync_worker_cancelled :
    (events : List Event) (now : Time) (s : Store)
    → All Works events
    → IsMarshalled (jobs_of events)
    → let lost = (handle_all events ([], s)).0 in
      (stored_jobs (sync_worker events (cancelled now) s).1 ++ map sent lost
        ≡ stored_jobs s ++ map sent (jobs_of events))
      × (length lost < 1000)
      × ((sync_worker events (cancelled now) s).0 ≡ [])
unfolding sync_worker finish
sync_worker_cancelled events now s w h =
    let (ready, kept) = handle_all-held events ([], s) w h (omega arith, tt) in
    let gone = flush_batch-fault "context canceled" now (handle_all events ([], s)) in
    (
      ap (λ st. stored_jobs st.1 ++ map sent (handle_all events ([], s)).0) gone
          ∙ kept
          ∙ ap (λ l. l ++ map sent (jobs_of events)) (append-nil (stored_jobs s)),
      ready.0,
      ap (λ st. st.0) gone,
    )
