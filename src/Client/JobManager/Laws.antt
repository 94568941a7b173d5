-- ===== src/Client/JobManager/Laws.antt =====
-- Both modes of Enqueue come to the same table.
use go_fire.Base.{
  ℕ, ◌≡◌, refl, sym, ap, ◌∙◌, true, false, Bool, List, [], ◌∷◌, ◌++◌, map, none, some, String,
  Result, ok, All, Option-cases, inl, inr, append_assoc, append-nil, map-append,
}
use go_fire.Store.Sql.{Time}
use go_fire.Store.Enqueued.{Job, Store, insert}
use go_fire.Store.Enqueued.Bulk.{IsMarshalled}
use go_fire.Client.Queue.{Event, message, sync_worker, closed}
use go_fire.Client.Queue.Laws.{sent, stored_jobs, jobs_of, Works, sync_worker_complete}
use go_fire.Client.JobManager.{Json, World, publish, enqueue}

-- Calls of Enqueue one after the other, while the database and the broker work.
abbrev pub enqueue_all : Bool → Json → Time → List Job → World → World
unfolding enqueue
enqueue_all to_queue json now [] w = w
enqueue_all to_queue json now (job ∷ jobs) w =
    enqueue_all to_queue json now jobs
      (enqueue to_queue json none now job.name job.scheduled_at job.args w).0

-- The messages of the queue, as they arrive at the worker.
abbrev pub delivered : Json → Time → List String → List Event
delivered json now queue = map (λ payload. message none now (json.unmarshal payload)) queue

-- The message of a job is read back as the job, whose arguments marshal again.
abbrev pub RoundTrips : Json → Job → Type 0
RoundTrips json job =
    (payload : String) × (json.marshal job ≡ ok payload)
    × (json.unmarshal payload ≡ some job)
    × ((args : String) × (job.args ≡ some args))

insert-stored :
    (now : Time) (job : Job) (args : String) (s : Store)
    → job.args ≡ some args
    → stored_jobs (insert none now job.name job.scheduled_at job.args s).0
      ≡ stored_jobs s ++ sent job ∷ []
unfolding insert
insert-stored now job args s e = rw (e, map-append) refl

enqueue_all-direct :
    (json : Json) (now : Time) (jobs : List Job) (w : World)
    → All (RoundTrips json) jobs
    → stored_jobs (enqueue_all false json now jobs w).jobs ≡ stored_jobs w.jobs ++ map sent jobs
unfolding enqueue
enqueue_all-direct json now [] w h = sym (append-nil (stored_jobs w.jobs))
enqueue_all-direct json now (job ∷ jobs) w ((payload, m, u, (args, e)), h) =
    enqueue_all-direct json now jobs _ h
    ∙ ap (λ l. l ++ map sent jobs) (insert-stored now job args w.jobs e)
    ∙ append_assoc (stored_jobs w.jobs) (sent job ∷ []) (map sent jobs)

jobs_of-delivered :
    (json : Json) (now : Time) (queue : List String) (payload : String) (job : Job)
    → json.unmarshal payload ≡ some job
    → jobs_of (delivered json now (queue ++ payload ∷ []))
      ≡ jobs_of (delivered json now queue) ++ job ∷ []
jobs_of-delivered json now [] payload job u = rw u refl
jobs_of-delivered json now (p ∷ queue) payload job u =
    let rest = jobs_of-delivered json now queue payload job u in
    elim (Option-cases (json.unmarshal p)) [
      | inl none' ↦ rw none' rest
      | inr (first, some') ↦ rw some' (ap (λ l. first ∷ l) rest)
    ]

enqueue-published :
    (json : Json) (now : Time) (job : Job) (payload : String) (w : World)
    → json.marshal job ≡ ok payload
    → enqueue true json none now job.name job.scheduled_at job.args w
      ≡ (record w { queue = w.queue ++ payload ∷ [] }, ok 0)
unfolding enqueue
enqueue-published json now job payload w m = ap (λ r. publish none r w) m

enqueue_all-queue :
    (json : Json) (now now' : Time) (jobs : List Job) (w : World)
    → All (RoundTrips json) jobs
    → ((enqueue_all true json now jobs w).jobs ≡ w.jobs)
      × (jobs_of (delivered json now' (enqueue_all true json now jobs w).queue)
          ≡ jobs_of (delivered json now' w.queue) ++ jobs)
unfolding enqueue
enqueue_all-queue json now now' [] w h = (refl, sym (append-nil _))
enqueue_all-queue json now now' (job ∷ jobs) w ((payload, m, u, (args, e)), h) =
    let w' : World = record w { queue = w.queue ++ payload ∷ [] } in
    let (same', arrived) = enqueue_all-queue json now now' jobs w' h in
    let step =
      ap (λ (x : World × Result ℕ). enqueue_all true json now jobs x.0)
        (enqueue-published json now job payload w m) in
    rw step (
      same',
      arrived
          ∙ ap (λ l. l ++ jobs) (jobs_of-delivered json now' w.queue payload job u)
          ∙ append_assoc (jobs_of (delivered json now' w.queue)) (job ∷ []) jobs,
    )

delivered-Works :
    (json : Json) (now : Time) (queue : List String) → All Works (delivered json now queue)
delivered-Works json now [] = tt
delivered-Works json now (p ∷ queue) = (refl, delivered-Works json now queue)

marshalled : (json : Json) (jobs : List Job) → All (RoundTrips json) jobs → IsMarshalled jobs
marshalled json [] h = tt
marshalled json (job ∷ jobs) ((payload, m, u, args), h) = (args, marshalled json jobs h)

-- Both modes of Enqueue come to the same: where the message of each job is read back as the job, and
-- database and broker work, the jobs that calls of Enqueue put into the queue are, once the worker has
-- moved them, in the table as the same calls would have put them there directly, in the same order.
pub enqueue-modes :
    (json : Json) (now now' : Time) (jobs : List Job) (s : Store)
    → All (RoundTrips json) jobs
    → let w : World = record { jobs = s; queue = [] } in
      let queued = enqueue_all true json now jobs w in
      stored_jobs (sync_worker (delivered json now' queued.queue) (closed none now') queued.jobs).1
      ≡ stored_jobs (enqueue_all false json now jobs w).jobs
enqueue-modes json now now' jobs s h =
    let w : World = record { jobs = s; queue = [] } in
    let queued = enqueue_all true json now jobs w in
    let (same', arrived) = enqueue_all-queue json now now' jobs w h in
    let moved =
      (sync_worker_complete (delivered json now' queued.queue) now' queued.jobs
        (delivered-Works json now' queued.queue) (rw arrived (marshalled json jobs h))).0 in
    moved ∙ (rw (same', arrived) refl) ∙ sym (enqueue_all-direct json now jobs w h)
