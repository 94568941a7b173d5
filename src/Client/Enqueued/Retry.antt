-- ===== src/Client/Enqueued/Retry.antt =====
-- The loop MarkRetryFailedJobs of every instance (client/enqueue_job_manager.go): at each tick it takes
-- the retry lock, marks the failed jobs, and gives the lock back. The loop runs with the background
-- context, which is never cancelled.
use go_fire.Base.{
  ℕ, ◌≡◌, ◌≢◌, refl, ap, ◌∙◌, Bool, true, false, List, [], ◌∷◌, Option, none, Error, Result, ok,
  err, All, inl,
}
use go_fire.Store.Sql.{Time}
use go_fire.Store.Enqueued.{Store, mark_retry_failed_jobs}
use go_fire.Lock.{Locks, acquire, release, releases, call, call_all, Call}
use go_fire.Lock.Laws.{
  IsHolder, IsNotOwn, acquire-IsHolder, acquire-refused, acquire-free, call_all-IsHolder,
  call-IsHolder, release-acquire,
}

-- The number of the lock (constants/constants.go).
abbrev pub retry_lock : ℕ
retry_lock = 4

-- A tick: the database's clock, and at each of the three statements its failure; the sessions in which
-- the pool runs Acquire and Release.
pub record Tick : Type 0 where
  pub now : Time
  pub acquire_fault : Option Error
  pub mark_fault : Option Error
  pub release_fault : Option Error
  pub acquire_session : ℕ
  pub release_session : ℕ

-- The locks and the table, which the instances share, and whether the loop still runs.
pub record Shared : Type 0 where
  pub locks : Locks
  pub table : Store
  pub running : Bool

-- The rest of the tick, for what Acquire has returned. The errors of the other two calls are logged.
abbrev pub after_acquire : Tick → Store → Locks × Result (Unit {0}) → Shared
after_acquire t s (locks, err e) = record { locks = locks; table = s; running = false }
after_acquire t s (locks, ok u) = record {
  locks = (release t.release_fault t.release_session retry_lock locks).0;
  table = (mark_retry_failed_jobs t.mark_fault t.now s).0;
  running = true;
}

unfoldable pub tick : Tick → Locks → Store → Shared
unfolding acquire release mark_retry_failed_jobs
tick t locks s = after_acquire t s (acquire t.acquire_fault t.acquire_session retry_lock locks)

-- The ticks of one instance, while its loop runs.
unfoldable pub retry_loop : List Tick → Shared → Shared
unfolding tick
retry_loop [] w = w
retry_loop (t ∷ ts) w = elim w.running [ true ↦ retry_loop ts (tick t w.locks w.table) | false ↦ w ]

abbrev pub start : Locks → Store → Shared
start locks s = record { locks = locks; table = s; running = true }

retry_loop-ended :
    (ts : List Tick) (locks : Locks) (s : Store)
    → retry_loop ts (record { locks = locks; table = s; running = false })
      ≡ record { locks = locks; table = s; running = false }
unfolding retry_loop
retry_loop-ended [] locks s = refl
retry_loop-ended (t ∷ ts) locks s = refl

-- The retry lock is held in a session that this instance does not acquire in: its loop ends at the
-- first tick and never marks a job again.
retry_loop-blocked :
    (session : ℕ) (t : Tick) (ts : List Tick) (locks : Locks) (s : Store)
    → IsHolder session retry_lock locks
    → t.acquire_session ≢ session
    → retry_loop (t ∷ ts) (start locks s) ≡ record { locks = locks; table = s; running = false }
unfolding retry_loop tick
retry_loop-blocked session t ts locks s held ne =
    let (e, refused) =
      acquire-refused t.acquire_fault session t.acquire_session retry_lock locks held ne in
    rw refused (retry_loop-ended ts locks s)

after_acquire-ok :
    (t : Tick) (s : Store) (x : Locks × Result (Unit {0}))
    → x.1 ≡ ok tt
    → after_acquire t s x
      ≡ start
          (release t.release_fault t.release_session retry_lock x.0).0
          (mark_retry_failed_jobs t.mark_fault t.now s).0
after_acquire-ok t s (locks, ok u) e = refl
after_acquire-ok t s (locks, err m) e = absurd cc

tick-IsHolder :
    (t : Tick) (locks : Locks) (s : Store)
    → locks retry_lock ≡ none
    → t.acquire_fault ≡ none
    → t.release_session ≢ t.acquire_session
    → IsHolder t.acquire_session retry_lock (tick t locks s).locks
unfolding tick call
tick-IsHolder t locks s free works ne =
    let done = acquire-free t.acquire_session retry_lock locks free in
    let held = acquire-IsHolder t.acquire_session retry_lock locks done in
    let kept =
      call-IsHolder t.acquire_session retry_lock
        (releases t.release_fault t.release_session retry_lock)
        (acquire none t.acquire_session retry_lock locks).0 (inl ne) held in
    rw (works, after_acquire-ok t s (acquire none t.acquire_session retry_lock locks) done) kept

-- One tick whose Release the pool runs in another session than its Acquire stops the retries: from then
-- on, until a Release runs in the session that holds the lock, the loop of every instance whose pool
-- gives its next Acquire another session ends at that tick, and no later tick marks a job.
pub retry_loop-stops :
    (t u : Tick) (us : List Tick) (locks : Locks) (s s' : Store) (calls : List Call)
    → locks retry_lock ≡ none
    → t.acquire_fault ≡ none
    → t.release_session ≢ t.acquire_session
    → All (IsNotOwn t.acquire_session retry_lock) calls
    → u.acquire_session ≢ t.acquire_session
    → ((retry_loop (u ∷ us) (start (call_all calls (tick t locks s).locks) s')).table ≡ s')
      × ((retry_loop (u ∷ us) (start (call_all calls (tick t locks s).locks) s')).running ≡ false)
retry_loop-stops t u us locks s s' calls free works ne others ne' =
    let held =
      call_all-IsHolder t.acquire_session retry_lock calls (tick t locks s).locks others
        (tick-IsHolder t locks s free works ne) in
    let e =
      retry_loop-blocked t.acquire_session u us (call_all calls (tick t locks s).locks) s' held
        ne' in
    (ap (λ w. w.table) e, ap (λ w. w.running) e)

-- The three statements succeed, and the pool runs Acquire and Release in one session.
abbrev pub IsPaired : Tick → Type 0
IsPaired t =
    (t.acquire_fault ≡ none)
    × (t.mark_fault ≡ none)
    × (t.release_fault ≡ none)
    × (t.release_session ≡ t.acquire_session)

-- The table, with the failed jobs marked at each tick.
abbrev pub mark_each : List Tick → Store → Store
unfolding mark_retry_failed_jobs
mark_each [] s = s
mark_each (t ∷ ts) s = mark_each ts (mark_retry_failed_jobs none t.now s).0

tick-paired :
    (t : Tick) (locks : Locks) (s : Store)
    → locks retry_lock ≡ none
    → IsPaired t
    → (locks' : Locks) × (locks' retry_lock ≡ none)
      × (tick t locks s ≡ start locks' (mark_retry_failed_jobs none t.now s).0)
unfolding tick
tick-paired t locks s free (works, marks, works', same) =
    let done = acquire-free t.acquire_session retry_lock locks free in
    let x = acquire none t.acquire_session retry_lock locks in
    (
      (release none t.acquire_session retry_lock x.0).0,
      release-acquire t.acquire_session retry_lock retry_lock locks done ∙ free,
      rw (works, after_acquire-ok t s x done, marks, works', same) refl,
    )

-- The retries go on: where the lock is free and at each tick the three statements succeed, and Acquire and
-- Release run in one session, the loop runs on, the table has had its failed jobs marked at every tick and
-- nothing else done to it, and the lock is free at the end.
pub retry_loop-goes_on :
    (ts : List Tick) (locks : Locks) (s : Store)
    → locks retry_lock ≡ none
    → All IsPaired ts
    → ((retry_loop ts (start locks s)).running ≡ true)
      × ((retry_loop ts (start locks s)).table ≡ mark_each ts s)
      × ((retry_loop ts (start locks s)).locks retry_lock ≡ none)
unfolding retry_loop
retry_loop-goes_on [] locks s free h = (refl, refl, free)
retry_loop-goes_on (t ∷ ts) locks s free h =
    let (locks', free', e) = tick-paired t locks s free h.0 in
    rw e (retry_loop-goes_on ts locks' (mark_retry_failed_jobs none t.now s).0 free' h.1)
