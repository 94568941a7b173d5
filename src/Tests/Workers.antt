-- ===== src/Tests/Workers.antt =====
-- Runs of the lock, of the retry loop and of a job's life, and the theorems about them at concrete inputs.
use go_fire.Base.{
  ◌+◌, ℕ, ◌≤◌, ◌*◌, ◌≡◌, refl, none, some, [], ◌∷◌, String, ok, err, Error, Result, map, length,
  inl, arith, false, true,
}
use go_fire.Store.Enqueued.{EnqueuedJob, Store, columns, insert, is_due}
use go_fire.Store.Enqueued.Ops.{
  insert_op, run, run_all, empty, IsWellFormed, reachable-IsWellFormed,
}
use go_fire.Store.Enqueued.Due.{due, work_statuses}
use go_fire.Lock.{releases, no_locks, acquire, call_all}
use go_fire.Lock.Laws.{acquire_exclusive}
use go_fire.Client.Handlers.{exists, execute, returned}
use go_fire.Client.Enqueued.{handle_job}
use go_fire.Client.Enqueued.Retry.{
  Tick, tick, retry_loop, start, mark_each, retry_lock, retry_loop-stops, retry_loop-goes_on,
}
use go_fire.Client.Enqueued.Progress.{rounds, rounds-start}
use go_fire.Client.Enqueued.Ripe.{ripe_jobs}
use go_fire.Client.Enqueued.{Round}
use mathlib.Core.List.{Perm}
use go_fire.Client.Enqueued.Lifecycle.{run_of, Cycle, fails, IsRowIn, waits, fate, buried, cycles}
use go_fire.Client.Enqueued.Lifecycle.Fate.{insert-life}

-- The first session takes lock 4; the pool releases it in the second session.
acquire_exclusive_example :
    (e : Error) × ((acquire none 3 4
        (call_all (releases none 2 4 ∷ []) (acquire none 1 4 no_locks).0)).1
      ≡ err e)
unfolding acquire
acquire_exclusive_example =
    acquire_exclusive 1 3 4 none no_locks (releases none 2 4 ∷ []) refl
      (inl (λ e. ground (arith, e)), tt) (λ e. ground (arith, e))

abbrev one : Store
one = run_all (insert_op none 10 "mail" 20 (some "[]") ∷ []) empty

one-IsWellFormed : IsWellFormed one
one-IsWellFormed = reachable-IsWellFormed (insert_op none 10 "mail" 20 (some "[]") ∷ [])

-- A tick that acquires in one session and releases in another.
abbrev tick_in : ℕ → ℕ → Tick
tick_in a b = record {
  now = 60;
  acquire_fault = none;
  mark_fault = none;
  release_fault = none;
  acquire_session = a;
  release_session = b;
}

retry_loop-stops_example :
    ((retry_loop
        (tick_in 3 3 ∷ [])
        (start (call_all [] (tick (tick_in 1 2) no_locks one).locks) one)).table
      ≡ one)
    × ((retry_loop
          (tick_in 3 3 ∷ [])
          (start (call_all [] (tick (tick_in 1 2) no_locks one).locks) one)).running
        ≡ false)
retry_loop-stops_example =
    retry_loop-stops (tick_in 1 2) (tick_in 3 3) [] no_locks one one [] refl refl
      (λ e. ground (arith, e)) tt (λ e. ground (arith, e))

retry_loop-goes_on_example :
    ((retry_loop (tick_in 1 1 ∷ tick_in 2 2 ∷ []) (start no_locks one)).running ≡ true)
    × ((retry_loop (tick_in 1 1 ∷ tick_in 2 2 ∷ []) (start no_locks one)).table
        ≡ mark_each (tick_in 1 1 ∷ tick_in 2 2 ∷ []) one)
    × ((retry_loop (tick_in 1 1 ∷ tick_in 2 2 ∷ []) (start no_locks one)).locks retry_lock ≡ none)
retry_loop-goes_on_example =
    retry_loop-goes_on (tick_in 1 1 ∷ tick_in 2 2 ∷ []) no_locks one refl
      ((refl, refl, refl, refl), ((refl, refl, refl, refl), tt))

-- A round without failures, in which nobody else calls the store.
abbrev calm_at : ℕ → Round
calm_at now = record {
  fault = none;
  tie = λ r. 0;
  now = now;
  db_now = now + 10;
  before = [];
  laps = λ job. record { fault = none; now = now + 11; meanwhile = []; is_cancelled = false };
}

room_for_one : length (due 60 work_statuses (some 50) one) ≤ 2 * 10
unfolding run insert is_due
room_for_one = omega arith

rounds-start_example :
    Perm
      (ripe_jobs 50 (rounds ((calm_at 50, "pod a") ∷ (calm_at 70, "pod b") ∷ []) 10 one).1)
      (map columns (due 60 work_statuses (some 50) one))
    × (due 60 work_statuses
          (some 50)
          (rounds ((calm_at 50, "pod a") ∷ (calm_at 70, "pod b") ∷ []) 10 one).0
        ≡ [])
rounds-start_example =
    rounds-start 60 50 ((calm_at 50, "pod a") ∷ (calm_at 70, "pod b") ∷ []) 10 one one-IsWellFormed
      (
        (refl, omega arith, refl, (λ job. (refl, refl, refl))),
        ((refl, omega arith, refl, (λ job. (refl, refl, refl))), tt),
      )
      room_for_one

abbrev as_text : String → Result String
as_text s = ok s

-- An instance on which the job fails.
abbrev failing : ℕ → Cycle String
failing t = record {
  by = "pod a";
  now = t;
  handlers = ("sms", (λ args. returned (some "refused"))) ∷ [];
}

as_mail :
    (job : EnqueuedJob) (now : ℕ)
    → job.name ≡ "sms"
    → run_of (handle_job as_text (failing now).handlers job) ≡ fails
unfolding handle_job exists execute
as_mail job now e = rw e refl

insert-life_example : IsRowIn 2 "sms" "[]" (fate (waits 0) (fails ∷ fails ∷ fails ∷ fails ∷ [])) (
    cycles as_text 2
      (failing 60 ∷ failing 130 ∷ failing 200 ∷ failing 300 ∷ [])
      (insert none 30 "sms" 40 (some "[]") one).0)
unfolding run insert
insert-life_example =
    insert-life as_text 30 40 "sms" "[]"
      ((failing 60, fails)
        ∷ (failing 130, fails)
        ∷ (failing 200, fails)
        ∷ (failing 300, fails)
        ∷ [])
      one one-IsWellFormed
      (
        (λ job n p. as_mail job 60 n),
        (
          (λ job n p. as_mail job 130 n),
          ((λ job n p. as_mail job 200 n), ((λ job n p. as_mail job 300 n), tt)),
        ),
      )

third_buries : fate (waits 0) (fails ∷ fails ∷ fails ∷ fails ∷ []) ≡ buried
third_buries = refl
