-- ===== src/Client/Enqueued/Start.antt =====
-- Start (client/enqueue_job_manager.go): what the worker does before its rounds, and its rounds. The
-- context is not cancelled.
use mathlib.Core.List.{Perm}
use go_fire.Base.{
  ℕ, suc, ◌*◌, ◌≤◌, ◌≡◌, refl, ap, List, [], ◌∷◌, map, false, Option, none, some, String, Error, ok,
  err, length, Bool-cases, inl, inr, ◌&&◌, All,
}
use go_fire.Status.{queued, processing, is}
use go_fire.Store.Sql.{Time, minute, update_where}
use go_fire.Store.Enqueued.{Row, Store, EnqueuedJob, columns, unlock_stale_jobs, locked_until}
use go_fire.Store.Enqueued.Ops.{unlock_op, run, IsWellFormed, run-IsWellFormed}
use go_fire.Store.Enqueued.Due.{due, work_statuses}
use go_fire.Client.Enqueued.{Round}
use go_fire.Client.Enqueued.Progress.{IsCalm, rounds, rounds-start}
use go_fire.Client.Enqueued.Ripe.{ripe_jobs}

-- The table and the jobs that the rounds start; none where UnlockStaleJobs fails, which ends the process.
unfoldable pub start :
    Option Error → Time → List Round → ℕ → String → Store → Option (Store × List EnqueuedJob)
unfolding unlock_stale_jobs rounds
start fault db_now rs size by s =
    let x = unlock_stale_jobs fault db_now (5 * minute) s in
    elim x.1 [ err e ↦ none | ok u ↦ some (rounds (map (λ r. (r, by)) rs) size x.0) ]

-- The table once its locks are given up.
abbrev pub unlocked : Time → Store → Store
unlocked db_now s = (unlock_stale_jobs none db_now (5 * minute) s).0

-- No row is processed under a lock of that time or before.
abbrev pub IsFree : Time → Row → Type 0
IsFree db_now r = (is r.status processing && locked_until db_now r.locked_at) ≡ false

unlocked-IsFree : (db_now : Time) (s : Store) → All (IsFree db_now) (unlocked db_now s).rows
unfolding unlock_stale_jobs update_where
unlocked-IsFree db_now s = go s.rows
  where
    go :
        (rows : List Row)
        → All (IsFree db_now) (
            update_where
              (λ r. is r.status processing && locked_until db_now r.locked_at)
              (λ r. record r { status = queued; locked_by = none; locked_at = none })
              rows)
    go [] = tt
    go (r ∷ rows) = elim (Bool-cases (is r.status processing && locked_until db_now r.locked_at)) [
      | inl held ↦ rw held (refl, go rows)
      | inr free ↦ rw free (free, go rows)
    ]

length-rounds :
    (rs : List Round) (by : String)
    → length {A = Round × String} (map (λ (r : Round). (r, by)) rs) ≡ length rs
length-rounds [] by = refl
length-rounds (r ∷ rs) by = ap suc (length-rounds rs by)

rounds-IsCalm :
    (t : Time) (rs : List Round) (by : String)
    → All (IsCalm t) rs
    → All (λ (p : Round × String). IsCalm t p.0) (map (λ (r : Round). (r, by)) rs)
rounds-IsCalm t [] by h = tt
rounds-IsCalm t (r ∷ rs) by h = (h.0, rounds-IsCalm t rs by h.1)

-- A worker that starts on a well-formed table takes up what was left: where its rounds read a clock of `t` or
-- later and have room for the jobs that are due at `t`, no statement fails and nobody else calls the store, it
-- gives up every lock of that time or before and then starts every job that is due at `t`, those that were
-- being processed among them, once.
pub start-starts :
    (db_now t : Time) (rs : List Round) (size : ℕ) (by : String) (s : Store)
    → IsWellFormed s
    → All (IsCalm t) rs
    → length (due db_now work_statuses (some t) (unlocked db_now s)) ≤ length rs * size
    → All (IsFree db_now) (unlocked db_now s).rows
      × ((x : Store × List EnqueuedJob) × (start none db_now rs size by s ≡ some x)
          × Perm
              (ripe_jobs t x.1)
              (map columns (due db_now work_statuses (some t) (unlocked db_now s)))
          × (due db_now work_statuses (some t) x.0 ≡ []))
unfolding start run unlock_stale_jobs
start-starts db_now t rs size by s wf calm room =
    let s' = unlocked db_now s in
    let ps = map (λ r. (r, by)) rs in
    let wf' = run-IsWellFormed (unlock_op none db_now (5 * minute)) s wf in
    let (started, left) =
      rounds-start db_now t ps size s' wf' (rounds-IsCalm t rs by calm)
        (rw (length-rounds rs by) room) in
    (unlocked-IsFree db_now s, (rounds ps size s', refl, started, left))
