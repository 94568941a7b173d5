-- ===== src/Client/JobManager/Schedules.antt =====
-- When a cron job that is scheduled runs for the first time.
use go_fire.Base.{
  suc, ℕ, ◌≡◌, refl, Bool, true, List, [], ◌∷◌, ◌++◌, none, some, String, ok, arith, Bool-cases,
  inl, inr, find?, eq_iff,
}
use go_fire.Text.{codes}
use go_fire.Store.Sql.{Time}
use go_fire.Store.CronJobs.{Row, Store, Schedule, named, new_row, add_or_update, upsert, is_due}
use go_fire.Cron.Clock.{Location, local}
use go_fire.Cron.NextRun.{calculate_next_run}
use go_fire.Client.JobManager.{schedule}

find?-new :
    (p : Row → Bool) (x : Row) (xs : List Row)
    → find? p xs ≡ none
    → p x ≡ true
    → find? p (xs ++ x ∷ []) ≡ some x
find?-new p x [] h e = rw e refl
find?-new p x (y ∷ xs) h e = elim (Bool-cases (p y)) [
  | inl hit ↦ absurd (let h' = rw (hit, find?) at h in cc)
  | inr miss ↦ rw miss (find?-new p x xs (rw (miss, find?) at h) e)
]

is_due-new_row :
    (now now' : Time) (id : ℕ) (name : String) (sched : Schedule)
    → is_due now' (new_row now id name sched) ≡ true
unfolding is_due
is_due-new_row now now' id name sched = ground arith

-- A cron job that is scheduled under a new name is due at once: Schedule writes what the process's clock
-- shows at the next run that CalculateNextRun gives, but whatever the database's clock shows, also long
-- before that run, the row is one that FetchDueCronJobs selects.
pub schedule-due :
    (loc : Location) (now db_now now' at : Time) (name expr args : String) (s : Store)
    → calculate_next_run loc (codes expr) now ≡ some at
    → find? (named name) s.rows ≡ none
    → (s' : Store) × (id : ℕ) × (r : Row) × (schedule loc
          (record { now = now; db_now = db_now; fault = none })
          name
          expr
          (some args)
          s
        ≡ some (s', ok id))
      × (find? (named name) s'.rows ≡ some r)
      × (r.next_run_at ≡ some (local loc at))
      × (is_due now' r ≡ true)
unfolding schedule add_or_update upsert
schedule-due loc now db_now now' at name expr args s next free =
    let sched : Schedule = record {
      next_run_at = local loc at;
      payload = args;
      expression = expr;
    } in
    let r = new_row db_now s.next_id name sched in
    (
      record { rows = s.rows ++ r ∷ []; next_id = suc s.next_id },
      s.next_id,
      r,
      rw (next, free) refl,
      find?-new (named name) r s.rows free ((eq_iff name name).1 refl),
      refl,
      is_due-new_row db_now now' s.next_id name sched,
    )
