-- ===== src/Client/Cron/Laws.antt =====
-- A cron job between two runs.
use go_fire.Base.{
  ap, subst, ℕ, ◌≤◌, ◌<◌, ◌≡◌, refl, sym, ◌∙◌, false, List, [], ◌∷◌, none, some, String, Result, ok,
  err, arith, ◌==◌, All, Bool-cases, inl, inr, ◌⊎◌,
}
use go_fire.Text.{codes}
use go_fire.Status.{succeeded, failed, is_valid_transition}
use go_fire.Store.Sql.{Time, update_where}
use go_fire.Cron.Clock.{Location, local}
use go_fire.Cron.NextRun.{calculate_next_run}
use go_fire.Cron.NextRun.Future.{lt-calculate_next_run}
use go_fire.Store.CronJobs.{
  Row, Store, CronJob, update_row, is_due, mark_success, mark_failure, update_job_run_times,
}
use go_fire.Client.Handlers.{Outcome, returned, panicked, Handlers, exists, error_to_job_status}
use go_fire.Client.Cron.{
  JobResult, result_of, run_handler, execute_at, execute_job, mark_result, process_result,
}

-- What every result of a job at a time `now` says.
abbrev pub IsResult : CronJob → Time → Time → JobResult → Type 0
IsResult job now next res =
    (res.job_id ≡ job.id)
    × (res.ran_at ≡ now)
    × (res.next_run ≡ next)
    × ((res.status ≡ succeeded) ⊎ (res.status ≡ failed))

module _ {Args : Type 0} (unmarshal : String → Result Args) (handlers : Handlers Args) where
  execute_at-IsResult :
      (job : CronJob) (now next : Time) (res : JobResult)
      → execute_at unmarshal handlers job now next ≡ some res
      → IsResult job now next res
  unfolding execute_at run_handler result_of error_to_job_status
  execute_at-IsResult job now next res h = elim (Bool-cases (exists job.name handlers)) [
    | inl known ↦ go (unmarshal job.payload) (rw known at h)
    | inr unknown ↦ let h' = rw unknown at h in ground (arith, h')
  ]
    where
      finish :
          (outcome : Outcome)
          → result_of job now next outcome ≡ some res
          → IsResult job now next res
      finish (returned none) k = ground arith
      finish (returned (some e)) k = ground arith
      finish panicked k = absurd (ground arith)

      go :
          (args : Result Args)
          → run_handler unmarshal handlers job now next args ≡ some res
          → IsResult job now next res
      go (err e) k = ground arith
      go (ok args) k = finish _ k

abbrev IsRun : ℕ → Row → Type 0
IsRun id r = r.id ≡ id → (r.status ≡ succeeded) ⊎ (r.status ≡ failed)

-- Not due while a clock shows less than `next`.
abbrev pub IsQuiet : ℕ → Time → Row → Type 0
IsQuiet id next r = r.id ≡ id → (t : Time) → t < next → is_due t r ≡ false

update_row-IsRun :
    (id : ℕ) (f : Row → Row) (rows : List Row)
    → ((r : Row) → ((f r).status ≡ succeeded) ⊎ ((f r).status ≡ failed))
    → All (IsRun id) (update_where (λ r. r.id == id) f rows)
unfolding update_where
update_row-IsRun id f [] h = tt
update_row-IsRun id f (r ∷ rows) h = elim (Bool-cases (r.id == id)) [
  | inl hit ↦ rw hit ((λ e. h r), update_row-IsRun id f rows h)
  | inr miss ↦ rw miss ((λ e. absurd (ground arith)), update_row-IsRun id f rows h)
]

mark_result-IsRun :
    (res : JobResult) (s : Store)
    → (res.status ≡ succeeded) ⊎ (res.status ≡ failed)
    → All (IsRun res.job_id) (mark_result none res s).rows
unfolding mark_result mark_success mark_failure update_row is_valid_transition
mark_result-IsRun res s (inl e) = rw e (update_row-IsRun res.job_id _ s.rows (λ r. inl refl))
mark_result-IsRun res s (inr e) = rw e (update_row-IsRun res.job_id _ s.rows (λ r. inr refl))

run_times-IsQuiet :
    (id : ℕ) (last next : Time) (rows : List Row)
    → All (IsRun id) rows
    → All (IsQuiet id next) (
        update_where
          (λ r. r.id == id)
          (λ r. record r { last_run_at = some last; next_run_at = some next })
          rows)
unfolding update_where is_due
run_times-IsQuiet id last next [] h = tt
run_times-IsQuiet id last next (r ∷ rows) h = elim (Bool-cases (r.id == id)) [
  | inl hit ↦ rw hit ((λ e t lt. ground (arith, h.0 e)), run_times-IsQuiet id last next rows h.1)
  | inr miss ↦ rw miss ((λ e. absurd (ground arith)), run_times-IsQuiet id last next rows h.1)
]

All-imp :
    {P Q : Row → Type 0} → ((r : Row) → P r → Q r) → (rows : List Row) → All P rows → All Q rows
All-imp f [] h = tt
All-imp f (r ∷ rows) h = (f r h.0, All-imp f rows h.1)

-- After an execution that sends a result, whatever the outcome, once the result is stored without
-- failures of the database, the job is not due while the clock of the database's session shows less
-- than the process's clock shows at the next run that CalculateNextRun gave, which lies behind the time
-- of the execution; where both clocks have one zone, it is not due at any time before that run.
pub process_result-IsQuiet :
    {Args : Type 0} (unmarshal : String → Result Args) (handlers : Handlers Args) (loc : Location)
    (now : Time) (job : CronJob) (s : Store) (res : JobResult)
    → loc.west ≤ now
    → execute_job unmarshal loc handlers now job ≡ some res
    → (now < res.next_run)
      × (calculate_next_run loc (codes job.expression) now ≡ some res.next_run)
      × All (IsQuiet job.id (local loc res.next_run)) (process_result loc none none res s).rows
      × ((t : Time)
          → t < res.next_run
          → All
              (λ r. r.id ≡ job.id → is_due (local loc t) r ≡ false)
              (process_result loc none none res s).rows)
unfolding execute_job process_result update_job_run_times update_row
process_result-IsQuiet unmarshal handlers loc now job s res w h =
    let (next, e, lt) = lt-calculate_next_run loc (codes job.expression) now w in
    let h' : execute_at unmarshal handlers job now next ≡ some res = rw (e, execute_job) at h in
    let (same_id, ran, same_next, outcome) =
      execute_at-IsResult unmarshal handlers job now next res h' in
    let later : now < res.next_run = rw same_next lt in
    let quiet : All (IsQuiet job.id (local loc res.next_run))
        (process_result loc none none res s).rows =
      subst
        (λ id. All (IsQuiet id (local loc res.next_run)) (process_result loc none none res s).rows)
        same_id
        (run_times-IsQuiet res.job_id (local loc res.ran_at) (local loc res.next_run)
          (mark_result none res s).rows (mark_result-IsRun res s outcome)) in
    (
      later,
      e ∙ ap (λ t. some t) (sym same_next),
      quiet,
      λ t before.
          All-imp (λ r q same. q same (local loc t) (omega (arith, before, later, w))) _ quiet,
    )
