-- ===== src/Store/CronJobs/Due.antt =====
-- Which cron jobs FetchDueCronJobs returns.
use go_fire.Base.{
  ℕ, ◌≡◌, refl, true, false, List, [], ◌∷◌, map, none, arith, ◌==◌, select, All, Bool-cases, inl,
  inr, ◌⊎◌,
}
use go_fire.Status.{queued, retrying}
use go_fire.Store.Sql.{Time, update_where}
use go_fire.Store.CronJobs.{
  Row, Store, is_due, update_row, deactivate, execute_change_activate_query,
}

-- The ids of the rows that pass the test of FetchDueCronJobs.
abbrev pub due_ids : Time → Store → List ℕ
due_ids now s = map (λ (r : Row). r.id) (select (is_due now) s.rows)

abbrev pub IsWaiting : ℕ → Row → Type 0
IsWaiting id r = r.id ≡ id → (r.status ≡ queued) ⊎ (r.status ≡ retrying)

waiting-is_due :
    (now : Time) (r : Row) → (r.status ≡ queued) ⊎ (r.status ≡ retrying) → is_due now r ≡ true
unfolding is_due
waiting-is_due now r (inl e) = rw e (ground arith)
waiting-is_due now r (inr e) = rw e (ground arith)

due_ids-update :
    (now : Time) (id : ℕ) (rows : List Row)
    → All (IsWaiting id) rows
    → map
        (λ (r : Row). r.id)
        (select
          (is_due now)
          (update_where (λ r. r.id == id) (λ r. record r { is_active = false }) rows))
      ≡ map (λ (r : Row). r.id) (select (is_due now) rows)
unfolding update_where
due_ids-update now id [] h = refl
due_ids-update now id (r ∷ rows) h = elim (Bool-cases (r.id == id)) [
  | inl hit ↦
      let wait = h.0 (ground arith) in
      rw
        (
          hit,
          waiting-is_due now r wait,
          waiting-is_due now (record r { is_active = false }) wait,
          due_ids-update now id rows h.1,
        )
        refl
  | inr miss ↦ rw miss (ground (arith, due_ids-update now id rows h.1))
]

-- DeActivate does not stop a cron job that has not run yet: while the job is queued or retrying,
-- the same jobs are due after it as before, at every time.
pub deactivate-due_ids :
    (now : Time) (id : ℕ) (s : Store)
    → All (IsWaiting id) s.rows
    → due_ids now (deactivate none id s).0 ≡ due_ids now s
unfolding deactivate execute_change_activate_query update_row
deactivate-due_ids now id s h = due_ids-update now id s.rows h
