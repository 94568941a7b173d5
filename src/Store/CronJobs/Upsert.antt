-- ===== src/Store/CronJobs/Upsert.antt =====
-- AddOrUpdate as an update of a map from names to schedules, and what it leaves of a job.
use mathlib.Core.Option.{map as option_map}
use go_fire.Base.{
  ok, Bool, map, ◌≡◌, ◌≢◌, refl, List, [], ◌∷◌, ◌++◌, Option, none, some, ok, String, ℕ, arith,
  find?, Bool-cases, Option-cases, inl, inr, eq_iff, str_eq, if◌then◌else◌,
}
use go_fire.Store.Sql.{Time, update_where}
use go_fire.Status.{JobStatus}
use go_fire.Store.Sql.Laws.{map-update_where}
use go_fire.Store.CronJobs.{Row, Store, Schedule, new_row, named, reschedule, upsert, add_or_update}

-- What the table says of a name: when the job runs next, its arguments and its expression.
abbrev pub view : Row → Option Time × String × String
view r = (r.next_run_at, r.payload, r.expression)

abbrev pub schedule_of : String → Store → Option (Option Time × String × String)
schedule_of name s = option_map view (find? (named name) s.rows)

module _ (now : Time) (name : String) (sched : Schedule) where
  find-append :
      (id : ℕ) (m : String) (rows : List Row)
      → find? (named name) rows ≡ none
      → option_map view (find? (named m) (rows ++ new_row now id name sched ∷ [])) ≡ (
          if str_eq m name
          then some (some sched.next_run_at, sched.payload, sched.expression)
          else option_map view (find? (named m) rows))
  find-append id m [] h = ground (arith, eq_iff name m, eq_iff m name)
  find-append id m (r ∷ rows) h =
      ground (arith, eq_iff r.name m, eq_iff m name, eq_iff r.name name, find-append id m rows)

  find-other :
      (m : String) (rows : List Row)
      → m ≢ name
      → option_map view (find? (named m) (update_where (named name) (reschedule now sched) rows))
        ≡ option_map view (find? (named m) rows)
  unfolding update_where
  find-other m [] ne = refl
  find-other m (r ∷ rows) ne = elim (Bool-cases (named name r)) [
    | inl hit ↦
        rw hit
          (ground (arith, eq_iff r.name m, eq_iff m name, eq_iff r.name name, find-other m rows ne))
    | inr miss ↦ rw miss (ground (arith, eq_iff r.name m, find-other m rows ne))
  ]

  find-same :
      (rows : List Row) (found : Row)
      → find? (named name) rows ≡ some found
      → option_map view (find? (named name) (update_where (named name) (reschedule now sched) rows))
        ≡ some (some sched.next_run_at, sched.payload, sched.expression)
  unfolding update_where
  find-same [] found h = cc
  find-same (r ∷ rows) found h = elim (Bool-cases (named name r)) [
    | inl hit ↦ rw (hit, hit) refl
    | inr miss ↦ let h' = rw miss at h in rw (miss, miss) (find-same rows found h')
  ]

  -- The map from names to schedules, and the id that the statement returns.
  upsert-schedule_of :
      (m : String) (s : Store)
      → schedule_of m (upsert (find? (named name) s.rows) now name sched s).0 ≡ (
          if str_eq m name
          then some (some sched.next_run_at, sched.payload, sched.expression)
          else schedule_of m s)
  unfolding upsert
  upsert-schedule_of m s = elim (Option-cases (find? (named name) s.rows)) [
    | inl missing ↦ rw missing (find-append s.next_id m s.rows missing)
    | inr (r, found) ↦ rw found (elim (Bool-cases (str_eq m name)) [
      | inl same ↦
          let e : m ≡ name = ground (arith, eq_iff m name) in
          rw (same, e) (find-same s.rows r found)
      | inr diff ↦ rw diff (find-other m s.rows (λ e. ground (arith, (eq_iff m name).1 e)))
    ])
  ]

-- AddOrUpdate is an update of a map: where the arguments marshal and the database does not fail, it
-- returns an id, the name has the new schedule, and every other name has the one it had.
pub add_or_update-schedule_of :
    (now : Time) (name : String) (at : Time) (expr args : String) (s : Store)
    → ((id : ℕ) × ((add_or_update none now name at expr (some args) s).1 ≡ ok id))
      × ((m : String)
          → schedule_of m (add_or_update none now name at expr (some args) s).0
            ≡ (if str_eq m name then some (some at, args, expr) else schedule_of m s))
unfolding add_or_update
add_or_update-schedule_of now name at expr args s = (
  (_, refl),
  λ m.
      upsert-schedule_of now name (record { next_run_at = at; payload = args; expression = expr }) m
        s,
)

-- The columns of a row that belong to its runs.
abbrev pub run_state : Row → ℕ × JobStatus × Bool × Option String × Option Time × Option Time
run_state r = (r.id, r.status, r.is_active, r.locked_by, r.locked_at, r.last_run_at)

-- Where the name is in the table, AddOrUpdate returns the id of its row, adds no row, and leaves
-- the status, the activity, the lock and the last run of every row as they are.
pub add_or_update-run_state :
    (now : Time) (name : String) (at : Time) (expr args : String) (s : Store) (r : Row)
    → find? (named name) s.rows ≡ some r
    → ((add_or_update none now name at expr (some args) s).1 ≡ ok r.id)
      × (map run_state (add_or_update none now name at expr (some args) s).0.rows
          ≡ map run_state s.rows)
unfolding add_or_update upsert
add_or_update-run_state now name at expr args s r found =
    rw found (refl, map-update_where run_state (named name) _ (λ x. refl) s.rows)
