-- ===== src/Store/CronJobs/Ops.antt =====
-- Every statement of the store of cron jobs that writes, as one type of operations, and what all of
-- them keep: the ids of the table, and that no two rows have one name.
use go_fire.Base.{
  ℕ, suc, ◌≡◌, ◌≢◌, refl, List, [], ◌∷◌, ◌++◌, map, Option, none, some, String, Error, arith, find?,
  All, Bool, Bool-cases, Option-cases, inl, inr, map-append, eq_iff,
}
use go_fire.Store.Sql.{Time, update_where}
use go_fire.Store.Sql.Laws.{map-update_where}
use go_fire.Store.Enqueued.Ops.{Rising, Rising-append}
use go_fire.Store.CronJobs.{
  Row, Store, Schedule, named, reschedule, upsert, add_or_update, update_row, update_job_run_times,
  mark_success, mark_failure, lock_job, unlock_job, activate, deactivate,
  execute_change_activate_query,
}

-- A call of the store, with the database's failure and clock where it has them.
pub data Op : Type 0 where
  upsert_op : Option Error → Time → String → Time → String → Option String → Op
  run_times_op : Option Error → ℕ → Time → Time → Op
  success_op : Option Error → ℕ → Op
  failure_op : Option Error → ℕ → String → Op
  lock_op : Option Error → Time → ℕ → String → Op
  unlock_op : Option Error → ℕ → Op
  activate_op : Option Error → ℕ → Op
  deactivate_op : Option Error → ℕ → Op

unfoldable pub run : Op → Store → Store
run (upsert_op fault now name at expr args) s = (add_or_update fault now name at expr args s).0
run (run_times_op fault id last next) s = (update_job_run_times fault id last next s).0
run (success_op fault id) s = (mark_success fault id s).0
run (failure_op fault id msg) s = (mark_failure fault id msg s).0
run (lock_op fault now id by) s = (lock_job fault now id by s).0
run (unlock_op fault id) s = (unlock_job fault id s).0
run (activate_op fault id) s = (activate fault id s).0
run (deactivate_op fault id) s = (deactivate fault id s).0

abbrev pub run_all : List Op → Store → Store
run_all [] s = s
run_all (op ∷ ops) s = run_all ops (run op s)

-- The empty table, before the first insertion.
abbrev pub empty : Store
empty = record { rows = []; next_id = 1 }

abbrev pub AreDistinct : List String → Type 0
AreDistinct [] = Unit
AreDistinct (x ∷ xs) = All (λ y. x ≢ y) xs × AreDistinct xs

abbrev pub ids : Store → List ℕ
ids s = map (λ (r : Row). r.id) s.rows

abbrev pub names : Store → List String
names s = map (λ (r : Row). r.name) s.rows

-- The ids are distinct, in the order of insertion, and below the next id, and the names are
-- distinct.
abbrev pub IsWellFormed : Store → Type 0
IsWellFormed s = Rising 1 (ids s) s.next_id × AreDistinct (names s)

Rising-suc : (lo : ℕ) (is : List ℕ) (hi : ℕ) → Rising lo is hi → Rising lo is (suc hi)
Rising-suc lo [] hi h = omega arith
Rising-suc lo (i ∷ is) hi h = (h.0, Rising-suc (suc i) is hi h.1)

All-append-one :
    (x name : String) (xs : List String)
    → All (λ y. x ≢ y) xs
    → x ≢ name
    → All (λ y. x ≢ y) (xs ++ name ∷ [])
All-append-one x name [] h ne = (ne, tt)
All-append-one x name (y ∷ ys) h ne = (h.0, All-append-one x name ys h.1 ne)

append-AreDistinct :
    (xs : List String) (name : String)
    → AreDistinct xs
    → All (λ y. y ≢ name) xs
    → AreDistinct (xs ++ name ∷ [])
append-AreDistinct [] name h k = (tt, tt)
append-AreDistinct (x ∷ xs) name h k =
    (All-append-one x name xs h.0 k.0, append-AreDistinct xs name h.1 k.1)

pub find-none :
    (name : String) (rows : List Row)
    → find? (named name) rows ≡ none
    → All (λ y. y ≢ name) (map (λ (r : Row). r.name) rows)
find-none name [] h = tt
find-none name (r ∷ rows) h = elim (Bool-cases (named name r)) [
  | inl same ↦ absurd (ground arith)
  | inr diff ↦
      ((λ e. absurd (ground (arith, (eq_iff r.name name).1 e))), find-none name rows (rw diff at h))
]

update-IsWellFormed :
    (p : Row → Bool) (f : Row → Row) (s : Store)
    → ((r : Row) → (f r).id ≡ r.id)
    → ((r : Row) → (f r).name ≡ r.name)
    → IsWellFormed s
    → IsWellFormed (record s { rows = update_where p f s.rows })
update-IsWellFormed p f s keeps_id keeps_name h = (
  rw (map-update_where (λ (r : Row). r.id) p f keeps_id s.rows) h.0,
  rw (map-update_where (λ (r : Row). r.name) p f keeps_name s.rows) h.1,
)

upsert-IsWellFormed :
    (now : Time) (name : String) (sched : Schedule) (s : Store)
    → IsWellFormed s
    → IsWellFormed (upsert (find? (named name) s.rows) now name sched s).0
unfolding upsert
upsert-IsWellFormed now name sched s h = elim (Option-cases (find? (named name) s.rows)) [
  | inl missing ↦
      rw (missing, map-append)
        (
          Rising-append 1 (ids s) s.next_id h.0,
          rw map-append (append-AreDistinct (names s) name h.1 (find-none name s.rows missing)),
        )
  | inr (r, found) ↦
      let k = update-IsWellFormed (named name) (reschedule now sched) s (λ r. refl) (λ r. refl) h in
      rw found (Rising-suc 1 _ s.next_id k.0, k.1)
]

-- Every call of the store of cron jobs, failed or not, keeps the ids of the table distinct, in the
-- order of insertion and below the next id that the sequence will give, and the names distinct.
pub run_cron-IsWellFormed : (op : Op) (s : Store) → IsWellFormed s → IsWellFormed (run op s)
unfolding run add_or_update update_row update_job_run_times mark_success mark_failure lock_job
    unlock_job activate deactivate execute_change_activate_query
run_cron-IsWellFormed (upsert_op fault now name at expr none) s h = h
run_cron-IsWellFormed (upsert_op (some e) now name at expr (some args)) s h = h
run_cron-IsWellFormed (upsert_op none now name at expr (some args)) s h =
    upsert-IsWellFormed now name _ s h
run_cron-IsWellFormed (run_times_op (some e) id last next) s h = h
run_cron-IsWellFormed (run_times_op none id last next) s h =
    update-IsWellFormed _ _ s (λ r. refl) (λ r. refl) h
run_cron-IsWellFormed (success_op (some e) id) s h = h
run_cron-IsWellFormed (success_op none id) s h = update-IsWellFormed _ _ s (λ r. refl) (λ r. refl) h
run_cron-IsWellFormed (failure_op (some e) id msg) s h = h
run_cron-IsWellFormed (failure_op none id msg) s h =
    update-IsWellFormed _ _ s (λ r. refl) (λ r. refl) h
run_cron-IsWellFormed (lock_op (some e) now id by) s h = h
run_cron-IsWellFormed (lock_op none now id by) s h =
    update-IsWellFormed _ _ s (λ r. refl) (λ r. refl) h
run_cron-IsWellFormed (unlock_op (some e) id) s h = h
run_cron-IsWellFormed (unlock_op none id) s h = update-IsWellFormed _ _ s (λ r. refl) (λ r. refl) h
run_cron-IsWellFormed (activate_op (some e) id) s h = h
run_cron-IsWellFormed (activate_op none id) s h =
    update-IsWellFormed _ _ s (λ r. refl) (λ r. refl) h
run_cron-IsWellFormed (deactivate_op (some e) id) s h = h
run_cron-IsWellFormed (deactivate_op none id) s h =
    update-IsWellFormed _ _ s (λ r. refl) (λ r. refl) h

-- Whatever calls are made, in any order and with any failures, a well-formed table stays one.
pub run_all-IsWellFormed :
    (ops : List Op) (s : Store) → IsWellFormed s → IsWellFormed (run_all ops s)
run_all-IsWellFormed [] s h = h
run_all-IsWellFormed (op ∷ ops) s h =
    run_all-IsWellFormed ops (run op s) (run_cron-IsWellFormed op s h)
