-- ===== src/Store/Enqueued/Ops.antt =====
-- Every statement of the store that writes, as one type of operations, and what all of them keep:
-- the ids of the table, and the columns that are fixed at insertion.
use go_fire.Base.{
  ℕ, suc, ◌≤◌, ◌≡◌, refl, Bool, not, List, [], ◌∷◌, ◌++◌, map, Option, none, some, String, Error,
  Result, ok, err, arith, ◌==◌, select, Bool-cases, inl, inr, map-append,
}
use go_fire.Store.Sql.{Time, update_where}
use go_fire.Store.Sql.Laws.{map-update_where}
use go_fire.Store.Enqueued.{
  Row, Store, Job, insert, remove_by_id, mark_retry_failed_jobs, lock_job, mark_success,
  mark_failure, unlock_stale_jobs, new_row, append_row,
}
use go_fire.Store.Enqueued.Bulk.{marshal_batch, append_rows, insert_values, bulk_insert}

-- A call of the store, with the database's failure and clock where it has them.
pub data Op : Type 0 where
  insert_op : Option Error → Time → String → Time → Option String → Op
  bulk_op : Option Error → Time → List Job → Op
  remove_op : Option Error → ℕ → Op
  retry_op : Option Error → Time → Op
  lock_op : Option Error → Time → ℕ → String → Op
  success_op : Option Error → Time → ℕ → Op
  failure_op : Option Error → ℕ → String → ℕ → ℕ → Op
  unlock_op : Option Error → Time → Time → Op

unfoldable pub run : Op → Store → Store
run (insert_op fault now name at payload) s = (insert fault now name at payload s).0
run (bulk_op fault now batch) s = (bulk_insert fault now batch s).0
run (remove_op fault id) s = (remove_by_id fault id s).0
run (retry_op fault now) s = (mark_retry_failed_jobs fault now s).0
run (lock_op fault now id by) s = (lock_job fault now id by s).0
run (success_op fault now id) s = (mark_success fault now id s).0
run (failure_op fault id msg attempts max) s = (mark_failure fault id msg attempts max s).0
run (unlock_op fault now timeout) s = (unlock_stale_jobs fault now timeout s).0

abbrev pub run_all : List Op → Store → Store
run_all [] s = s
run_all (op ∷ ops) s = run_all ops (run op s)

-- The ids rise from `lo` on and stay below `hi`.
abbrev pub Rising : ℕ → List ℕ → ℕ → Type 0
Rising lo [] hi = lo ≤ hi
Rising lo (i ∷ is) hi = (lo ≤ i) × Rising (suc i) is hi

-- The ids of the rows are distinct, in the order of insertion, and below the next id of the
-- sequence, which starts at 1.
abbrev pub IsWellFormed : Store → Type 0
IsWellFormed s = Rising 1 (map (λ (r : Row). r.id) s.rows) s.next_id

pub Rising-le : (lo : ℕ) (is : List ℕ) (hi : ℕ) → Rising lo is hi → lo ≤ hi
Rising-le lo [] hi h = h
Rising-le lo (i ∷ is) hi h = omega (arith, Rising-le (suc i) is hi h.1)

Rising-weaken : (lo lo' : ℕ) (is : List ℕ) (hi : ℕ) → lo' ≤ lo → Rising lo is hi → Rising lo' is hi
Rising-weaken lo lo' [] hi le h = omega arith
Rising-weaken lo lo' (i ∷ is) hi le h = (omega arith, h.1)

pub Rising-append :
    (lo : ℕ) (is : List ℕ) (hi : ℕ) → Rising lo is hi → Rising lo (is ++ hi ∷ []) (suc hi)
Rising-append lo [] hi h = (h, omega arith)
Rising-append lo (i ∷ is) hi h = (h.0, Rising-append (suc i) is hi h.1)

Rising-select :
    (p : Row → Bool) (lo : ℕ) (rows : List Row) (hi : ℕ)
    → Rising lo (map (λ (r : Row). r.id) rows) hi
    → Rising lo (map (λ (r : Row). r.id) (select p rows)) hi
Rising-select p lo [] hi h = h
Rising-select p lo (r ∷ rows) hi h = elim (Bool-cases (p r)) [
  | inl keep ↦ rw keep (h.0, Rising-select p (suc r.id) rows hi h.1)
  | inr drop' ↦
      rw drop'
        (Rising-weaken (suc r.id) lo _ hi (omega arith) (Rising-select p (suc r.id) rows hi h.1))
]

append_row-IsWellFormed :
    (now : Time) (name payload : String) (at : Time) (s : Store)
    → IsWellFormed s
    → IsWellFormed (append_row (new_row now s.next_id name payload at) s)
append_row-IsWellFormed now name payload at s h =
    rw map-append (Rising-append 1 (map (λ (r : Row). r.id) s.rows) s.next_id h)

append_rows-IsWellFormed :
    (now : Time) (values : List (String × String × Time)) (s : Store)
    → IsWellFormed s
    → IsWellFormed (append_rows now values s)
unfolding append_rows
append_rows-IsWellFormed now [] s h = h
append_rows-IsWellFormed now ((name, payload, at) ∷ values) s h =
    append_rows-IsWellFormed now values (append_row (new_row now s.next_id name payload at) s)
      (append_row-IsWellFormed now name payload at s h)

insert_values-IsWellFormed :
    (fault : Option Error) (now : Time) (values : Result (List (String × String × Time)))
    (s : Store)
    → IsWellFormed s
    → IsWellFormed (insert_values fault now values s).0
unfolding insert_values
insert_values-IsWellFormed (some _) now (ok values) s h = h
insert_values-IsWellFormed none now (ok values) s h = append_rows-IsWellFormed now values s h
insert_values-IsWellFormed (some _) now (err _) s h = h
insert_values-IsWellFormed none now (err _) s h = h

update-IsWellFormed :
    (p : Row → Bool) (f : Row → Row) (s : Store)
    → ((r : Row) → (f r).id ≡ r.id)
    → IsWellFormed s
    → IsWellFormed (record s { rows = update_where p f s.rows })
update-IsWellFormed p f s keep h = rw (map-update_where (λ (r : Row). r.id) p f keep s.rows) h

-- Every call of the store, failed or not, keeps the ids of the table distinct and in the order of
-- insertion, and below the next id that the sequence will give.
pub run-IsWellFormed : (op : Op) (s : Store) → IsWellFormed s → IsWellFormed (run op s)
unfolding run insert bulk_insert remove_by_id mark_retry_failed_jobs lock_job mark_success
    mark_failure unlock_stale_jobs
run-IsWellFormed (insert_op fault now name at none) s h = h
run-IsWellFormed (insert_op (some e) now name at (some payload)) s h = h
run-IsWellFormed (insert_op none now name at (some payload)) s h =
    append_row-IsWellFormed now name payload at s h
run-IsWellFormed (bulk_op fault now []) s h = h
run-IsWellFormed (bulk_op fault now (job ∷ batch)) s h =
    insert_values-IsWellFormed fault now (marshal_batch (job ∷ batch)) s h
run-IsWellFormed (remove_op (some e) id) s h = h
run-IsWellFormed (remove_op none id) s h =
    Rising-select (λ r. not (r.id == id)) 1 s.rows s.next_id h
run-IsWellFormed (retry_op (some e) now) s h = h
run-IsWellFormed (retry_op none now) s h = update-IsWellFormed _ _ s (λ r. refl) h
run-IsWellFormed (lock_op (some e) now id by) s h = h
run-IsWellFormed (lock_op none now id by) s h = update-IsWellFormed _ _ s (λ r. refl) h
run-IsWellFormed (success_op (some e) now id) s h = h
run-IsWellFormed (success_op none now id) s h = update-IsWellFormed _ _ s (λ r. refl) h
run-IsWellFormed (failure_op (some e) id msg attempts max) s h = h
run-IsWellFormed (failure_op none id msg attempts max) s h = update-IsWellFormed _ _ s (λ r. refl) h
run-IsWellFormed (unlock_op (some e) now timeout) s h = h
run-IsWellFormed (unlock_op none now timeout) s h = update-IsWellFormed _ _ s (λ r. refl) h

-- The empty table, before the first insertion.
abbrev pub empty : Store
empty = record { rows = []; next_id = 1 }

pub run_all-IsWellFormed :
    (ops : List Op) (s : Store) → IsWellFormed s → IsWellFormed (run_all ops s)
run_all-IsWellFormed [] s h = h
run_all-IsWellFormed (op ∷ ops) s h = run_all-IsWellFormed ops (run op s) (run-IsWellFormed op s h)

-- Whatever calls are made on an empty table, in any order and with any failures, its ids are
-- distinct, in the order of insertion, and below the next id.
pub reachable-IsWellFormed : (ops : List Op) → IsWellFormed (run_all ops empty)
reachable-IsWellFormed ops = run_all-IsWellFormed ops empty (omega arith)
