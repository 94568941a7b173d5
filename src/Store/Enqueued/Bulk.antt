-- ===== src/Store/Enqueued/Bulk.antt =====
-- BulkInsert (internal/store/postgres/postgres_enqueued_job_store.go): the arguments of every job
-- are marshalled first, then one INSERT statement writes all rows.
use go_fire.Base.{
  ◌≡◌, refl, ◌∙◌, ap, List, [], ◌∷◌, Option, none, some, String, Error, Result, ok, err, ◌>>=◌,
  arith, All,
}
use go_fire.Store.Sql.{Time}
use go_fire.Store.Enqueued.{Store, Job, new_row, append_row, insert}

-- The loop over the batch: one entry for each job, or the error of the first job that Marshal
-- refuses.
unfoldable pub marshal_batch : List Job → Result (List (String × String × Time))
marshal_batch [] = ok []
marshal_batch (job ∷ batch) = elim job.args [
  | none ↦ err "failed to marshal job args"
  | some payload ↦ marshal_batch batch >>= λ rest. ok ((job.name, payload, job.scheduled_at) ∷ rest)
]

-- The rows of `INSERT … VALUES (…), (…)`, in the order of the list.
unfoldable pub append_rows : Time → List (String × String × Time) → Store → Store
append_rows now [] s = s
append_rows now ((name, payload, at) ∷ rest) s =
    append_rows now rest (append_row (new_row now s.next_id name payload at) s)

unfoldable pub insert_values :
    Option Error → Time → Result (List (String × String × Time)) → Store → Store × Result (Unit {0})
unfolding append_rows
insert_values fault now (err e) s = (s, err e)
insert_values (some e) now (ok values) s = (s, err e)
insert_values none now (ok values) s = (append_rows now values s, ok tt)

unfoldable pub bulk_insert : Option Error → Time → List Job → Store → Store × Result (Unit {0})
unfolding marshal_batch insert_values
bulk_insert fault now [] s = (s, ok tt)
bulk_insert fault now (job ∷ batch) s = insert_values fault now (marshal_batch (job ∷ batch)) s

-- The same jobs, one INSERT for each.
abbrev pub insert_each : Time → List Job → Store → Store
insert_each now [] s = s
insert_each now (job ∷ batch) s =
    insert_each now batch (insert none now job.name job.scheduled_at job.args s).0

-- Every job of the batch has arguments that Marshal accepts.
abbrev pub IsMarshalled : List Job → Type 0
IsMarshalled = All (λ (job : Job). (payload : String) × (job.args ≡ some payload))

append_rows-insert_each :
    (now : Time) (batch : List Job) (s : Store)
    → IsMarshalled batch
    → (values : List (String × String × Time)) × (marshal_batch batch ≡ ok values)
      × (append_rows now values s ≡ insert_each now batch s)
unfolding marshal_batch append_rows insert
append_rows-insert_each now [] s h = ([], refl, refl)
append_rows-insert_each now (job ∷ batch) s ((payload, e), h) =
    let (values, m, a) =
      append_rows-insert_each now batch
        (append_row (new_row now s.next_id job.name payload job.scheduled_at) s) h in
    ((job.name, payload, job.scheduled_at) ∷ values, rw (e, m) refl, rw e a)

-- Where Marshal accepts every job and the database does not fail, BulkInsert leaves the table as
-- one INSERT for each job does, in the order of the batch, and reports no error.
pub bulk_insert-insert_each :
    (now : Time) (batch : List Job) (s : Store)
    → IsMarshalled batch
    → bulk_insert none now batch s ≡ (insert_each now batch s, ok tt)
unfolding bulk_insert
bulk_insert-insert_each now [] s h = refl
bulk_insert-insert_each now (job ∷ batch) s h =
    let (values, m, a) = append_rows-insert_each now (job ∷ batch) s h in
    ap (λ v. insert_values none now v s) m ∙ ap (λ t. (t, ok tt)) a

-- An error of BulkInsert leaves the table unchanged, whether Marshal or the database failed.
pub bulk_insert-err :
    (fault : Option Error) (now : Time) (batch : List Job) (s : Store) {e : Error}
    → (bulk_insert fault now batch s).1 ≡ err e
    → (bulk_insert fault now batch s).0 ≡ s
unfolding bulk_insert
bulk_insert-err fault now [] s h = refl
bulk_insert-err fault now (job ∷ batch) s h = go fault (marshal_batch (job ∷ batch)) h
  where
    go :
        (fault : Option Error) (values : Result (List (String × String × Time))) {e : Error}
        → (insert_values fault now values s).1 ≡ err e
        → (insert_values fault now values s).0 ≡ s
    go (some _) (ok values) h = refl
    go none (ok values) h = ground arith
    go (some _) (err _) h = refl
    go none (err _) h = refl
