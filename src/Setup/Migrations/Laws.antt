-- ===== src/Setup/Migrations/Laws.antt =====
-- What Init leaves behind, whatever fails.
use go_fire.Base.{
  ℕ, ◌≡◌, ◌≢◌, refl, List, [], ◌∷◌, Option, none, some, String, Error, Result, ok, err, ◌⊎◌, inl,
  inr, Result-cases,
}
use go_fire.Lock.{Locks, acquire, release}
use go_fire.Lock.Laws.{IsHolder, acquire-refused, acquire-cases, release-acquire_paired}
use go_fire.Setup.Migrations.{
  Entry, Faults, Done, create_schema, migration_lock, read_sql_scripts, exec_then, exec_all,
  run_scripts, unless_failed, migrate, init_locked, init_open, init,
}

-- All of these statements ran, or there was an error.
abbrev pub Completes : List String → Done → Type 0
Completes all done = (done ≡ (all, ok tt)) ⊎ ((e : Error) × (done.1 ≡ err e))

exec_then-Completes :
    (o : Option Error) (s : String) (all : List String) (done : Done)
    → Completes all done
    → Completes (s ∷ all) (exec_then o s done)
exec_then-Completes (some e) s all done h = inr (e, refl)
exec_then-Completes none s all done (inl same) = inl (rw same refl)
exec_then-Completes none s all done (inr failed) = inr failed

exec_all-Completes :
    (exec : String → Option Error) (scripts : List String)
    → Completes scripts (exec_all exec scripts)
unfolding exec_all
exec_all-Completes exec [] = inl refl
exec_all-Completes exec (s ∷ scripts) =
    exec_then-Completes (exec s) s scripts (exec_all exec scripts) (exec_all-Completes exec scripts)

-- The schema and every script, in their order, ran; or there was an error.
abbrev pub IsOutcome : Result (List Entry) → Done → Type 0
IsOutcome entries done =
    ((scripts : List String) × (read_sql_scripts entries ≡ ok scripts)
      × (done ≡ (create_schema ∷ scripts, ok tt)))
    ⊎ ((e : Error) × (done.1 ≡ err e))

exec_then-err :
    (o : Option Error) (s : String) (e : Error)
    → (x : Error) × ((exec_then o s ([], err e)).1 ≡ err x)
exec_then-err (some x) s e = (x, refl)
exec_then-err none s e = (e, refl)

run-IsOutcome :
    (exec : String → Option Error) (o : Option Error) (entries : Result (List Entry))
    → IsOutcome entries (exec_then o create_schema (run_scripts exec (read_sql_scripts entries)))
run-IsOutcome exec o entries = elim (Result-cases (read_sql_scripts entries)) [
  | inr (e, fails) ↦ rw fails (inr (exec_then-err o create_schema e))
  | inl (scripts, found) ↦
      rw found
        (elim (exec_then-Completes o create_schema scripts (exec_all exec scripts)
          (exec_all-Completes exec scripts)) [
            | inl all ↦ inl (scripts, refl, all)
            | inr failed ↦ inr failed
          ])
]

unless_failed-IsOutcome :
    (o : Option Error) (entries : Result (List Entry)) (done : Done)
    → IsOutcome entries done
    → IsOutcome entries (unless_failed o done)
unless_failed-IsOutcome (some e) entries done h = inr (e, refl)
unless_failed-IsOutcome none entries done h = h

migrate-IsOutcome :
    (f : Faults) (entries : Result (List Entry)) → IsOutcome entries (migrate f entries)
unfolding migrate
migrate-IsOutcome f entries =
    unless_failed-IsOutcome f.ping entries _ (run-IsOutcome f.exec (f.exec create_schema) entries)

-- Init has left the locks as they were, and ends in one of the two ways.
abbrev pub Settles : Result (List Entry) → Locks → ℕ → Locks × Done → Type 0
Settles entries locks k x = (x.0 k ≡ locks k) × IsOutcome entries x.1

init_locked-ok :
    (f : Faults) (entries : Result (List Entry)) (x : Locks × Result (Unit {0}))
    → x.1 ≡ ok tt
    → init_locked f entries x
      ≡ ((release f.release f.release_session migration_lock x.0).0, migrate f entries)
init_locked-ok f entries (locks, ok u) e = refl
init_locked-ok f entries (locks, err m) e = absurd cc

init_locked-Settles :
    (f : Faults) (entries : Result (List Entry)) (locks : Locks) (k : ℕ)
    → f.release ≡ none
    → f.release_session ≡ f.acquire_session
    → Settles entries locks k
        (init_locked f entries (acquire f.acquire f.acquire_session migration_lock locks))
init_locked-Settles f entries locks k works same =
    elim (acquire-cases f.acquire f.acquire_session migration_lock locks) [
      | inl (e, refused) ↦ rw refused (refl, inr (e, refl))
      | inr (free, got) ↦
          rw
            (init_locked-ok f entries (acquire f.acquire f.acquire_session migration_lock locks)
              got)
            (
              release-acquire_paired f.acquire f.release f.acquire_session f.release_session
                  migration_lock k locks free works same got,
              migrate-IsOutcome f entries,
            )
    ]

init_open-Settles :
    (o : Option Error) (entries : Result (List Entry)) (locks : Locks) (k : ℕ) (x : Locks × Done)
    → Settles entries locks k x
    → Settles entries locks k (init_open o locks x)
init_open-Settles (some e) entries locks k x h = (refl, inr (e, refl))
init_open-Settles none entries locks k x h = h

-- Where the pool runs Acquire and Release in one session and Release succeeds, and whatever else fails:
-- Init leaves every lock as it has found it, and it has run the schema and every script, in their order,
-- or it returns an error.
pub init-Settles :
    (f : Faults) (entries : Result (List Entry)) (locks : Locks) (k : ℕ)
    → f.release ≡ none
    → f.release_session ≡ f.acquire_session
    → Settles entries locks k (init f entries locks)
unfolding init
init-Settles f entries locks k works same =
    init_open-Settles f.connect entries locks k _ (init_locked-Settles f entries locks k works same)

init_open-IsOutcome :
    (o : Option Error) (entries : Result (List Entry)) (locks : Locks) (x : Locks × Done)
    → IsOutcome entries x.1
    → IsOutcome entries (init_open o locks x).1
init_open-IsOutcome (some e) entries locks x h = inr (e, refl)
init_open-IsOutcome none entries locks x h = h

-- Whatever fails and wherever the pool runs the statements of the lock.
pub init-IsOutcome :
    (f : Faults) (entries : Result (List Entry)) (locks : Locks)
    → IsOutcome entries (init f entries locks).1
unfolding init
init-IsOutcome f entries locks =
    let x = acquire f.acquire f.acquire_session migration_lock locks in
    init_open-IsOutcome f.connect entries locks _
      (elim (acquire-cases f.acquire f.acquire_session migration_lock locks) [
        | inl (e, refused) ↦ rw refused (inr (e, refl))
        | inr (free, got) ↦ rw (init_locked-ok f entries x got) (migrate-IsOutcome f entries)
      ])

init_open-err :
    (o : Option Error) (locks : Locks) (e : Error)
    → (x : Error) × (init_open o locks (locks, ([], err e)) ≡ (locks, ([], err x)))
init_open-err (some x) locks e = (x, refl)
init_open-err none locks e = (e, refl)

-- While another session holds the migration lock, for all of the time that Acquire waits, Init runs no
-- statement, leaves the locks alone and returns an error: two instances never migrate at once.
pub init-excluded :
    (f : Faults) (entries : Result (List Entry)) (locks : Locks) (session : ℕ)
    → IsHolder session migration_lock locks
    → f.acquire_session ≢ session
    → (e : Error) × (init f entries locks ≡ (locks, ([], err e)))
unfolding init
init-excluded f entries locks session held ne =
    let (e, refused) =
      acquire-refused f.acquire session f.acquire_session migration_lock locks held ne in
    rw refused (init_open-err f.connect locks e)
