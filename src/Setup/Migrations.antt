-- ===== src/Setup/Migrations.antt =====
-- Init (internal/db/init.go): the schema and the migrations, under the migration lock. The database is
-- known by which calls fail; a statement that succeeds is one entry of the list of executed statements.
-- Opening a database makes no call, and the errors of Release and of Close are logged.
pub mod Laws
use go_fire.Base.{
  ℕ, ◌≡◌, ◌≢◌, refl, ap, sym, ◌∙◌, Bool, List, [], ◌∷◌, ◌++◌, Option, none, some, String, Error,
  Result, ok, err, if◌then◌else◌, ◌⊎◌, inl, inr, Option-cases, Result-cases,
}
use go_fire.Lock.{Locks, acquire, release}
use go_fire.Lock.Laws.{IsHolder, acquire-refused, release-acquire}

-- constants.MigrationLock.
abbrev pub migration_lock : ℕ
migration_lock = 0

abbrev pub create_schema : String
create_schema = "CREATE SCHEMA IF NOT EXISTS gofire_schema"

-- A file or a directory that is embedded under migrations/, with what ReadFile returns.
pub record Entry : Type 0 where
  pub is_dir : Bool
  pub content : Result String

-- What fails, and the sessions in which the pool of the lock manager runs Acquire and Release.
pub record Faults : Type 0 where
  pub connect : Option Error
  pub acquire : Option Error
  pub ping : Option Error
  pub exec : String → Option Error
  pub release : Option Error
  pub acquire_session : ℕ
  pub release_session : ℕ

-- A script behind those of the other entries, for what ReadFile returns of it.
abbrev pub add_script : Result String → Result (List String) → Result (List String)
add_script (err e) scripts = err e
add_script (ok s) (err e) = err e
add_script (ok s) (ok scripts) = ok (s ∷ scripts)

abbrev pub scripts_of : List Entry → Result (List String)
scripts_of [] = ok []
scripts_of (x ∷ entries) =
    let rest = scripts_of entries in if x.is_dir then rest else add_script x.content rest

-- For what ReadDir returns.
unfoldable pub read_sql_scripts : Result (List Entry) → Result (List String)
read_sql_scripts (err e) = err e
read_sql_scripts (ok entries) = scripts_of entries

-- The executed statements, and the first error.
abbrev pub Done : Type 0
Done = List String × Result (Unit {0})

-- A statement, for its failure, and what is done behind it.
abbrev pub exec_then : Option Error → String → Done → Done
exec_then (some e) s done = ([], err e)
exec_then none s (done, error) = (s ∷ done, error)

unfoldable pub exec_all : (String → Option Error) → List String → Done
exec_all exec [] = ([], ok tt)
exec_all exec (s ∷ scripts) = exec_then (exec s) s (exec_all exec scripts)

abbrev pub run_scripts : (String → Option Error) → Result (List String) → Done
run_scripts exec (err e) = ([], err e)
run_scripts exec (ok scripts) = exec_all exec scripts

abbrev pub unless_failed : Option Error → Done → Done
unless_failed (some e) done = ([], err e)
unless_failed none done = done

-- The part of Init that runs while it holds the lock.
unfoldable pub migrate : Faults → Result (List Entry) → Done
unfolding read_sql_scripts exec_all
migrate f entries =
    unless_failed f.ping (
      exec_then (f.exec create_schema) create_schema
        (run_scripts f.exec (read_sql_scripts entries)))

-- For what Acquire returns.
abbrev pub init_locked : Faults → Result (List Entry) → Locks × Result (Unit {0}) → Locks × Done
init_locked f entries (locks, err e) = (locks, ([], err e))
init_locked f entries (locks, ok u) =
    ((release f.release f.release_session migration_lock locks).0, migrate f entries)

abbrev pub init_open : Option Error → Locks → Locks × Done → Locks × Done
init_open (some e) locks done = (locks, ([], err e))
init_open none locks done = done

unfoldable pub init : Faults → Result (List Entry) → Locks → Locks × Done
unfolding acquire release migrate
init f entries locks =
    init_open f.connect locks
      (init_locked f entries (acquire f.acquire f.acquire_session migration_lock locks))
