-- ===== src/Lock.antt =====
-- The distributed lock over PostgreSQL's advisory locks
-- (internal/lock/postgres_distributed_lock_manager.go). A lock belongs to a session of the database,
-- and a pool of connections may run each statement in another session: the session of a statement is
-- an argument. A lock that another session holds for the five seconds that Acquire waits is refused. No
-- session ends.
pub mod Laws
use Prim.Native.String.{◌++◌ as append}
use go_fire.Base.{
  ℕ, zero, suc, Bool, List, [], ◌∷◌, Option, none, some, Error, Result, ok, err, if◌then◌else◌,
  ◌==◌,
}

-- The session that holds a lock, and how many times more than once.
pub record Holder : Type 0 where
  pub session : ℕ
  pub again : ℕ

-- The locks of the database, by number.
abbrev pub Locks : Type 0
Locks = ℕ → Option Holder

abbrev pub no_locks : Locks
no_locks id = none

abbrev pub set : ℕ → Option Holder → Locks → Locks
set id holder locks k = if k == id then holder else locks k

-- `pg_advisory_lock`, for the holder of the lock; none where it waits.
abbrev pub take : ℕ → Option Holder → Option Holder
take session none = some (record { session = session; again = 0 })
take session (some h) =
    if h.session == session then some (record h { again = suc h.again }) else none

abbrev pub less : Holder → ℕ → Option Holder
less h zero = none
less h (suc n) = some (record h { again = n })

-- `pg_advisory_unlock`: where the session does not hold the lock it answers false with a warning.
abbrev pub give : ℕ → Option Holder → Option Holder
give session none = none
give session (some h) = if h.session == session then less h h.again else some h

abbrev pub taken : ℕ → Option Holder → Locks → Locks × Result (Unit {0})
taken id none locks =
    (locks, err "failed to acquire lock: pq: canceling statement due to user request")
taken id (some h) locks = (set id (some h) locks, ok tt)

unfoldable pub acquire : Option Error → ℕ → ℕ → Locks → Locks × Result (Unit {0})
acquire (some e) session id locks = (locks, err (append "failed to acquire lock: " e))
acquire none session id locks = taken id (take session (locks id)) locks

-- The answer of pg_advisory_unlock is not read.
unfoldable pub release : Option Error → ℕ → ℕ → Locks → Locks × Result (Unit {0})
release (some e) session id locks = (locks, err (append "failed to release lock: " e))
release none session id locks = (set id (give session (locks id)) locks, ok tt)

-- The calls of the manager, each in the session that the pool gives it.
pub data Call : Type 0 where
  acquires : Option Error → ℕ → ℕ → Call
  releases : Option Error → ℕ → ℕ → Call

unfoldable pub call : Call → Locks → Locks
unfolding acquire release
call (acquires fault session id) locks = (acquire fault session id locks).0
call (releases fault session id) locks = (release fault session id locks).0

unfoldable pub call_all : List Call → Locks → Locks
unfolding call
call_all [] locks = locks
call_all (c ∷ cs) locks = call_all cs (call c locks)
