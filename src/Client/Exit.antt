-- ===== src/Client/Exit.antt =====
-- GracefulExit (client/job_manager.go), behind the signal and the end of the workers. Both stores and the
-- lock manager share one database, which is closed whether Close returns an error or not; a second Close
-- does nothing, and a statement on a closed database is refused. The errors are logged or dropped.
use go_fire.Base.{ℕ, ◌≡◌, refl, Bool, true, List, [], ◌∷◌, none, some, if◌then◌else◌}
use go_fire.Lock.{Locks, release}

-- The locks of the database, and whether this process has closed its pool.
pub record World : Type 0 where
  pub locks : Locks
  pub closed : Bool

-- constants.Locks.
abbrev pub all_locks : List ℕ
all_locks = 0 ∷ 1 ∷ 2 ∷ 3 ∷ 4 ∷ 5 ∷ 6 ∷ []

abbrev pub close : World → World
close w = record w { closed = true }

abbrev pub release_one : ℕ → ℕ → World → World
unfolding release
release_one session id w =
    if w.closed
    then record w { locks = (release (some "sql: database is closed") session id w.locks).0 }
    else record w { locks = (release none session id w.locks).0 }

abbrev pub release_all : ℕ → List ℕ → World → World
release_all session [] w = w
release_all session (id ∷ ids) w = release_all session ids (release_one session id w)

-- The session is the one in which the pool would run Release.
unfoldable pub graceful_exit : ℕ → World → World
unfolding release_one
graceful_exit session w = release_all session all_locks (close (close w))

-- The loop over the locks releases none of them.
pub graceful_exit-locks : (session : ℕ) (w : World) → (graceful_exit session w).locks ≡ w.locks
unfolding graceful_exit release_one release
graceful_exit-locks session w = refl
