-- ===== src/Client/Enqueued/Lifecycle/Fate.antt =====
-- The rounds that try a job take its row along the machine of its phases.
use go_fire.Base.{
  ℕ, suc, ◌≡◌, refl, ap, ◌∙◌, inl, inr, true, false, List, [], ◌∷◌, ◌++◌, map, none, some, String,
  Result, arith, All, Bool-cases, Option-cases, ==_iff, find?,
}
use go_fire.Store.Sql.{Time}
use go_fire.Store.Enqueued.{
  Row, Store, EnqueuedJob, columns, insert, new_row, append_row, lockable, take_lock, lock_job,
  mark_retry_failed_jobs,
}
use go_fire.Store.Enqueued.Ops.{
  Rising, Rising-le, insert_op, retry_op, run, IsWellFormed, run-IsWellFormed,
}
use go_fire.Client.Enqueued.{got}
use go_fire.Client.Enqueued.Found.{has_id, found-has_id}
use go_fire.Client.Enqueued.Rounds.{lock_job-IsWellFormed, handle_job-IsResult}
use go_fire.Client.Enqueued.{handle_job}
use go_fire.Client.Enqueued.Lifecycle.{
  Phase, waits, Run, advance, fate, IsRowIn, run_of, Cycle, settle, try_job, cycle, cycles,
  unlockable-phase, lockable-phase,
}
use go_fire.Client.Enqueued.Lifecycle.Rows.{
  At, IsStep, lock-refused, lock-taken, settle-At, settle-IsWellFormed, finish, settled,
  settled-IsStep,
}

module _ {Args : Type 0} (unmarshal : String → Result Args) (name payload : String) where
  -- What the handlers of the instance do with the arguments of the job.
  abbrev pub Does : Cycle Args → Run → Type 0
  Does c run =
      (job : EnqueuedJob)
      → job.name ≡ name
      → job.payload ≡ payload
      → run_of (handle_job unmarshal c.handlers job) ≡ run

module _ {Args : Type 0} (unmarshal : String → Result Args) (id : ℕ) (name payload : String) where
  -- The job has been locked: its result is stored, if there is one.
  tried :
      (c : Cycle Args) (r : Row) (s : Store)
      → r.id ≡ id
      → r.max_attempts ≡ 3
      → r.name ≡ name
      → r.payload ≡ payload
      → At id (take_lock c.now c.by r) s
      → (r' : Row) × At id r' (settle c.now (handle_job unmarshal c.handlers (columns r)) s)
        × IsStep name payload
            (advance (waits r.attempts) (run_of (handle_job unmarshal c.handlers (columns r))))
            r'
  unfolding settle
  tried c r s ri three named loaded h =
      elim (Option-cases (handle_job unmarshal c.handlers (columns r))) [
        | inl panicked ↦ rw panicked (
          take_lock c.now c.by r,
          h,
          record { in_phase = refl; thrice = three; named = named; loaded = loaded },
        )
        | inr (res, sent) ↦ rw sent (
          settled c.now res (take_lock c.now c.by r),
          settle-At id c.now res (columns r) (take_lock c.now c.by r) s
              (handle_job-IsResult unmarshal c.handlers (columns r) res sent) ri refl ri h,
          settled-IsStep c.now res name payload (take_lock c.now c.by r) three named loaded,
        )
      ]

  -- What a round does to the row it finds.
  cycle-found :
      (c : Cycle Args) (r : Row) (s : Store)
      → At id r s
      → cycle unmarshal id c s ≡ (mark_retry_failed_jobs none c.now (try_job unmarshal id c r s)).0
  unfolding cycle mark_retry_failed_jobs
  cycle-found c r s h = rw (cycle, h) refl

  cycle-taken :
      (c : Cycle Args) (r : Row) (s : Store)
      → At id r s
      → got (lock_job none c.now id c.by s).1 ≡ true
      → cycle unmarshal id c s
        ≡ (mark_retry_failed_jobs none c.now (
            settle c.now
              (handle_job unmarshal c.handlers (columns r))
              (lock_job none c.now id c.by s).0)).0
  unfolding try_job settle
  cycle-taken c r s h took =
      cycle-found c r s h
      ∙ ap (λ (x : Store). (mark_retry_failed_jobs none c.now x).0) (rw took refl)

  cycle-refused :
      (c : Cycle Args) (r : Row) (s : Store)
      → At id r s
      → got (lock_job none c.now id c.by s).1 ≡ false
      → cycle unmarshal id c s
        ≡ (mark_retry_failed_jobs none c.now (lock_job none c.now id c.by s).0).0
  unfolding try_job lock_job
  cycle-refused c r s h refused =
      cycle-found c r s h
      ∙ ap (λ (x : Store). (mark_retry_failed_jobs none c.now x).0) (rw refused refl)

  cycle-IsRowIn :
      (c : Cycle Args) (ran : Run) (phase : Phase) (s : Store)
      → Does unmarshal name payload c ran
      → IsWellFormed s
      → IsRowIn id name payload phase s
      → IsRowIn id name payload (advance phase ran) (cycle unmarshal id c s)
  cycle-IsRowIn c ran phase s does wf h =
      let r = h.row in
      let ri = (==_iff r.id id).0 (found-has_id id s.rows h.found) in
      elim (Bool-cases (lockable id r)) [
        | inl l ↦
            let (took, at') = lock-taken id c.now c.by r s h.found l in
            let waits' = lockable-phase r.status r.attempts h.in_phase (ground arith) in
            let (r', at, step) =
              tried c r (lock_job none c.now id c.by s).0 ri h.thrice h.named h.loaded at' in
            rw (cycle-taken c r s h.found took, ← waits', ← does (columns r) h.named h.loaded)
              (finish id c.now
                (settle c.now (handle_job unmarshal c.handlers (columns r))
                  (lock_job none c.now id c.by s).0)
                at step)
        | inr l ↦
            let (refused, at') = lock-refused id c.now c.by r s wf h.found l in
            let (stays, calm) =
              unlockable-phase r.status r.attempts ran h.in_phase (ground (arith, ri)) in
            rw (cycle-refused c r s h.found refused, stays)
              (finish id c.now (lock_job none c.now id c.by s).0 at' (record {
                in_phase = ground (arith, calm);
                thrice = h.thrice;
                named = h.named;
                loaded = h.loaded;
              }))
      ]

  cycle-IsWellFormed :
      (c : Cycle Args) (s : Store) → IsWellFormed s → IsWellFormed (cycle unmarshal id c s)
  unfolding cycle try_job run
  cycle-IsWellFormed c s wf = elim (Option-cases (find? (has_id id) s.rows)) [
    | inl missing ↦ rw (cycle, missing) wf
    | inr (r, found) ↦
        let locked = lock_job-IsWellFormed none c.now id c.by s wf in
        elim (Bool-cases (got (lock_job none c.now id c.by s).1)) [
          | inl took ↦ rw (cycle-taken c r s found took) (
              run-IsWellFormed (retry_op none c.now) _
                (settle-IsWellFormed c.now (handle_job unmarshal c.handlers (columns r)) _ locked))
          | inr refused ↦
              rw (cycle-refused c r s found refused)
                (run-IsWellFormed (retry_op none c.now) _ locked)
        ]
  ]

  cycles-IsRowIn :
      (cs : List (Cycle Args × Run)) (phase : Phase) (s : Store)
      → All (λ x. Does unmarshal name payload x.0 x.1) cs
      → IsWellFormed s
      → IsRowIn id name payload phase s
      → IsRowIn id name payload
          (fate phase (map (λ x. x.1) cs))
          (cycles unmarshal id (map (λ x. x.0) cs) s)
  unfolding cycles
  cycles-IsRowIn [] phase s does wf h = h
  cycles-IsRowIn ((c, ran) ∷ cs) phase s does wf h =
      cycles-IsRowIn cs (advance phase ran) (cycle unmarshal id c s) does.1
        (cycle-IsWellFormed c s wf) (cycle-IsRowIn c ran phase s does.0 wf h)

find?-append :
    (id : ℕ) (rows : List Row) (r : Row) (lo : ℕ)
    → Rising lo (map (λ (x : Row). x.id) rows) id
    → r.id ≡ id
    → find? (has_id id) (rows ++ r ∷ []) ≡ some r
find?-append id [] r lo h e = let hit : has_id id r ≡ true = ground (arith, e) in rw hit refl
find?-append id (x ∷ rows) r lo h e =
    let below = Rising-le (suc x.id) (map (λ (y : Row). y.id) rows) id h.1 in
    let miss : has_id id x ≡ false = ground (arith, below) in
    rw miss (find?-append id rows r (suc x.id) h.1 e)

-- A job that Insert has put into the table, of three attempts as every job, follows the machine of
-- its phases, in whatever rounds try it, by whatever instances and at whatever times, where no
-- statement fails: each round in which it waits runs it, and the row of the job is in the phase where
-- the results of its runs lead. A run with no error ends it, a panic leaves it in processing, and the
-- third run with an error buries it; from there on no round runs it or changes its phase.
pub insert-life :
    {Args : Type 0} (unmarshal : String → Result Args) (now at : Time) (name payload : String)
    (cs : List (Cycle Args × Run)) (s : Store)
    → IsWellFormed s
    → All (λ x. Does unmarshal name payload x.0 x.1) cs
    → IsRowIn s.next_id name payload (fate (waits 0) (map (λ x. x.1) cs)) (
        cycles unmarshal s.next_id (map (λ x. x.0) cs) (insert none now name at (some payload) s).0)
unfolding insert run
insert-life unmarshal now at name payload cs s wf does =
    let r = new_row now s.next_id name payload at in
    cycles-IsRowIn unmarshal s.next_id name payload cs (waits 0) (append_row r s) does
      (run-IsWellFormed (insert_op none now name at (some payload)) s wf)
      (record {
        row = r;
        found = find?-append s.next_id s.rows r 1 wf refl;
        in_phase = refl;
        thrice = refl;
        named = refl;
        loaded = refl;
      })
