-- ===== src/Client/Enqueued/Progress.antt =====
-- How far the rounds of the worker get: a round starts the due jobs in their order, and leaves the others
-- due.
use mathlib.Core.List.{Perm}
use mathlib.Core.List.Perm
use go_fire.Base.{
  map-append, ℕ, ◌-◌, ◌*◌, ◌≤◌, ◌≡◌, refl, sym, ap, subst, ◌∙◌, List, [], ◌∷◌, ◌++◌, map, none,
  some, String, arith, length, take, drop, All,
}
use go_fire.Base.Sort.Laws.{sort_by-IsOrdered, sort_by-Perm, length-sort_by}
use go_fire.Store.Sql.{Time}
use go_fire.Store.Page.{clamp_page, page_result}
use go_fire.Store.Enqueued.{Row, Store, EnqueuedJob, columns}
use go_fire.Store.Enqueued.Ops.{IsWellFormed}
use go_fire.Store.Enqueued.Due.{due, work_statuses, fetch_due_jobs_lem}
use go_fire.Client.Enqueued.{Round, start_page, process_due_jobs}
use go_fire.Client.Enqueued.Waiting.{IsCalmLap, waiting, start_jobs-waiting}
use go_fire.Client.Enqueued.Ripe.{
  ripe, ripe-waiting, ripe-drop, ripe-take-drop, length-drop, ripe_jobs, ripe_jobs-columns,
  ripe_jobs-append,
}

-- Rounds of the worker, one after the other, each by an instance: the table, and the jobs that they start.
unfoldable pub rounds : List (Round × String) → ℕ → Store → Store × List EnqueuedJob
unfolding process_due_jobs
rounds [] size s = (s, [])
rounds ((r, by) ∷ rs) size s =
    let x = process_due_jobs r size by s in let y = rounds rs size x.0 in (y.0, x.1 ++ y.1)

-- A round that reads the time `t` or a later one, in which nothing fails and nobody else calls the store.
abbrev pub IsCalm : Time → Round → Type 0
IsCalm t r =
    (r.fault ≡ none)
    × (t ≤ r.now)
    × (r.before ≡ [])
    × ((job : EnqueuedJob) → IsCalmLap (r.laps job))

first_offset : (size : ℕ) → (clamp_page 1 - 1) * size ≡ 0
unfolding clamp_page
first_offset size = omega arith

process_due_jobs-waiting :
    (t : Time) (r : Round) (size : ℕ) (by : String) (s : Store)
    → IsWellFormed s
    → IsCalm t r
    → let x = process_due_jobs r size by s in
      let w = waiting r.tie r.db_now r.now s in
      (x.1 ≡ map columns (take size w))
      × (waiting r.tie r.db_now r.now x.0 ≡ drop size w)
      × IsWellFormed x.0
unfolding process_due_jobs start_page page_result
process_due_jobs-waiting t r size by s wf (fine, later, quiet, calm) =
    rw
      (
        fine,
        quiet,
        fetch_due_jobs_lem r.tie r.db_now 1 size work_statuses (some r.now) s,
        first_offset size,
      )
      (start_jobs-waiting size r.tie r.db_now r.now r.laps by s wf calm)

of_eq : {A : Type 0} {xs ys : List A} → xs ≡ ys → Perm xs ys
of_eq {A} {xs} e = subst (λ zs. Perm xs zs) e (Perm.refl xs)

module _ (db_now t : Time) where
  abbrev ready : Store → List Row
  ready s = due db_now work_statuses (some t) s

  waiting-Perm : (tie : Row → ℕ) (s : Store) → Perm (waiting tie db_now t s) (ready s)
  waiting-Perm tie s = Perm.trans (sort_by-Perm _ _) (sort_by-Perm tie _)

  length-waiting : (tie : Row → ℕ) (s : Store) → length (waiting tie db_now t s) ≡ length (ready s)
  length-waiting tie s = length-sort_by _ _ ∙ length-sort_by tie _

  process_due_jobs-ready :
      (r : Round) (size : ℕ) (by : String) (s : Store)
      → IsWellFormed s
      → IsCalm t r
      → let x = process_due_jobs r size by s in
        Perm (ripe_jobs t x.1 ++ map columns (ready x.0)) (map columns (ready s))
        × (length (ready x.0) ≡ length (ready s) - size)
        × IsWellFormed x.0
  process_due_jobs-ready r size by s wf calm =
      let x = process_due_jobs r size by s in
      let w = waiting r.tie r.db_now r.now s in
      let (started, left, wf') = process_due_jobs-waiting t r size by s wf calm in
      let was : ripe t w ≡ waiting r.tie db_now t s =
        ripe-waiting r.tie db_now r.db_now t r.now s calm.1 in
      let now : ripe t (drop size w) ≡ waiting r.tie db_now t x.0 =
        ap (ripe t) (sym left) ∙ ripe-waiting r.tie db_now r.db_now t r.now x.0 calm.1 in
      let own : ripe_jobs t x.1 ≡ map columns (ripe t (take size w)) =
        ap (ripe_jobs t) started ∙ ripe_jobs-columns t (take size w) in
      (
        Perm.trans
            (Perm.append (of_eq own)
              (Perm.map columns (Perm.symm (Perm.trans (of_eq now) (waiting-Perm r.tie x.0)))))
            (Perm.trans
              (of_eq (
                sym (map-append columns (ripe t (take size w)) (ripe t (drop size w)))
                ∙ ap (map columns) (ripe-take-drop t size w ∙ was)))
              (Perm.map columns (waiting-Perm r.tie s))),
        sym (length-waiting r.tie x.0)
            ∙ ap length (sym now ∙ ripe-drop t size w (sort_by-IsOrdered _ _) ∙ ap (drop size) was)
            ∙ length-drop size (waiting r.tie db_now t s)
            ∙ ap (λ n. n - size) (length-waiting r.tie s),
        wf',
      )

  rounds-ready :
      (rs : List (Round × String)) (size : ℕ) (s : Store)
      → IsWellFormed s
      → All (λ p. IsCalm t p.0) rs
      → Perm
          (ripe_jobs t (rounds rs size s).1 ++ map columns (ready (rounds rs size s).0))
          (map columns (ready s))
        × (length (ready (rounds rs size s).0) ≡ length (ready s) - length rs * size)
  unfolding rounds
  rounds-ready [] size s wf calm = (Perm.refl _, omega arith)
  rounds-ready ((r, by) ∷ rs) size s wf calm =
      let x = process_due_jobs r size by s in
      let (first, less, wf') = process_due_jobs-ready r size by s wf calm.0 in
      let (others, rest) = rounds-ready rs size x.0 wf' calm.1 in
      let y = rounds rs size x.0 in
      (
        Perm.trans
            (of_eq (
              ap (λ l. l ++ map columns (ready y.0)) (ripe_jobs-append t x.1 y.1)
              ∙ append-assoc (ripe_jobs t x.1) (ripe_jobs t y.1) (map columns (ready y.0))))
            (Perm.trans (Perm.append_left (ripe_jobs t x.1) others) first),
        omega (arith, less, rest),
      )
    where
      append-assoc : {A : Type 0} (xs ys zs : List A) → (xs ++ ys) ++ zs ≡ xs ++ (ys ++ zs)
      append-assoc [] ys zs = refl
      append-assoc (x ∷ xs) ys zs = ap (λ l. x ∷ l) (append-assoc xs ys zs)

  empty-length : (rows : List Row) → length rows ≡ 0 → rows ≡ []
  empty-length [] h = refl
  empty-length (r ∷ rows) h = absurd (omega arith)

  -- No job waits for ever: on a well-formed table, where every round reads a clock of `t` or later, nothing
  -- fails and nobody else calls the store, and the rounds of all instances together have room for the jobs
  -- that are due at `t`: of the jobs whose time had come at `t`, the rounds start exactly those that were due
  -- at `t`, each once, and none is due at `t` any more.
  pub rounds-start :
      (rs : List (Round × String)) (size : ℕ) (s : Store)
      → IsWellFormed s
      → All (λ p. IsCalm t p.0) rs
      → length (due db_now work_statuses (some t) s) ≤ length rs * size
      → Perm (ripe_jobs t (rounds rs size s).1) (map columns (due db_now work_statuses (some t) s))
        × (due db_now work_statuses (some t) (rounds rs size s).0 ≡ [])
  rounds-start rs size s wf calm room =
      let (all, left) = rounds-ready rs size s wf calm in
      let none_left : ready (rounds rs size s).0 ≡ [] = empty-length _ (omega arith) in
      (
        Perm.trans
            (of_eq (
              sym (
                ap (λ rows. ripe_jobs t (rounds rs size s).1 ++ map columns rows) none_left
                ∙ append_nil (ripe_jobs t (rounds rs size s).1))))
            all,
        none_left,
      )
    where
      append_nil : {A : Type 0} (xs : List A) → xs ++ [] ≡ xs
      append_nil [] = refl
      append_nil (x ∷ xs) = ap (λ l. x ∷ l) (append_nil xs)
