-- ===== src/Client/Instances/Exclusion.antt =====
-- No two goroutines run one job, as long as no instance starts anew.
use go_fire.Base.{ℕ, ◌≡◌, ◌≢◌, sym, subst, true, List, [], ◌∷◌, ◌++◌, Option, Error, ok, arith, All}
use go_fire.Store.Sql.{Time}
use go_fire.Store.Enqueued.{Store, lock_job}
use go_fire.Store.Enqueued.Ops.{Op, lock_op, run, IsWellFormed, run-IsWellFormed}
use go_fire.Store.Enqueued.Locking.{KeepsLock, IsHeld, lock_job-IsHeld, run-IsHeld, IsHeld-lock_job}
use go_fire.Client.Instances.{
  Running, System, Outside, insert, bulk, remove, retry, Report, success, failure, Step, outside,
  locked, refused, reported, panicked, Reach, start, later,
}

-- Every goroutine holds the lock of its job.
abbrev pub AreHeld : Store → List Running → Type 0
AreHeld s = All (λ r. IsHeld r.job_id r.instance_name s)

-- The jobs that are run differ.
abbrev pub AreDistinct : List Running → Type 0
AreDistinct [] = Unit
AreDistinct (r ∷ rs) = All (λ q. r.job_id ≢ q.job_id) rs × AreDistinct rs

pub record IsExclusive (s : System) : Type 0 where
  pub well_formed : IsWellFormed s.store
  pub held : AreHeld s.store s.running
  pub distinct : AreDistinct s.running

All-imp {ℓ κ λ'} :
    {A : Type ℓ} {P : A → Type κ} {Q : A → Type λ'} (xs : List A)
    → ((x : A) → P x → Q x)
    → All P xs
    → All Q xs
All-imp [] f h = tt
All-imp (x ∷ xs) f h = (f x h.0, All-imp xs f h.1)

-- A call that ends no job that is run keeps all locks.
run-AreHeld :
    (op : Op) (s : Store) (rs : List Running)
    → All (λ r. KeepsLock r.job_id op) rs
    → AreHeld s rs
    → AreHeld (run op s) rs
run-AreHeld op s [] k h = tt
run-AreHeld op s (r ∷ rs) k h =
    (run-IsHeld op r.job_id r.instance_name s k.0 h.0, run-AreHeld op s rs k.1 h.1)

Outside-KeepsLock : {op : Op} (o : Outside op) (id : ℕ) → KeepsLock id op
Outside-KeepsLock (insert fault now name at args) id = tt
Outside-KeepsLock (bulk fault now batch) id = tt
Outside-KeepsLock (remove fault j) id = tt
Outside-KeepsLock (retry fault now) id = tt

Report-KeepsLock : {id : ℕ} {op : Op} → Report id op → (j : ℕ) → id ≢ j → KeepsLock j op
Report-KeepsLock (success fault now id) j ne = ne
Report-KeepsLock (failure fault id msg attempts max) j ne = ne

everywhere {ℓ κ} : {A : Type ℓ} {P : A → Type κ} (xs : List A) → ((x : A) → P x) → All P xs
everywhere [] f = tt
everywhere (x ∷ xs) f = (f x, everywhere xs f)

module _ {ℓ κ} {A : Type ℓ} (P : A → Type κ) where
  All-without : (xs : List A) (x : A) (ys : List A) → All P (xs ++ x ∷ ys) → All P (xs ++ ys)
  All-without [] x ys h = h.1
  All-without (z ∷ xs) x ys h = (h.0, All-without xs x ys h.1)

  All-middle : (xs : List A) (x : A) (ys : List A) → All P (xs ++ x ∷ ys) → P x
  All-middle [] x ys h = h.0
  All-middle (z ∷ xs) x ys h = All-middle xs x ys h.1

-- Without the goroutine, the others are still distinct, and differ from it.
AreDistinct-without :
    (xs : List Running) (r : Running) (ys : List Running)
    → AreDistinct (xs ++ r ∷ ys)
    → AreDistinct (xs ++ ys) × All (λ q. r.job_id ≢ q.job_id) (xs ++ ys)
AreDistinct-without [] r ys h = (h.1, h.0)
AreDistinct-without (x ∷ xs) r ys h =
    let (distinct, others) = AreDistinct-without xs r ys h.1 in
    (
      (All-without _ xs r ys h.0, distinct),
      ((λ e. All-middle (λ q. x.job_id ≢ q.job_id) xs r ys h.0 (sym e)), others),
    )

lock-IsWellFormed :
    (fault : Option Error) (now : Time) (r : Running) (s : Store)
    → IsWellFormed s
    → IsWellFormed (lock_job fault now r.job_id r.instance_name s).0
unfolding run
lock-IsWellFormed fault now r s = run-IsWellFormed (lock_op fault now r.job_id r.instance_name) s

lock-AreHeld :
    (fault : Option Error) (now : Time) (r : Running) (s : Store) (rs : List Running)
    → AreHeld s rs
    → AreHeld (lock_job fault now r.job_id r.instance_name s).0 rs
unfolding run
lock-AreHeld fault now r s rs =
    run-AreHeld (lock_op fault now r.job_id r.instance_name) s rs (everywhere rs (λ q. tt))

-- A job that is run already cannot be locked.
lock-fresh :
    (fault : Option Error) (now : Time) (r : Running) (s : Store) (rs : List Running)
    → (lock_job fault now r.job_id r.instance_name s).1 ≡ ok true
    → AreHeld s rs
    → All (λ q. r.job_id ≢ q.job_id) rs
lock-fresh fault now r s rs hit = All-imp rs (λ q held e.
    IsHeld-lock_job fault now r.job_id q.instance_name r.instance_name s
      (subst (λ i. IsHeld i q.instance_name s) (sym e) held) hit)

Step-IsExclusive : {s t : System} → Step s t → IsExclusive s → IsExclusive t
Step-IsExclusive {s} (outside {op} o) inv = record {
  well_formed = run-IsWellFormed op s.store inv.well_formed;
  held =
      run-AreHeld op s.store s.running (everywhere s.running (λ r. Outside-KeepsLock o r.job_id))
        inv.held;
  distinct = inv.distinct;
}
Step-IsExclusive {s} (locked fault now r hit) inv = record {
  well_formed = lock-IsWellFormed fault now r s.store inv.well_formed;
  held = (
    lock_job-IsHeld fault now r.job_id r.instance_name s.store inv.well_formed hit,
    lock-AreHeld fault now r s.store s.running inv.held,
  );
  distinct = (lock-fresh fault now r s.store s.running hit inv.held, inv.distinct);
}
Step-IsExclusive {s} (refused fault now r miss) inv = record {
  well_formed = lock-IsWellFormed fault now r s.store inv.well_formed;
  held = lock-AreHeld fault now r s.store s.running inv.held;
  distinct = inv.distinct;
}
Step-IsExclusive {s} (reported before r after {op} e done) inv =
    let (distinct', others) =
      AreDistinct-without before r after (subst AreDistinct e inv.distinct) in
    record {
      well_formed = run-IsWellFormed op s.store inv.well_formed;
      held =
          run-AreHeld op s.store (before ++ after)
            (All-imp (before ++ after) (λ q. Report-KeepsLock done q.job_id) others)
            (All-without _ before r after (subst (AreHeld s.store) e inv.held));
      distinct = distinct';
    }
Step-IsExclusive {s} (panicked before r after e) inv = record {
  well_formed = inv.well_formed;
  held = All-without _ before r after (subst (AreHeld s.store) e inv.held);
  distinct = (AreDistinct-without before r after (subst AreDistinct e inv.distinct)).0;
}

-- However the calls of the instances interleave, and whichever of them the database refuses, as
-- long as no instance starts anew: the ids of the table are well formed, every goroutine that runs a
-- job holds its lock, with the row in the status processing, and no two of them run one job.
pub Reach-IsExclusive : {s : System} → Reach s → IsExclusive s
Reach-IsExclusive start = record { well_formed = omega arith; held = tt; distinct = tt }
Reach-IsExclusive (later r step) = Step-IsExclusive step (Reach-IsExclusive r)
