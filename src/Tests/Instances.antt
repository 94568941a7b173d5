-- ===== src/Tests/Instances.antt =====
-- Two instances that ask for one job, and the theorem about their interleavings.
use go_fire.Base.{refl, some, none, [], ◌∷◌}
use go_fire.Store.Enqueued.{insert, lock_job, mark_failure}
use go_fire.Store.Enqueued.Ops.{run}
use go_fire.Client.Instances.{
  Running, System, insert as insertion, outside, locked, refused, init, Reach, start, later,
}
use go_fire.Client.Instances.Exclusion.{IsExclusive, Reach-IsExclusive}

abbrev pod_a : Running
pod_a = record { job_id = 1; instance_name = "pod a" }

abbrev pod_b : Running
pod_b = record { job_id = 1; instance_name = "pod b" }

abbrev one_job : System
one_job = record init {
  store = run (go_fire.Store.Enqueued.Ops.insert_op none 10 "mail" 20 (some "[]")) init.store;
}

one_job-Reach : Reach one_job
one_job-Reach = later start (outside (insertion none 10 "mail" 20 (some "[]")))

-- The first instance gets the job, the second one does not.
abbrev contended : System
contended = record {
  store = (lock_job none 40 1 "pod b" (lock_job none 30 1 "pod a" one_job.store).0).0;
  running = pod_a ∷ [];
}

contended-Reach : Reach contended
unfolding lock_job run insert
contended-Reach =
    later (later one_job-Reach (locked none 30 pod_a refl)) (refused none 40 pod_b (λ e. cc))

Reach-IsExclusive_example : IsExclusive contended
Reach-IsExclusive_example = Reach-IsExclusive contended-Reach
