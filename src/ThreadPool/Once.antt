-- ===== src/ThreadPool/Once.antt =====
-- Every job is started at most once.
use basic_component_design.Common.{Distinct, ℕ, ◌≡◌, inl, inr, refl, ap, [], ◌∷◌, ◌++◌}
use native.Mathlib.Decide.{ℕ_discrete}
use basic_component_design.ThreadPool.{
  WorkQueue, Threads, Turn, waits, ends, takes, worker_thread, turn, thread_pool_queue, mark_worker,
  forget_lists, Step, works, wakes, finishes, queues, marks, forgets, Steps, done, step,
  started_after,
}
use basic_component_design.ThreadPool.Chain.{ll_add-IsList}
use basic_component_design.ThreadPool.Runs.{
  JobsOk, Fresh, In-cases, Distinct-move, Distinct-drop, worker_thread-ends, worker_thread_lem,
}

turn-queue :
    (w : ℕ) (s : Threads) (t : Turn) (q : WorkQueue)
    → worker_thread w s.queue ≡ (t, q)
    → ((turn w s).queue ≡ q) × ((turn w s).started ≡ started_after t s.started)
unfolding turn
turn-queue w s t q e = (ap (λ r. r.1) e, ap (λ r. started_after (r.0) s.started) e)

turn-JobsOk : (w : ℕ) (s : Threads) → JobsOk s → JobsOk (turn w s)
turn-JobsOk w s o = elim (ℕ_discrete (s.queue.terminate w) 0) [
  | no n ↦
      let (a, b) = turn-queue w s ends s.queue (worker_thread-ends w s.queue n) in
      record { jobs = o.jobs; list = rw a o.list; once = rw b o.once }
  | yes z ↦ elim (worker_thread_lem w s.queue o.jobs o.list z) [
    | inl (_, e) ↦
        let (a, b) = turn-queue w s waits s.queue e in
        record { jobs = o.jobs; list = rw a o.list; once = rw b o.once }
    | inr (job, rest, q, e, f, i) ↦
        let (a, b) = turn-queue w s (takes job) q f in
        let d : Distinct (job ∷ (rest ++ s.started)) = rw e at (o.once) in
        record {
          jobs = rest;
          list = rw a i;
          once = rw b (Distinct-move job rest s.started d.0 d.1);
        }
  ]
]

queue-JobsOk :
    (job : ℕ) (s : Threads)
    → Fresh job s
    → JobsOk s
    → JobsOk (record s { queue = thread_pool_queue job s.queue })
unfolding thread_pool_queue
queue-JobsOk job s f o = record {
  jobs = job ∷ o.jobs;
  list = ll_add-IsList job s.queue.waiting_jobs o.jobs f.valid (f.idle o.jobs o.list) o.list;
  once = (
    λ k. elim (In-cases job o.jobs s.started k) [
      | inl a ↦ f.idle o.jobs o.list a
      | inr b ↦ f.new b
    ],
    o.once,
  );
}

forget_lists-JobsOk : (s : Threads) → JobsOk s → JobsOk (record s { queue = forget_lists s.queue })
unfolding forget_lists
forget_lists-JobsOk s o = record {
  jobs = [];
  list = record { chain = refl; distinct = tt; first = tt };
  once = Distinct-drop o.jobs s.started o.once;
}

Step-JobsOk : {s s' : Threads} → Step Fresh s s' → JobsOk s → JobsOk s'
unfolding mark_worker
Step-JobsOk (works w s p) o = turn-JobsOk w s o
Step-JobsOk (wakes w s p) o = record { jobs = o.jobs; list = o.list; once = o.once }
Step-JobsOk (finishes w job s p) o = record { jobs = o.jobs; list = o.list; once = o.once }
Step-JobsOk (queues job s f) o = queue-JobsOk job s f o
Step-JobsOk (marks w s) o = record { jobs = o.jobs; list = o.list; once = o.once }
Step-JobsOk (forgets s) o = forget_lists-JobsOk s o

-- However the threads run, wake up and queue jobs, as long as no struct is queued while it waits or
-- after it was run: no job is started twice, and none that waits was started before.
pub Steps-once : {s s' : Threads} → JobsOk s → Steps Fresh s s' → JobsOk s' × Distinct s'.started
Steps-once o (done s) = (o, Distinct-drop o.jobs s.started o.once)
Steps-once o (step a b) = Steps-once (Step-JobsOk a o) b
