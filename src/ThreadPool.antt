-- ===== src/ThreadPool.antt =====
-- The thread pool: thread_pool.c under 3.1池式组件/3.1.1手写线程池与性能分析/src/example.
-- Jobs and workers are known by their addresses, 0 is the null pointer, and the fields of the
-- structs are maps from addresses. What happens between a lock and the next unlock or wait is one
-- step. malloc and pthread_create answer through arguments.
pub mod Chain
pub mod Runs
pub mod Once
pub mod Shutdown
pub mod Setup
pub mod Tests
use basic_component_design.Common.{
  ℕ, zero, suc, ◌+◌, ◌-◌, ◌≡◌, ◌≢◌, ◌⊎◌, Bool, true, false, not, Option, none, some, List, [], ◌∷◌,
  ◌==◌, if◌then◌else◌, update,
}

-- The links of the items of one kind, and the pointer to the first.
pub record Links : Type 0 where
  pub prev : ℕ → ℕ
  pub next : ℕ → ℕ
  pub list : ℕ

unfoldable pub ll_add : ℕ → Links → Links
ll_add item s = record {
  prev = update s.prev item 0;
  next = update s.next item s.list;
  list = item;
}

unfoldable pub ll_remove : ℕ → Links → Links
ll_remove item s =
    let next =
      if not (s.prev item == 0) then update s.next (s.prev item) (s.next item) else s.next in
    let prev = if not (next item == 0) then update s.prev (next item) (s.prev item) else s.prev in
    record {
      prev = update prev item 0;
      next = update next item 0;
      list = if s.list == item then next item else s.list;
    }

pub record WorkQueue : Type 0 where
  pub workers : Links
  pub waiting_jobs : Links
  pub terminate : ℕ → ℕ

-- memset in ntyThreadPoolCreate: no worker and no job. What the fields of structs that do not exist
-- yet hold is the argument.
unfoldable pub blank : (ℕ → ℕ) → WorkQueue
blank memory = record {
  workers = record { prev = memory; next = memory; list = 0 };
  waiting_jobs = record { prev = memory; next = memory; list = 0 };
  terminate = memory;
}

-- A new worker is cleared by memset and, once its thread is there, put in front of the others.
unfoldable pub new_worker : ℕ → WorkQueue → WorkQueue
new_worker worker q = record q {
  workers = ll_add worker q.workers;
  terminate = update q.terminate worker 0;
}

-- The loop of ntyThreadPoolCreate for `n` workers, the `i`-th next; the result is what it returns.
unfoldable pub create_loop : (ℕ → Option ℕ) → (ℕ → Bool) → ℕ → ℕ → WorkQueue → ℕ × WorkQueue
unfolding new_worker
create_loop malloc pthread_create zero i q = (0, q)
create_loop malloc pthread_create (suc n) i q = elim (malloc i) [
  | none ↦ (1, q)
  | some worker ↦
      let rest = create_loop malloc pthread_create n (suc i) (new_worker worker q) in
      elim (pthread_create i) [ true ↦ rest | false ↦ (1, q) ]
]

-- `num_workers` above 0, or else the code takes 1.
unfoldable pub thread_pool_create : (ℕ → Option ℕ) → (ℕ → Bool) → (ℕ → ℕ) → ℕ → ℕ × WorkQueue
thread_pool_create malloc pthread_create memory num_workers =
    create_loop malloc pthread_create (if num_workers == 0 then 1 else num_workers) 0 (blank memory)

-- What the loop of ntyThreadPoolShutdown does with a worker, without the mutex.
unfoldable pub mark_worker : ℕ → WorkQueue → WorkQueue
mark_worker worker q = record q { terminate = update q.terminate worker 1 }

-- What ntyThreadPoolShutdown does behind its loop, with the mutex held.
unfoldable pub forget_lists : WorkQueue → WorkQueue
forget_lists q = record q {
  workers = record (q.workers) { list = 0 };
  waiting_jobs = record (q.waiting_jobs) { list = 0 };
}

unfoldable pub thread_pool_queue : ℕ → WorkQueue → WorkQueue
thread_pool_queue job q = record q { waiting_jobs = ll_add job q.waiting_jobs }

-- What a worker does with the mutex held: it waits for the condition, it leaves its loop, or it
-- takes a job that it then runs.
pub data Turn : Type 0 where
  waits ends : Turn
  takes : ℕ → Turn

unfoldable pub worker_thread : ℕ → WorkQueue → Turn × WorkQueue
worker_thread worker q =
    if not (q.terminate worker == 0)
    then (ends, q)
    else if q.waiting_jobs.list == 0
    then (waits, q)
    else (
      takes q.waiting_jobs.list,
      record q { waiting_jobs = ll_remove q.waiting_jobs.list q.waiting_jobs },
    )

-- Where a worker is: at the head of its loop, in pthread_cond_wait, in a job, or gone.
pub data Place : Type 0 where
  ready asleep gone : Place
  running : ℕ → Place

-- The pool with its threads; `started` lists the jobs that were taken, the last first.
pub record Threads : Type 0 where
  pub queue : WorkQueue
  pub place : ℕ → Place
  pub started : List ℕ

-- After its turn the worker is in this place.
abbrev pub place_after : Turn → Place
place_after waits = asleep
place_after ends = gone
place_after (takes job) = running job

abbrev pub started_after : Turn → List ℕ → List ℕ
started_after (takes job) started = job ∷ started
started_after _ started = started

unfoldable pub turn : ℕ → Threads → Threads
turn worker s =
    let (t, q) = worker_thread worker s.queue in
    record {
      queue = q;
      place = λ w. if worker == w then place_after t else s.place w;
      started = started_after t s.started;
    }

-- The steps of the threads in any order. `Fresh` says which addresses a caller may queue. A wake-up
-- may come from a signal, from the broadcast or from nothing. Callers of ntyThreadPoolShutdown mark a
-- worker at a time, and then forget the lists.
pub data Step (Fresh : ℕ → Threads → Type 0) : Threads → Threads → Type 0 where
  works : (worker : ℕ) (s : Threads) → s.place worker ≡ ready → Step Fresh s (turn worker s)
  wakes :
      (worker : ℕ) (s : Threads)
      → s.place worker ≡ asleep
      → Step Fresh s (record s { place = λ w. if worker == w then ready else s.place w })
  finishes :
      (worker job : ℕ) (s : Threads)
      → s.place worker ≡ running job
      → Step Fresh s (record s { place = λ w. if worker == w then ready else s.place w })
  queues :
      (job : ℕ) (s : Threads)
      → Fresh job s
      → Step Fresh s (record s { queue = thread_pool_queue job s.queue })
  marks :
      (worker : ℕ) (s : Threads) → Step Fresh s (record s { queue = mark_worker worker s.queue })
  forgets : (s : Threads) → Step Fresh s (record s { queue = forget_lists s.queue })

pub data Steps (Fresh : ℕ → Threads → Type 0) : Threads → Threads → Type 0 where
  done : (s : Threads) → Steps Fresh s s
  step : {s s' s'' : Threads} → Step Fresh s s' → Steps Fresh s' s'' → Steps Fresh s s''

-- Where the loop of ntyThreadPoolShutdown is: before it marks the worker, or before it reads `next`.
pub data LoopPlace : Type 0 where
  at_head at_next : ℕ → LoopPlace

-- The loop of ntyThreadPoolShutdown, from a place in it to its end, with steps of the other threads
-- in between. It looks at no worker that has left its loop and freed itself.
pub data Marking (Fresh : ℕ → Threads → Type 0) : LoopPlace → Threads → Threads → Type 0 where
  ended : (s : Threads) → Marking Fresh (at_head 0) s s
  meanwhile :
      {l : LoopPlace} {s s' s'' : Threads}
      → Step Fresh s s'
      → Marking Fresh l s' s''
      → Marking Fresh l s s''
  marked :
      (worker : ℕ) {s s' : Threads}
      → worker ≢ 0
      → s.place worker ≢ gone
      → Marking Fresh (at_next worker) (record s { queue = mark_worker worker s.queue }) s'
      → Marking Fresh (at_head worker) s s'
  moved :
      (worker : ℕ) {s s' : Threads}
      → s.place worker ≢ gone
      → Marking Fresh (at_head (s.queue.workers.next worker)) s s'
      → Marking Fresh (at_next worker) s s'
