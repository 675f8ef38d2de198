-- ===== src/ThreadPool/Tests.antt =====
-- A pool of two workers.
use basic_component_design.Common.{
  ◌≢◌, none, Distinct, ℕ, ◌+◌, ◌*◌, ◌<◌, ◌≡◌, ◌⊎◌, inl, inr, refl, true, false, Option, some, List,
  [], ◌∷◌, ◌==◌, arith, if◌then◌else◌, In, length,
}
use native.Mathlib.Decide.{ℕ_discrete}
use basic_component_design.ThreadPool.{
  Links, WorkQueue, Threads, gone, ready, worker_thread, turn, mark_worker, forget_lists, Marking,
  at_head, marked, moved, meanwhile, ended, finishes, forgets, running, works, Steps, done, step,
  thread_pool_create, ll_remove,
}
use basic_component_design.ThreadPool.Chain.{IsList}
use basic_component_design.ThreadPool.Runs.{JobsOk, Fresh}
use basic_component_design.ThreadPool.Once.{Steps-once}
use basic_component_design.ThreadPool.Shutdown.{Marking-stops}
use basic_component_design.ThreadPool.Setup.{Allocates, thread_pool_create_lem}

-- The items 2 and 1, each added in front.
abbrev two : Links
two = record { prev = λ _. 0; next = λ x. if x == 2 then 1 else 0; list = 2 }

abbrev items : List ℕ
items = 2 ∷ 1 ∷ []

two-IsList : IsList two (2 ∷ 1 ∷ [])
two-IsList = record {
  chain = (refl, omega arith, (refl, omega arith, refl));
  distinct = (λ k. elim k [ inl e ↦ absurd (omega (arith, e)) | inr e ↦ e ], (λ e. e, tt));
  first = (refl, (refl, tt));
}

abbrev pool : WorkQueue
pool = record { workers = two; waiting_jobs = two; terminate = λ _. 0 }

abbrev threads : Threads
threads = record {
  queue = pool;
  place = λ w. if w == 1 then ready else if w == 2 then ready else gone;
  started = [];
}

threads-JobsOk : JobsOk threads
threads-JobsOk = record { jobs = 2 ∷ 1 ∷ []; list = two-IsList; once = two-IsList.distinct }

two_turns : Steps Fresh threads (turn 2 (turn 1 threads))
unfolding turn worker_thread
two_turns =
    step (works 1 threads refl)
      (step (works 2 (turn 1 threads) refl) (done (turn 2 (turn 1 threads))))

two_started : (turn 2 (turn 1 threads)).started ≡ 1 ∷ 2 ∷ []
unfolding turn worker_thread ll_remove
two_started = refl

Steps-once_example : JobsOk (turn 2 (turn 1 threads)) × Distinct (turn 2 (turn 1 threads)).started
Steps-once_example = Steps-once threads-JobsOk two_turns

all_workers : (w : ℕ) → (threads.place w ≡ gone) ⊎ In w (2 ∷ 1 ∷ [])
all_workers w = elim (ℕ_discrete w 1) [
  | yes e ↦ inr (inr (inl e))
  | no n ↦ elim (ℕ_discrete w 2) [
    | yes e ↦ inr (inl e)
    | no m ↦
        let t : (w == 1) ≡ false = ground arith in
        let u : (w == 2) ≡ false = ground arith in inl (rw t (rw u refl))
  ]
]

abbrev Any : ℕ → Threads → Type 0
Any job s = Unit {0}

-- Worker 2 is marked, worker 1 takes a job, then it is marked as well.
abbrev first_told : Threads
first_told = record threads { queue = mark_worker 2 pool }

abbrev one_runs : Threads
one_runs = turn 1 first_told

abbrev both_told : Threads
both_told = record one_runs { queue = mark_worker 1 one_runs.queue }

to_the_end : Marking Any (at_head 2) threads both_told
unfolding mark_worker turn worker_thread ll_remove
to_the_end =
    marked 2 (omega arith) (λ e. absurd (cc))
      (moved 2 (λ e. absurd (cc))
        (meanwhile (works 1 first_told refl) (
          marked 1 (omega arith) (λ e. absurd (cc))
            (moved 1 (λ e. absurd (cc)) (ended both_told)))))

abbrev finished : Threads
finished = record both_told { place = λ w. if 1 == w then ready else both_told.place w }

one_finishes : both_told.place 1 ≡ running 2
unfolding mark_worker turn worker_thread ll_remove
one_finishes = refl

abbrev later : Threads
later = record finished { queue = forget_lists finished.queue }

Marking-stops_example : (turn 1 later).started ≡ both_told.started
Marking-stops_example =
    Marking-stops {F = Any} (2 ∷ 1 ∷ []) two-IsList.chain all_workers to_the_end (
      step (finishes 1 2 both_told one_finishes)
        (step (forgets finished) (step (works 1 later refl) (done (turn 1 later)))))

abbrev heap : ℕ → Option ℕ
heap i = some (4096 + 64 * i)

heap-Allocates : Allocates heap
heap-Allocates = record {
  valid = λ i w e z. let q : 4096 + 64 * i ≡ w = cc e in absurd (omega arith);
  apart = λ i j w e f.
      let q : 4096 + 64 * i ≡ w = cc e in let r : 4096 + 64 * j ≡ w = cc f in omega arith;
}

thread_pool_create_lem_example :
    (let (r, q) = thread_pool_create heap (λ _. true) (λ _. 0) 80 in
      (ws : List ℕ) × IsList (q.workers) ws
      × (((r ≡ 0) × (length ws ≡ 80) × ((j : ℕ) → j < 80 → (heap j ≢ none) × (true ≡ true)))
          ⊎ ((r ≡ 1)
              × (length ws < 80)
              × ((j : ℕ) → j < length ws → (heap j ≢ none) × (true ≡ true))
              × ((heap (length ws) ≡ none) ⊎ (true ≡ false)))))
thread_pool_create_lem_example = thread_pool_create_lem heap (λ _. true) heap-Allocates (λ _. 0) 80
