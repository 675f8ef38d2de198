-- ===== src/ThreadPool/Runs.antt =====
-- Which jobs the workers run, over all orders of steps.
use basic_component_design.Common.{
  Distinct, ℕ, ◌≡◌, ◌≢◌, ◌⊎◌, inl, inr, refl, ap, sym, ◌∙◌, true, false, List, [], ◌∷◌, ◌++◌, ◌==◌,
  arith, In, In-append, append-In,
}
use basic_component_design.ThreadPool.{
  WorkQueue, Threads, waits, ends, takes, worker_thread, ll_remove,
}
use basic_component_design.ThreadPool.Chain.{IsChain, IsList, ll_remove-IsList}

-- No job waits twice, or waits after it was started, or was started twice.
pub record JobsOk (s : Threads) : Type 0 where
  pub jobs : List ℕ
  pub list : IsList s.queue.waiting_jobs jobs
  pub once : Distinct (jobs ++ s.started)

-- A caller may queue a struct that is not null and does not wait and was not run.
pub record Fresh (job : ℕ) (s : Threads) : Type 0 where
  pub valid : job ≢ 0
  pub new : ¬ In job s.started
  pub idle : (jobs : List ℕ) → IsList s.queue.waiting_jobs jobs → ¬ In job jobs

pub In-cases : (x : ℕ) (xs ys : List ℕ) → In x (xs ++ ys) → In x xs ⊎ In x ys
In-cases x [] ys h = inr h
In-cases x (y ∷ xs) ys (inl e) = inl (inl e)
In-cases x (y ∷ xs) ys (inr h) = elim (In-cases x xs ys h) [ inl a ↦ inl (inr a) | inr b ↦ inr b ]

-- A job that moves from the front of the one list to the front of the other.
pub Distinct-move :
    (x : ℕ) (xs ys : List ℕ) → ¬ In x (xs ++ ys) → Distinct (xs ++ ys) → Distinct (xs ++ x ∷ ys)
Distinct-move x [] ys h d = (h, d)
Distinct-move x (y ∷ xs) ys h d = (
  λ k. elim (In-cases y xs (x ∷ ys) k) [
    | inl a ↦ d.0 (In-append y xs ys a)
    | inr (inl e) ↦ h (inl (sym e))
    | inr (inr b) ↦ d.0 (append-In y xs ys b)
  ],
  Distinct-move x xs ys (λ k. h (inr k)) d.1,
)

pub Distinct-drop : (xs ys : List ℕ) → Distinct (xs ++ ys) → Distinct ys
Distinct-drop [] ys d = d
Distinct-drop (x ∷ xs) ys d = Distinct-drop xs ys d.1

IsChain-list :
    (next : ℕ → ℕ) (p : ℕ) (xs : List ℕ) → IsChain next p xs → p ≢ 0 → (ys : List ℕ) × (xs ≡ p ∷ ys)
IsChain-list next p [] c z = absurd (z c)
IsChain-list next p (x ∷ xs) c z = (xs, ap (λ y. y ∷ xs) (sym c.0))

-- The three ways in which the turn of a worker goes.
pub worker_thread-ends : (w : ℕ) (q : WorkQueue) → q.terminate w ≢ 0 → worker_thread w q ≡ (ends, q)
unfolding worker_thread
worker_thread-ends w q h = let t : (q.terminate w == 0) ≡ false = ground arith in rw t refl

worker_thread-waits :
    (w : ℕ) (q : WorkQueue)
    → q.terminate w ≡ 0
    → q.waiting_jobs.list ≡ 0
    → worker_thread w q ≡ (waits, q)
unfolding worker_thread
worker_thread-waits w q h k =
    let t : (q.terminate w == 0) ≡ true = ground arith in
    let u : (q.waiting_jobs.list == 0) ≡ true = ground arith in rw t (rw u refl)

worker_thread-takes :
    (w : ℕ) (q : WorkQueue)
    → q.terminate w ≡ 0
    → q.waiting_jobs.list ≢ 0
    → worker_thread w q ≡ (
      takes q.waiting_jobs.list,
      record q { waiting_jobs = ll_remove q.waiting_jobs.list q.waiting_jobs },
    )
unfolding worker_thread
worker_thread-takes w q h k =
    let t : (q.terminate w == 0) ≡ true = ground arith in
    let u : (q.waiting_jobs.list == 0) ≡ false = ground arith in rw t (rw u refl)

-- A worker that is not told to end takes the job that was queued last, and leaves the others; where
-- none waits it waits itself.
pub worker_thread_lem :
    (w : ℕ) (q : WorkQueue) (jobs : List ℕ)
    → IsList q.waiting_jobs jobs
    → q.terminate w ≡ 0
    → ((jobs ≡ []) × (worker_thread w q ≡ (waits, q)))
      ⊎ ((job : ℕ) × (rest : List ℕ) × (q' : WorkQueue) × (jobs ≡ job ∷ rest)
          × (worker_thread w q ≡ (takes job, q'))
          × IsList (q'.waiting_jobs) rest)
worker_thread_lem w q [] i h = inl (refl, worker_thread-waits w q h i.chain)
worker_thread_lem w q (x ∷ xs) i h =
    let (e, i') = ll_remove-IsList x q.waiting_jobs xs i in
    let z : q.waiting_jobs.list ≢ 0 = λ k. i.chain.1 (sym e ∙ k) in
    inr (
      x,
      xs,
      record q { waiting_jobs = ll_remove x q.waiting_jobs },
      refl,
      worker_thread-takes w q h z
          ∙ ap (λ y. (takes y, record q { waiting_jobs = ll_remove y q.waiting_jobs })) e,
      i',
    )
