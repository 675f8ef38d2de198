-- ===== src/ThreadPool/Shutdown.antt =====
-- When the loop of ntyThreadPoolShutdown has ended, no worker takes a job any more.
use basic_component_design.Common.{
  ℕ, ◌≡◌, ◌≢◌, ◌⊎◌, inl, inr, refl, ap, sym, not, ◌∙◌, true, false, List, [], ◌∷◌, ◌==◌, arith,
  if◌then◌else◌, update, In, Bool-cases,
}
use native.Mathlib.Decide.{ℕ_discrete}
use basic_component_design.ThreadPool.{
  WorkQueue, Threads, gone, ready, worker_thread, turn, thread_pool_queue, mark_worker,
  forget_lists, Step, works, wakes, finishes, queues, marks, forgets, Steps, done, step, LoopPlace,
  at_head, at_next, Marking, ended, meanwhile, marked, moved,
}
use basic_component_design.ThreadPool.Chain.{IsChain}
use basic_component_design.ThreadPool.Runs.{worker_thread-ends}

-- Each worker has left its loop or is told to.
abbrev pub AllEnding : Threads → Type 0
AllEnding s = (w : ℕ) → (s.place w ≡ gone) ⊎ (s.queue.terminate w ≢ 0)

turn-AllEnding :
    (w : ℕ) (s : Threads)
    → s.place w ≡ ready
    → AllEnding s
    → AllEnding (turn w s) × ((turn w s).started ≡ s.started)
unfolding turn
turn-AllEnding w s p h = elim (h w) [
  | inl g ↦ absurd (cc)
  | inr z ↦
      let e = worker_thread-ends w s.queue z in
      rw e (
        λ v. elim (ℕ_discrete w v) [
          | yes k ↦ let t : (w == v) ≡ true = ground arith in inl (rw t refl)
          | no k ↦ let t : (w == v) ≡ false = ground arith in rw t (h v)
        ],
        refl,
      )
]

wake-AllEnding :
    (w : ℕ) (s : Threads)
    → s.place w ≢ gone
    → AllEnding s
    → AllEnding (record s { place = λ v. if w == v then ready else s.place v })
wake-AllEnding w s n h v = elim (ℕ_discrete w v) [
  | yes k ↦ elim (h w) [ inl g ↦ absurd (n g) | inr z ↦ inr (rw (← k) z) ]
  | no k ↦ let t : (w == v) ≡ false = ground arith in rw t (h v)
]

marked_stays : (w v : ℕ) (terminate : ℕ → ℕ) → terminate v ≢ 0 → update terminate w 1 v ≢ 0
marked_stays w v terminate h = ground arith

marked_told : (w v : ℕ) (terminate : ℕ → ℕ) → w ≡ v → update terminate w 1 v ≢ 0
marked_told w v terminate e = ground arith

Step-AllEnding :
    {F : ℕ → Threads → Type 0} {s s' : Threads}
    → Step F s s'
    → AllEnding s
    → AllEnding s' × (s'.started ≡ s.started)
unfolding thread_pool_queue mark_worker forget_lists
Step-AllEnding (works w s p) h = turn-AllEnding w s p h
Step-AllEnding (wakes w s p) h = (wake-AllEnding w s (λ g. absurd (cc)) h, refl)
Step-AllEnding (finishes w job s p) h = (wake-AllEnding w s (λ g. absurd (cc)) h, refl)
Step-AllEnding (queues job s f) h = (h, refl)
Step-AllEnding (marks w s) h =
    (λ v. elim (h v) [ inl g ↦ inl g | inr z ↦ inr (marked_stays w v s.queue.terminate z) ], refl)
Step-AllEnding (forgets s) h = (h, refl)

Steps-AllEnding :
    {F : ℕ → Threads → Type 0} {s s' : Threads}
    → Steps F s s'
    → AllEnding s
    → s'.started ≡ s.started
Steps-AllEnding (done s) h = refl
Steps-AllEnding (step a b) h = let (h', e) = Step-AllEnding a h in Steps-AllEnding b h' ∙ e

-- What a step of any thread leaves: the links of the workers, those that have left, and the marks.
record Lasts (s s' : Threads) : Type 0 where
  next : s'.queue.workers.next ≡ s.queue.workers.next
  left : (w : ℕ) → s.place w ≡ gone → s'.place w ≡ gone
  told : (w : ℕ) → s.queue.terminate w ≢ 0 → s'.queue.terminate w ≢ 0

worker_thread-keeps :
    (w : ℕ) (q : WorkQueue)
    → ((worker_thread w q).1.workers ≡ q.workers) × ((worker_thread w q).1.terminate ≡ q.terminate)
unfolding worker_thread
worker_thread-keeps w q = elim (Bool-cases (not (q.terminate w == 0))) [
  | inl t ↦ rw (t, worker_thread) (refl, refl)
  | inr t ↦ elim (Bool-cases (q.waiting_jobs.list == 0)) [
    | inl z ↦ rw (t, z, worker_thread) (refl, refl)
    | inr z ↦ rw (t, z, worker_thread) (refl, refl)
  ]
]

turn-Lasts : (w : ℕ) (s : Threads) → s.place w ≡ ready → Lasts s (turn w s)
unfolding turn
turn-Lasts w s p =
    let (a, b) = worker_thread-keeps w s.queue in
    record {
      next = ap (λ l. l.next) a;
      left = λ v g. elim (ℕ_discrete w v) [
        | yes k ↦ absurd (cc)
        | no k ↦ let t : (w == v) ≡ false = ground arith in rw t g
      ];
      told = λ v h. rw b h;
    }

awake-left :
    (w v : ℕ) (s : Threads)
    → s.place w ≢ gone
    → s.place v ≡ gone
    → (if w == v then ready else s.place v) ≡ gone
awake-left w v s n g = elim (ℕ_discrete w v) [
  | yes k ↦ absurd (n (ap s.place k ∙ g))
  | no k ↦ let t : (w == v) ≡ false = ground arith in rw t g
]

Step-Lasts : {F : ℕ → Threads → Type 0} {s s' : Threads} → Step F s s' → Lasts s s'
unfolding thread_pool_queue mark_worker forget_lists
Step-Lasts (works w s p) = turn-Lasts w s p
Step-Lasts (wakes w s p) = record {
  next = refl;
  left = λ v g. awake-left w v s (λ q. absurd (cc)) g;
  told = λ v h. h;
}
Step-Lasts (finishes w job s p) = record {
  next = refl;
  left = λ v g. awake-left w v s (λ q. absurd (cc)) g;
  told = λ v h. h;
}
Step-Lasts (queues job s f) = record { next = refl; left = λ v g. g; told = λ v h. h }
Step-Lasts (marks w s) = record {
  next = refl;
  left = λ v g. g;
  told = λ v h. marked_stays w v s.queue.terminate h;
}
Step-Lasts (forgets s) = record { next = refl; left = λ v g. g; told = λ v h. h }

-- A worker that has neither left nor been told is still before the loop.
abbrev ToCome : List ℕ → Threads → Type 0
ToCome ws s = (w : ℕ) → (s.place w ≡ gone) ⊎ (s.queue.terminate w ≢ 0) ⊎ In w ws

abbrev Before : LoopPlace → List ℕ → Threads → Type 0
Before (at_head p) ws s = IsChain s.queue.workers.next p ws × ToCome ws s
Before (at_next p) ws s = IsChain s.queue.workers.next (s.queue.workers.next p) ws × ToCome ws s

ToCome-Lasts : (ws : List ℕ) {s s' : Threads} → Lasts s s' → ToCome ws s → ToCome ws s'
ToCome-Lasts ws k h w = elim (h w) [
  | inl g ↦ inl (k.left w g)
  | inr (inl z) ↦ inr (inl (k.told w z))
  | inr (inr i) ↦ inr (inr i)
]

Before-Lasts :
    (l : LoopPlace) (ws : List ℕ) {s s' : Threads} → Lasts s s' → Before l ws s → Before l ws s'
Before-Lasts (at_head p) ws k (c, h) = (rw (k.next) c, ToCome-Lasts ws k h)
Before-Lasts (at_next p) ws k (c, h) = (rw (k.next) c, ToCome-Lasts ws k h)

Marking-AllEnding :
    {F : ℕ → Threads → Type 0} {l : LoopPlace} {s s' : Threads}
    → Marking F l s s'
    → (ws : List ℕ) → Before l ws s
    → AllEnding s'
unfolding mark_worker
Marking-AllEnding (ended s) [] (c, h) =
    λ w. elim (h w) [ inl g ↦ inl g | inr (inl z) ↦ inr z | inr (inr i) ↦ absurd i ]
Marking-AllEnding (ended s) (x ∷ ws) ((e, z, c), h) = absurd (z (sym e))
Marking-AllEnding (meanwhile {l} k m) ws b =
    Marking-AllEnding m ws (Before-Lasts l ws (Step-Lasts k) b)
Marking-AllEnding (marked p nz g m) [] (c, h) = absurd (nz c)
Marking-AllEnding (marked p {s} nz g m) (x ∷ ws) ((e, z, c), h) = Marking-AllEnding m ws (
  rw e c,
  λ w. elim (h w) [
    | inl l ↦ inl l
    | inr (inl t) ↦ inr (inl (marked_stays p w s.queue.terminate t))
    | inr (inr (inl k)) ↦ inr (inl (marked_told p w s.queue.terminate (e ∙ sym k)))
    | inr (inr (inr i)) ↦ inr (inr i)
  ],
)
Marking-AllEnding (moved p g m) ws b = Marking-AllEnding m ws b

-- ntyThreadPoolShutdown marks the workers one after another, while the other threads go on and may
-- queue jobs or shut the pool down as well. Every worker that has not left stands in the chain at
-- the start, and the loop looks at none that has freed itself. Then from the end of the loop on,
-- whatever the threads do, no worker takes a job any more; a job that was taken before is still run.
pub Marking-stops :
    {F : ℕ → Threads → Type 0} (ws : List ℕ) {s s' s'' : Threads}
    → IsChain s.queue.workers.next s.queue.workers.list ws
    → ((w : ℕ) → (s.place w ≡ gone) ⊎ In w ws)
    → Marking F (at_head s.queue.workers.list) s s'
    → Steps F s' s''
    → s''.started ≡ s'.started
Marking-stops ws c all m steps =
    Steps-AllEnding steps
      (Marking-AllEnding m ws (c, λ w. elim (all w) [ inl g ↦ inl g | inr i ↦ inr (inr i) ]))
