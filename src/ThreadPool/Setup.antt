-- ===== src/ThreadPool/Setup.antt =====
-- ntyThreadPoolCreate: how many workers there are, and what it returns.
use basic_component_design.Common.{
  ℕ, zero, suc, ◌+◌, ◌<◌, ◌≤◌, ◌≡◌, ◌≢◌, ◌⊎◌, inl, inr, refl, ◌∙◌, Bool, true, false, Option, none,
  some, List, [], ◌∷◌, ◌==◌, arith, if◌then◌else◌, All, In, length, Bool-cases, Option-cases,
  All-In, All-mono,
}
use native.Mathlib.Decide.{ℕ_discrete}
use basic_component_design.ThreadPool.{
  WorkQueue, blank, new_worker, create_loop, thread_pool_create,
}
use basic_component_design.ThreadPool.Chain.{IsList, ll_add-IsList}

-- malloc answers with addresses that are not null and never the same.
pub record Allocates (malloc : ℕ → Option ℕ) : Type 0 where
  pub valid : (i w : ℕ) → malloc i ≡ some w → w ≢ 0
  pub apart : (i j w : ℕ) → malloc i ≡ some w → malloc j ≡ some w → i ≡ j

module _ (malloc : ℕ → Option ℕ) (pthread_create : ℕ → Bool) (ok : Allocates malloc) where
  abbrev Succeeds : ℕ → Type 0
  Succeeds j = (malloc j ≢ none) × (pthread_create j ≡ true)

  -- All calls from the `i`-th on answered, for `n` workers, or the last call made failed.
  abbrev Outcome : ℕ → ℕ → ℕ → ℕ → ℕ → Type 0
  Outcome n i r old now =
      ((r ≡ 0) × (now ≡ n + old) × ((j : ℕ) → i ≤ j → j < i + n → Succeeds j))
      ⊎ ((r ≡ 1)
          × (k : ℕ) × (k < n)
          × (now ≡ k + old)
          × ((j : ℕ) → i ≤ j → j < i + k → Succeeds j)
          × ((malloc (i + k) ≡ none) ⊎ (pthread_create (i + k) ≡ false)))

  record Created (n i r : ℕ) (q : WorkQueue) (ws : List ℕ) : Type 0 where
    workers : List ℕ
    list : IsList (q.workers) workers
    outcome : Outcome n i r (length ws) (length workers)

  first-Succeeds :
      (i n j : ℕ)
      → Succeeds i
      → ((l : ℕ) → suc i ≤ l → l < suc i + n → Succeeds l)
      → i ≤ j
      → j < i + suc n
      → Succeeds j
  first-Succeeds i n j y a h b = elim (ℕ_discrete i j) [
    | yes e ↦ rw (← e) y
    | no ne ↦ a j (omega arith) (omega arith)
  ]

  -- One worker more in front of an outcome.
  Outcome-suc :
      (n i r old now : ℕ)
      → Succeeds i
      → Outcome n (suc i) r (suc old) now
      → Outcome (suc n) i r old now
  Outcome-suc n i r old now y (inl (e, l, a)) =
      inl (e, omega arith, λ j h b. first-Succeeds i n j y a h b)
  Outcome-suc n i r old now y (inr (e, k, lt, l, a, f)) =
      let q : suc i + k ≡ i + suc k = omega arith in
      inr (e, suc k, omega arith, omega arith, λ j h b. first-Succeeds i k j y a h b, rw (← q) f)

  -- The first call failed.
  stopped :
      (n i old : ℕ) → ((malloc i ≡ none) ⊎ (pthread_create i ≡ false)) → Outcome (suc n) i 1 old old
  stopped n i old f =
      let q : i ≡ i + 0 = omega arith in
      inr (refl, 0, omega arith, omega arith, λ j h b. absurd (omega arith), rw q at f)

  not_none : {i w : ℕ} → malloc i ≡ some w → malloc i ≢ none
  not_none e h = absurd (cc)

  loop-none :
      (n i : ℕ) (q : WorkQueue)
      → malloc i ≡ none
      → create_loop malloc pthread_create (suc n) i q ≡ (1, q)
  unfolding create_loop
  loop-none n i q e = rw (e, create_loop) refl

  loop-some :
      (n i w : ℕ) (q : WorkQueue)
      → malloc i ≡ some w
      → create_loop malloc pthread_create (suc n) i q ≡ elim (pthread_create i) [
        | true ↦ create_loop malloc pthread_create n (suc i) (new_worker w q)
        | false ↦ (1, q)
      ]
  unfolding create_loop
  loop-some n i w q e = rw (e, create_loop) refl

  create_loop-Created :
      (n i : ℕ) (q : WorkQueue) (ws : List ℕ)
      → IsList q.workers ws
      → All (λ w. (j : ℕ) → malloc j ≡ some w → j < i) ws
      → (let (r, q') = create_loop malloc pthread_create n i q in Created n i r q' ws)
  unfolding create_loop new_worker
  create_loop-Created zero i q ws l a = record {
    workers = ws;
    list = l;
    outcome = inl (refl, omega arith, λ j h b. absurd (omega arith));
  }
  create_loop-Created (suc n) i q ws l a = elim (Option-cases (malloc i)) [
    | inl e ↦
        rw (loop-none n i q e)
          (record { workers = ws; list = l; outcome = stopped n i (length ws) (inl e) })
    | inr (w, e) ↦ elim (Bool-cases (pthread_create i)) [
      | inl t ↦
          let q1 = new_worker w q in
          let new : ¬ In w ws = λ k. absurd (omega (arith, All-In _ ws a k i e)) in
          let a1 : All (λ v. (j : ℕ) → malloc j ≡ some v → j < suc i) (w ∷ ws) = (
            λ j f. omega (arith, ok.apart j i w f e),
            All-mono (λ v. (j : ℕ) → malloc j ≡ some v → j < i) _ ws
                (λ v h j f. omega (arith, h j f)) a,
          ) in
          let c =
            create_loop-Created n (suc i) q1 (w ∷ ws)
              (ll_add-IsList w q.workers ws (ok.valid i w e) new l) a1 in
          let g : create_loop malloc pthread_create (suc n) i q
              ≡ create_loop malloc pthread_create n (suc i) q1 =
            loop-some n i w q e ∙ (rw t refl) in
          rw g (record {
            workers = c.workers;
            list = c.list;
            outcome = Outcome-suc n i _ (length ws) _ (not_none e, t) c.outcome;
          })
      | inr t ↦
          let g : create_loop malloc pthread_create (suc n) i q ≡ (1, q) =
            loop-some n i w q e ∙ (rw t refl) in
          rw g (record { workers = ws; list = l; outcome = stopped n i (length ws) (inr t) })
    ]
  ]

  -- ntyThreadPoolCreate is asked for a number of workers, and takes 1 for 0. If it returns 0, then
  -- it has put that many into the list, and each call of malloc and pthread_create for them
  -- succeeded. Or it returns 1: then it has put fewer into the list, the calls for those succeeded,
  -- and for the next worker malloc or pthread_create failed.
  pub thread_pool_create_lem :
      (memory : ℕ → ℕ) (num_workers : ℕ)
      → (let (r, q) = thread_pool_create malloc pthread_create memory num_workers in
          let asked = if num_workers == 0 then 1 else num_workers in
          (ws : List ℕ) × IsList (q.workers) ws
          × (((r ≡ 0)
                × (length ws ≡ asked)
                × ((j : ℕ) → j < asked → (malloc j ≢ none) × (pthread_create j ≡ true)))
              ⊎ ((r ≡ 1)
                  × (length ws < asked)
                  × ((j : ℕ) → j < length ws → (malloc j ≢ none) × (pthread_create j ≡ true))
                  × ((malloc (length ws) ≡ none) ⊎ (pthread_create (length ws) ≡ false)))))
  unfolding thread_pool_create blank
  thread_pool_create_lem memory num_workers =
      let asked = if num_workers == 0 then 1 else num_workers in
      let c =
        create_loop-Created asked 0 (blank memory) []
          (record { chain = refl; distinct = tt; first = tt }) tt in
      (
        c.workers,
        c.list,
        elim c.outcome [
          | inl (e, l, a) ↦ inl (e, omega arith, λ j b. a j (omega arith) (omega arith))
          | inr (e, k, lt, l, a, f) ↦
              let q : 0 + k ≡ length c.workers = omega arith in
              inr (e, omega arith, λ j b. a j (omega arith) (omega arith), rw q at f)
        ],
      )
