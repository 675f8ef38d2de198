-- ===== src/MemPool/Release.antt =====
-- mp_free, mp_reset_pool and mp_destory_pool: what is given back to the system, and how often.
use basic_component_design.Common.{
  ℕ, ◌+◌, ◌≡◌, inl, inr, refl, true, false, Option, none, some, List, [], ◌∷◌, map, arith, ◌==◌,
  if◌then◌else◌, count, All, Option-cases,
}
use native.Mathlib.Decide.{ℕ_discrete}
use basic_component_design.MemPool.{Node, Large, Memory, sizeof_node, free}

-- The loop of mp_free: the block is given back at the first struct that names it.
unfoldable pub forget : ℕ → List Large → Option (List Large)
forget p [] = none
forget p (l ∷ ls) =
    let rest : Option (List Large) = elim (forget p ls) [
      | none ↦ none
      | some ls' ↦ some (l ∷ ls')
    ] in
    elim l.alloc [
      | none ↦ rest
      | some q ↦ if p == q then some (record l { alloc = none } ∷ ls) else rest
    ]

-- For a pointer that is not null.
unfoldable pub mp_free : ℕ → Memory → Memory
unfolding free
mp_free p s = elim (forget p s.pool.large) [
  | none ↦ s
  | some large ↦ free p (record s { pool = record (s.pool) { large = large } })
]

-- The first loop of mp_reset_pool and mp_destory_pool.
unfoldable pub free_large : List Large → List ℕ → List ℕ
free_large [] freed = freed
free_large (l ∷ ls) freed = free_large ls (elim l.alloc [ none ↦ freed | some p ↦ p ∷ freed ])

abbrev pub rewound : Node → Node
rewound h = record h { last = h.base + sizeof_node }

unfoldable pub mp_reset_pool : Memory → Memory
mp_reset_pool s = record s {
  pool = record (s.pool) { large = []; nodes = map rewound s.pool.nodes };
  freed = free_large s.pool.large s.freed;
}

unfoldable pub free_nodes : List Node → List ℕ → List ℕ
free_nodes [] freed = freed
free_nodes (h ∷ hs) freed = free_nodes hs (h.base ∷ freed)

-- What is freed, the last first; the head lies in the pool's own block.
unfoldable pub mp_destory_pool : Memory → List ℕ
mp_destory_pool s =
    let freed = free_large s.pool.large s.freed in
    elim s.pool.nodes [
      | [] ↦ s.pool.address ∷ freed
      | h ∷ hs ↦ s.pool.address ∷ free_nodes hs freed
    ]

-- How many of the large blocks begin at `x`.
abbrev pub held : ℕ → List Large → ℕ
held x [] = 0
held x (l ∷ ls) = elim l.alloc [ none ↦ 0 | some y ↦ if x == y then 1 else 0 ] + held x ls

-- How many nodes do.
abbrev pub headed : ℕ → List Node → ℕ
headed x [] = 0
headed x (h ∷ hs) = (if x == h.base then 1 else 0) + headed x hs

forget-held :
    (p x : ℕ) (ls ls' : List Large)
    → forget p ls ≡ some ls'
    → held x ls' + (if x == p then 1 else 0) ≡ held x ls
unfolding forget
forget-held p x [] ls' e = absurd (cc)
forget-held p x (l ∷ ls) ls' e = elim (Option-cases l.alloc) [
  | inl n ↦ elim (Option-cases (forget p ls)) [
    | inl k ↦ absurd (cc (rw (k, forget) at (rw (n, forget) at e)))
    | inr (ks, k) ↦
        let e' = rw (k, forget) at (rw (n, forget) at e) in
        let q : (l ∷ ks) ≡ ls' = cc e' in rw (← q) (simp n (omega (arith, forget-held p x ls ks k)))
  ]
  | inr (y, n) ↦ elim (ℕ_discrete p y) [
    | yes j ↦
        let t : (p == y) ≡ true = ground arith in
        let q : (record l { alloc = none } ∷ ls) ≡ ls' =
          cc (rw (t, forget) at (rw (n, forget) at e)) in
        rw (← q) (simp n (rw j (omega arith)))
    | no j ↦
        let t : (p == y) ≡ false = ground arith in
        elim (Option-cases (forget p ls)) [
          | inl k ↦ absurd (cc (rw (k, forget) at (rw (t, forget) at (rw (n, forget) at e))))
          | inr (ks, k) ↦
              let e' = rw (k, forget) at (rw (t, forget) at (rw (n, forget) at e)) in
              let q : (l ∷ ks) ≡ ls' = cc e' in
              rw (← q) (simp n (omega (arith, forget-held p x ls ks k)))
        ]
  ]
]

free_large-count :
    (x : ℕ) (ls : List Large) (freed : List ℕ)
    → count x (free_large ls freed) ≡ held x ls + count x freed
unfolding free_large
free_large-count x [] freed = omega arith
free_large-count x (l ∷ ls) freed = elim (Option-cases l.alloc) [
  | inl n ↦ rw (n, free_large) (omega (arith, free_large-count x ls freed))
  | inr (y, n) ↦ rw (n, free_large) (omega (arith, free_large-count x ls (y ∷ freed)))
]

free_nodes-count :
    (x : ℕ) (hs : List Node) (freed : List ℕ)
    → count x (free_nodes hs freed) ≡ headed x hs + count x freed
unfolding free_nodes
free_nodes-count x [] freed = omega arith
free_nodes-count x (h ∷ hs) freed = omega (arith, free_nodes-count x hs (h.base ∷ freed))

-- mp_free gives a block back as often as it takes it off the large blocks, so that no block is freed
-- twice and none gets lost.
pub mp_free-count :
    (p x : ℕ) (s : Memory)
    → held x (mp_free p s).pool.large + count x (mp_free p s).freed
      ≡ held x s.pool.large + count x s.freed
unfolding mp_free free
mp_free-count p x s = elim (Option-cases (forget p s.pool.large)) [
  | inl n ↦ rw (n, mp_free) refl
  | inr (large, n) ↦ rw (n, mp_free) (omega (arith, forget-held p x s.pool.large large n))
]

-- mp_reset_pool frees each large block once and forgets it, and each node, the head and the others,
-- is left with all that lies behind its header.
mp_reset_pool_lem :
    (x : ℕ) (s : Memory)
    → (held x (mp_reset_pool s).pool.large ≡ 0)
      × (count x (mp_reset_pool s).freed ≡ held x s.pool.large + count x s.freed)
      × All (λ p. p.last ≡ p.base + sizeof_node) (mp_reset_pool s).pool.nodes
unfolding mp_reset_pool
mp_reset_pool_lem x s = (refl, free_large-count x s.pool.large s.freed, rewind s.pool.nodes)
  where
    rewind : (ps : List Node) → All (λ p. p.last ≡ p.base + sizeof_node) (map rewound ps)
    rewind [] = tt
    rewind (p ∷ ps) = (refl, rewind ps)

-- mp_destory_pool gives back each large block once, each node behind the head once, and the pool's
-- own block once.
pub mp_destory_pool_lem :
    (x : ℕ) (s : Memory) (h : Node) (hs : List Node)
    → s.pool.nodes ≡ h ∷ hs
    → count x (mp_destory_pool s)
      ≡ (if x == s.pool.address then 1 else 0) + headed x hs + held x s.pool.large + count x s.freed
unfolding mp_destory_pool
mp_destory_pool_lem x s h hs e =
    rw (e, mp_destory_pool)
      (omega (
        arith,
        free_nodes-count x hs (free_large s.pool.large s.freed),
        free_large-count x s.pool.large s.freed,
      ))
