-- ===== src/MemPool/Depth.antt =====
-- How deep mp_alloc and mp_alloc_large call one another.
use basic_component_design.Common.{
  ℕ, zero, suc, ◌≤◌, ◌<◌, ◌≡◌, refl, ◌∙◌, false, Option, none, some, [], arith, leb, Option-cases,
  Bool-cases, inl, inr,
}
use basic_component_design.MemPool.{
  Memory, System, sizeof_large, reuse, attach, mp_alloc, mp_alloc_large,
}
use basic_component_design.MemPool.Fit.{mp_alloc-small}

mp_alloc-large :
    (sys : System) (fuel size : ℕ) (s : Memory)
    → s.pool.max < size
    → mp_alloc sys (suc fuel) size s ≡ mp_alloc_large sys (mp_alloc sys fuel) size s
unfolding mp_alloc
mp_alloc-large sys fuel size s h =
    let e : leb size s.pool.max ≡ false = ground arith in rw (e, mp_alloc) refl

-- mp_alloc_large ends where the call for the struct does.
mp_alloc_large-ends :
    (sys : System) (go : ℕ → Memory → Option (Option ℕ × Memory)) (size : ℕ) (s : Memory)
    → ((s' : Memory) → s'.pool ≡ s.pool → (r : Option ℕ × Memory) × (go sizeof_large s' ≡ some r))
    → (r : Option ℕ × Memory) × (mp_alloc_large sys go size s ≡ some r)
unfolding mp_alloc_large
mp_alloc_large-ends sys go size s h =
    let s' = record s { calls = suc s.calls } in
    elim (Option-cases (sys.malloc s.calls size)) [
      | inl q ↦ ((none, s'), rw (q, mp_alloc_large) refl)
      | inr (p, q) ↦ elim (Option-cases (reuse 0 p s.pool.large)) [
        | inl n ↦
            let (r, e) = h s' refl in
            (
              attach sys p r,
              rw (q, mp_alloc_large) (rw (n, mp_alloc_large) (rw (e, mp_alloc_large) refl)),
            )
        | inr (large, n) ↦ (
          (some p, record s' { pool = record (s.pool) { large = large } }),
          rw (q, mp_alloc_large) (rw (n, mp_alloc_large) refl),
        )
      ]
    ]

-- With room for 16 bytes in a small piece, mp_alloc ends: it calls itself once at most.
pub mp_alloc-ends :
    (sys : System) (fuel size : ℕ) (s : Memory)
    → sizeof_large ≤ s.pool.max
    → (r : Option ℕ × Memory) × (mp_alloc sys (suc (suc fuel)) size s ≡ some r)
mp_alloc-ends sys fuel size s h = elim (Bool-cases (leb size s.pool.max)) [
  | inl t ↦ (_, mp_alloc-small sys (suc fuel) size s (ground arith))
  | inr t ↦
      let (r, e) =
        mp_alloc_large-ends sys (mp_alloc sys (suc fuel)) size s
          (λ s' q. (_, mp_alloc-small sys fuel sizeof_large s' (rw q h))) in
      (r, mp_alloc-large sys (suc fuel) size s (ground arith) ∙ e)
]

-- In a pool created with a size below 16, as long as malloc answers, mp_alloc calls itself for ever
-- on a size above it: no fuel is enough.
pub mp_alloc-diverges :
    (sys : System) (fuel size : ℕ) (s : Memory)
    → s.pool.max < sizeof_large
    → s.pool.large ≡ []
    → s.pool.max < size
    → ((n k : ℕ) → (p : ℕ) × (sys.malloc n k ≡ some p))
    → mp_alloc sys fuel size s ≡ none
unfolding mp_alloc mp_alloc_large reuse
mp_alloc-diverges sys zero size s h l z m = refl
mp_alloc-diverges sys (suc fuel) size s h l z m =
    let (p, q) = m s.calls size in
    let rest = mp_alloc-diverges sys fuel sizeof_large (record s { calls = suc s.calls }) h l h m in
    let e : reuse 0 p s.pool.large ≡ none = rw l refl in
    mp_alloc-large sys fuel size s z
    ∙ rw (q, mp_alloc_large) (rw (e, mp_alloc_large) (rw (rest, mp_alloc_large) refl))
