-- ===== src/Deadlock/Cycle/Sound.antt =====
-- A reported deadlock is one, as long as no thread waits for two.
use basic_component_design.Common.{
  ℕ, zero, suc, ◌-◌, ◌≤◌, ◌<◌, ◌≡◌, ◌⊎◌, inl, inr, refl, sym, ◌∙◌, true, false, Option, some, List,
  [], ◌∷◌, arith, length, Bool-cases, ◌==◌,
}
use basic_component_design.Deadlock.Graph.{Vertex, next_of, AmongTargets}
use basic_component_design.Deadlock.Graph.Closed.{Closed, search_vertex-lt}
use basic_component_design.Deadlock.Cycle.{
  Search, push_path, mark, dfs, dfs_edges, reset, fuel_of, cycle_edges, search_for_cycle,
  check_from, check_dead_lock, Edge, edge, Reach, here, step, Walk, Cycle,
}
use basic_component_design.Deadlock.Cycle.Ends.{
  dfs_edges-cons, dfs_first, dfs_returns, dfs-Ends, cycle_edges-cons, check_from-false,
  search_for_cycle_ends, unseen-le, unseen-update, seen,
}

at_most_one {ℓ} : {A : Type ℓ} (xs : List A) → length xs ≤ 1 → (xs ≡ []) ⊎ ((x : A) × (xs ≡ x ∷ []))
at_most_one [] h = inl refl
at_most_one (x ∷ []) h = inr (x, refl)
at_most_one (x ∷ y ∷ xs) h = absurd (omega arith)

-- Every vertex has one edge at most: a thread waits for one lock at a time.
abbrev pub IsSingle : List Vertex → Type 0
IsSingle l = (u : ℕ) → length (next_of l u) ≤ 1

module _ (l : List Vertex) (c : Closed l) (single : IsSingle l) where
  -- A walk leads from every visited vertex to `x`.
  abbrev Leads : ℕ → Search → Type 0
  Leads x s = (u : ℕ) → u < length l → s.visited u ≡ true → Walk l u x

  Reach-snoc : {u v w : ℕ} → Reach l u v → Edge l v w → Reach l u w
  Reach-snoc (here _) e = step e (here _)
  Reach-snoc (step f r) e = step f (Reach-snoc r e)

  Leads-next : (x y : ℕ) (s : Search) → Leads x s → Edge l x y → Leads y (push_path x (mark x s))
  unfolding push_path mark
  Leads-next x y s h e u lt v = elim (Bool-cases (x == u)) [
    | inl q ↦
        let x-u : x ≡ u = ground arith in rw (← x-u) (record { out = y; first = e; back = here y })
    | inr q ↦
        let k = h u lt (ground arith) in
        record { out = k.out; first = k.first; back = Reach-snoc k.back e }
  ]

  deadlock-dfs_edges :
      (go : Option ℕ → Search → Option Search) (s t : Search)
      → dfs_edges go l [] s ≡ some t
      → s.deadlock ≡ t.deadlock
  unfolding dfs_edges
  deadlock-dfs_edges go s t h = ground arith

  dfs_sound :
      (fuel x : ℕ) (s t : Search)
      → x < length l
      → seen l s < fuel
      → Leads x s
      → dfs fuel l (some x) s ≡ some t
      → s.deadlock ≡ false
      → t.deadlock ≡ true
      → (j : ℕ) × Cycle l j
  dfs_sound zero x s t lt le h r d d' = absurd (omega arith)
  dfs_sound (suc fuel) x s t lt le h r d d' = elim (Bool-cases (s.visited x)) [
    | inl e ↦ (x, h x lt e)
    | inr e ↦
        let s1 : Search = push_path x (mark x s) in
        let r1 : dfs_edges (dfs fuel l) l (next_of l x) s1 ≡ some t =
          sym (dfs_first l fuel x s e) ∙ r in
        let le1 : seen l s1 < fuel =
          unfold push_path mark in omega (arith, unseen-update (length l) s.visited x lt e) in
        elim (at_most_one (next_of l x) (single x)) [
          | inl q ↦ absurd (
              cc (
                deadlock-dfs_edges (dfs fuel l) s1 t (rw q at r1),
                (let d1 : s1.deadlock ≡ false = unfold push_path mark in d in d1),
              ))
          | inr (u, q) ↦
              let m : AmongTargets u (next_of l x) = rw q (inl refl) in
              let (y, f) = c x u m in
              let (s2, e2, _) = dfs-Ends l c fuel y s1 (search_vertex-lt l u f) le1 in
              let r2 : dfs_edges (dfs fuel l) l [] (record s2 { k = s2.k - 1 }) ≡ some t =
                sym (dfs_edges-cons l fuel u [] y s1 s2 f e2) ∙ (rw q at r1) in
              dfs_sound fuel y s1 s2 (search_vertex-lt l u f) le1 (Leads-next x y s h (edge u m f))
                e2 (unfold push_path mark in d) (deadlock-dfs_edges (dfs fuel l) _ t r2 ∙ d')
        ]
  ]

  visited-reset : (i v : ℕ) (r : Search) → v < length l → (reset l i r).visited v ≡ true → v ≡ i
  unfolding reset
  visited-reset i v r lt w = ground arith

  search_for_cycle_sound :
      (idx : ℕ) (s t : Search)
      → search_for_cycle l idx s ≡ some t
      → s.deadlock ≡ false
      → t.deadlock ≡ true
      → (j : ℕ) × Cycle l j
  unfolding search_for_cycle cycle_edges push_path mark
  search_for_cycle_sound idx s t h d d' = elim (at_most_one (next_of l idx) (single idx)) [
    | inl q ↦ absurd (cc (rw q at h))
    | inr (u, q) ↦
        let m : AmongTargets u (next_of l idx) = rw q (inl refl) in
        let (y, f) = c idx u m in
        let s0 : Search = push_path idx (record (mark idx s) { k = 0 }) in
        let (s1, e1, _) = dfs_returns l c y (reset l idx s0) (search_vertex-lt l u f) in
        let h1 : cycle_edges l idx (u ∷ []) s0 ≡ some t = rw q at h in
        let h2 : s1 ≡ t = cc (sym (cycle_edges-cons l idx u [] y s0 s1 f e1) ∙ h1) in
        dfs_sound (fuel_of l) y (reset l idx s0) s1 (search_vertex-lt l u f)
          (omega (arith, unseen-le (length l) (reset l idx s0).visited))
          (λ v lt w.
            rw (visited-reset idx v s0 lt w)
              (record { out = y; first = edge u m f; back = here y }))
          e1 (unfold reset in d) (rw h2 d')
  ]

  check_from_sound :
      (n i : ℕ) (s t : Search)
      → check_from l n i s ≡ some t
      → s.deadlock ≡ false
      → t.deadlock ≡ true
      → (j : ℕ) × Cycle l j
  unfolding check_from
  check_from_sound zero i s t h d d' = absurd (cc)
  check_from_sound (suc n) i s t h d d' =
      let (s1, e1, _) = search_for_cycle_ends l c i s in
      let h2 = sym (check_from-false l n i s s1 d e1) ∙ h in
      elim (Bool-cases s1.deadlock) [
        | inl q ↦ search_for_cycle_sound i s s1 e1 d q
        | inr q ↦ check_from_sound n (suc i) s1 t h2 q d'
      ]

-- Where each thread waits for one other at most, a deadlock that check_dead_lock reports is one:
-- there is a cycle of threads that wait for one another.
pub check_dead_lock_sound :
    (l : List Vertex) (s t : Search)
    → Closed l
    → IsSingle l
    → check_dead_lock l s ≡ some t
    → t.deadlock ≡ true
    → (j : ℕ) × Cycle l j
unfolding check_dead_lock
check_dead_lock_sound l s t c single h = check_from_sound l c single (length l) 0 _ t h refl
