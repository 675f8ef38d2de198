-- ===== src/Deadlock/Cycle/Complete.antt =====
-- No cycle goes unreported: if check_dead_lock finds no deadlock then the graph has no cycle.
use native.Mathlib.Decide.{ℕ_discrete}
use basic_component_design.Common.{
  ◌⊎◌, ℕ, zero, suc, ◌+◌, ◌-◌, ◌≤◌, ◌<◌, ◌≡◌, inl, inr, refl, sym, ap, ◌∙◌, true, false, some, List,
  [], ◌∷◌, arith, length, Bool-cases,
}
use basic_component_design.Deadlock.Graph.{SourceType, Vertex, search_vertex, next_of, AmongTargets}
use basic_component_design.Deadlock.Graph.Closed.{Closed, search_vertex-lt}
use basic_component_design.Deadlock.Cycle.{
  Search, push_path, mark, report, print_deadlock, dfs, dfs_edges, reset, fuel_of, cycle_edges,
  search_for_cycle, check_from, check_dead_lock, Edge, edge, Reach, here, step, Walk, Cycle,
}
use basic_component_design.Deadlock.Cycle.Ends.{
  dfs_edges-cons, dfs_again, dfs_first, dfs_returns, dfs-Ends, dfs_edges-Ends, cycle_edges-cons,
  cycle_edges_ends, check_from-true, check_from-false, search_for_cycle_ends, check_dead_lock_ends,
  unseen-le, unseen_mono, unseen-update, seen, AllFound,
}

module _ (l : List Vertex) (c : Closed l) where
  -- A vertex that the call from `x` in the state `s` may reach was not visited before.
  abbrev Avoids : ℕ → Search → Type 0
  Avoids x s = (w : ℕ) → Reach l x w → s.visited w ≡ false

  abbrev AvoidsAll : List SourceType → Search → Type 0
  AvoidsAll ts s =
      (t : SourceType) (x : ℕ) → AmongTargets t ts → search_vertex l t ≡ some x → Avoids x s

  Avoids-mono :
      (x : ℕ) (s s' : Search)
      → ((i : ℕ) → s.visited i ≡ true → s'.visited i ≡ true)
      → Avoids x s'
      → Avoids x s
  Avoids-mono x s s' h a w r = ground (arith, h w, a w r)

  dfs_edges-Avoids :
      (fuel : ℕ)
      → ((x : ℕ) (s t : Search)
          → x < length l
          → seen l s < fuel
          → dfs fuel l (some x) s ≡ some t
          → t.deadlock ≡ false
          → Avoids x s)
      → (ts : List SourceType) (s t : Search) → AllFound l ts
      → seen l s < fuel
      → dfs_edges (dfs fuel l) l ts s ≡ some t
      → t.deadlock ≡ false
      → AvoidsAll ts s
  dfs_edges-Avoids fuel call [] s t f lt h d = λ u x m e. absurd m
  dfs_edges-Avoids fuel call (u ∷ ts) s t f lt h d =
      let (x, e) = f u (inl refl) in
      let (s1, e1, g1) = dfs-Ends l c fuel x s (search_vertex-lt l u e) lt in
      let s2 : Search = record s1 { k = s1.k - 1 } in
      let lt2 : seen l s2 < fuel =
        omega (arith, unseen_mono (length l) s.visited s1.visited g1.visits) in
      let h2 = sym (dfs_edges-cons l fuel u ts x s s1 e e1) ∙ h in
      let (t', e', g') = dfs_edges-Ends l fuel (dfs-Ends l c fuel) ts s2 (λ v m. f v (inr m)) lt2 in
      let same : t' ≡ t = cc (sym e' ∙ h2) in
      let d1 : s1.deadlock ≡ false = ground (arith, g'.stays, same) in
      λ v y m e''. elim m [
        | inl q ↦
            let y-x : y ≡ x = cc (ap (search_vertex l) q) in
            rw y-x (call x s s1 (search_vertex-lt l u e) lt e1 d1)
        | inr m' ↦
            Avoids-mono y s s2 g1.visits
              (dfs_edges-Avoids fuel call ts s2 t (λ v m. f v (inr m)) lt2 h2 d v y m' e'')
      ]

  -- Nothing is reached from `x` but `x` and what its targets reach.
  Avoids-next :
      (x w : ℕ) (s : Search)
      → s.visited x ≡ false
      → AvoidsAll (next_of l x) s
      → Reach l x w
      → s.visited w ≡ false
  Avoids-next x w s e a (here _) = e
  Avoids-next x w s e a (step {v} (edge t m q) r) = a t v m q w r

  dfs-Avoids :
      (fuel x : ℕ) (s t : Search)
      → x < length l
      → seen l s < fuel
      → dfs fuel l (some x) s ≡ some t
      → t.deadlock ≡ false
      → Avoids x s
  unfolding report push_path mark print_deadlock
  dfs-Avoids zero x s t lt le h d = absurd (omega arith)
  dfs-Avoids (suc fuel) x s t lt le h d = elim (Bool-cases (s.visited x)) [
    | inl e ↦
        let q : report l (push_path x s) ≡ t = cc (sym (dfs_again l fuel x s e) ∙ h) in
        absurd (cc (ap (λ (r : Search). r.deadlock) q))
    | inr e ↦
        let s1 : Search = push_path x (mark x s) in
        let a =
          dfs_edges-Avoids fuel (dfs-Avoids fuel) (next_of l x) s1 t (c x)
            (omega (arith, unseen-update (length l) s.visited x lt e))
            (sym (dfs_first l fuel x s e) ∙ h) d in
        λ w r.
          Avoids-next x w s e (λ u y m q. Avoids-mono y s s1 (λ i k. ground arith) (a u y m q)) r
  ]

  -- A vertex that is visited before each call is not reached from any target.
  cycle_edges_avoids :
      (idx : ℕ) (ts : List SourceType) (s t : Search)
      → AllFound l ts
      → s.visited idx ≡ true
      → cycle_edges l idx ts s ≡ some t
      → t.deadlock ≡ false
      → (u : SourceType) (x : ℕ) → AmongTargets u ts
      → search_vertex l u ≡ some x
      → ¬ Reach l x idx
  unfolding reset
  cycle_edges_avoids idx [] s t f v h d u x m e r = absurd m
  cycle_edges_avoids idx (y ∷ ts) s t f v h d u x m e r =
      let (z, q) = f y (inl refl) in
      let (s1, e1, g1) = dfs_returns l c z (reset l idx s) (search_vertex-lt l y q) in
      let h2 = sym (cycle_edges-cons l idx y ts z s s1 q e1) ∙ h in
      let (t', e', g') = cycle_edges_ends l c idx ts s1 (λ v m. f v (inr m)) in
      let same : t' ≡ t = cc (sym e' ∙ h2) in
      let d1 : s1.deadlock ≡ false = ground (arith, g'.stays, same) in
      let v0 : (reset l idx s).visited idx ≡ true = ground arith in
      elim m [
        | inl p ↦
            let x-z : x ≡ z = cc (ap (search_vertex l) p) in
            absurd (
              cc (
                v0,
                dfs-Avoids (fuel_of l) z (reset l idx s) s1 (search_vertex-lt l y q)
                    (omega (arith, unseen-le (length l) (reset l idx s).visited)) e1 d1 idx
                    (rw x-z at r),
              ))
        | inr m' ↦
            cycle_edges_avoids idx ts s1 t (λ v m. f v (inr m)) (g1.visits idx v0) h2 d u x m' e r
      ]

  search_for_cycle_avoids :
      (idx : ℕ) (s t : Search)
      → search_for_cycle l idx s ≡ some t
      → t.deadlock ≡ false
      → ¬ Cycle l idx
  unfolding search_for_cycle push_path mark
  search_for_cycle_avoids idx s t h d k = no_edge k.first k.back
    where
      no_edge : {x : ℕ} → Edge l idx x → ¬ Reach l x idx
      no_edge {x} (edge u m e) =
          cycle_edges_avoids idx (next_of l idx) _ t (c idx) (ground arith) h d u x m e

  check_from_stays :
      (n i : ℕ) (s t : Search) → check_from l n i s ≡ some t → s.deadlock ≡ true → t.deadlock ≡ true
  unfolding check_from
  check_from_stays zero i s t h e = ground arith
  check_from_stays (suc n) i s t h e =
      let q : s ≡ t = cc (sym (check_from-true l n i s e) ∙ h) in rw (← q) e

  check_from_avoids :
      (n i : ℕ) (s t : Search)
      → check_from l n i s ≡ some t
      → t.deadlock ≡ false
      → (j : ℕ) → i ≤ j
      → j < i + n
      → ¬ Cycle l j
  unfolding check_from
  check_from_avoids zero i s t h d j le lt k = absurd (omega arith)
  check_from_avoids (suc n) i s t h d j le lt k = elim (Bool-cases s.deadlock) [
    | inl e ↦ absurd (cc (check_from_stays (suc n) i s t h e))
    | inr e ↦
        let (s1, e1, _) = search_for_cycle_ends l c i s in
        let h2 = sym (check_from-false l n i s s1 e e1) ∙ h in
        elim (Bool-cases s1.deadlock) [
          | inl q ↦ absurd (cc (check_from_stays n (suc i) s1 t h2 q))
          | inr q ↦ elim (ℕ_discrete j i) [
            | yes p ↦ search_for_cycle_avoids i s s1 e1 q (rw p at k)
            | no ne ↦ check_from_avoids n (suc i) s1 t h2 d j (omega arith) (omega arith) k
          ]
        ]
  ]

next_of_past :
    (l : List Vertex) (u : ℕ) (t : SourceType) → AmongTargets t (next_of l u) → u < length l
unfolding next_of
next_of_past [] u t m = absurd m
next_of_past (v ∷ l) zero t m = omega arith
next_of_past (v ∷ l) (suc u) t m = omega (arith, next_of_past l u t m)

Walk-lt : {l : List Vertex} {u w : ℕ} → Walk l u w → u < length l
Walk-lt {l} {u} k = from k.first
  where
    from : {x : ℕ} → Edge l u x → u < length l
    from (edge t m e) = next_of_past l u t m

-- On a closed graph check_dead_lock ends, and where it does not report a deadlock there is no cycle
-- of threads that wait for one another.
pub check_dead_lock_complete :
    (l : List Vertex) (s : Search)
    → Closed l
    → (t : Search) × (check_dead_lock l s ≡ some t)
      × ((t.deadlock ≡ true) ⊎ ((j : ℕ) → ¬ Cycle l j))
unfolding check_dead_lock
check_dead_lock_complete l s c =
    let (t, h) = check_dead_lock_ends l c s in
    (
      t,
      h,
      elim (Bool-cases t.deadlock) [
        | inl d ↦ inl d
        | inr d ↦ inr (λ j k.
            check_from_avoids l c (length l) 0 _ t h d j (omega arith) (omega (arith, Walk-lt k)) k)
      ],
    )
