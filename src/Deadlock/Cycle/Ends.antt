-- ===== src/Deadlock/Cycle/Ends.antt =====
-- On a closed graph the search ends within its fuel and never reads outside the graph.
use basic_component_design.Common.{
  ℕ, zero, suc, ◌+◌, ◌-◌, ◌≤◌, ◌<◌, ◌≡◌, inl, inr, refl, ◌∙◌, Bool, true, false, Option, some, List,
  [], ◌∷◌, arith, ◌==◌, length, update, Bool-cases, if◌then◌else◌,
}
use basic_component_design.Deadlock.Graph.{SourceType, Vertex, search_vertex, next_of, AmongTargets}
use basic_component_design.Deadlock.Graph.Closed.{Closed, Found, search_vertex-lt}
use basic_component_design.Deadlock.Cycle.{
  Search, push_path, mark, report, print_deadlock, dfs, dfs_edges, reset, fuel_of, cycle_edges,
  search_for_cycle, check_from, check_dead_lock,
}

-- How many of the first `n` vertices are not visited.
pub unseen : ℕ → (ℕ → Bool) → ℕ
unseen zero f = 0
unseen (suc n) f = (if f n then 0 else 1) + unseen n f

pub unseen-le : (n : ℕ) (f : ℕ → Bool) → unseen n f ≤ n
unfolding unseen
unseen-le zero f = omega arith
unseen-le (suc n) f = ground (arith, unseen-le n f)

pub unseen_mono :
    (n : ℕ) (f g : ℕ → Bool) → ((i : ℕ) → f i ≡ true → g i ≡ true) → unseen n g ≤ unseen n f
unfolding unseen
unseen_mono zero f g h = omega arith
unseen_mono (suc n) f g h = ground (arith, h n, unseen_mono n f g h)

unseen-update_past :
    (n : ℕ) (f : ℕ → Bool) (x : ℕ) → n ≤ x → unseen n (update f x true) ≡ unseen n f
unfolding unseen
unseen-update_past zero f x h = refl
unseen-update_past (suc n) f x h = ground (arith, unseen-update_past n f x)

pub unseen-update :
    (n : ℕ) (f : ℕ → Bool) (x : ℕ)
    → x < n
    → f x ≡ false
    → suc (unseen n (update f x true)) ≡ unseen n f
unfolding unseen
unseen-update zero f x h e = absurd (omega arith)
unseen-update (suc n) f x h e = elim (Bool-cases (x == n)) [
  | inl q ↦ ground (arith, unseen-update_past n f x)
  | inr q ↦ ground (arith, unseen-update n f x)
]

-- What a call of DFS may change: it visits more, a found deadlock stays, and `k` grows by `d`.
pub record Grows (d : ℕ) (s t : Search) : Type 0 where
  pub visits : (i : ℕ) → s.visited i ≡ true → t.visited i ≡ true
  pub stays : s.deadlock ≡ true → t.deadlock ≡ true
  pub level : t.k ≡ s.k + d

module _ (l : List Vertex) where
  abbrev pub Ends : ℕ → Search → Option Search → Type 0
  Ends d s r = (t : Search) × (r ≡ some t) × Grows d s t

  abbrev pub seen : Search → ℕ
  seen s = unseen (length l) s.visited

  abbrev pub AllFound : List SourceType → Type 0
  AllFound ts = (t : SourceType) → AmongTargets t ts → Found l t

  -- One round of the loop over the edges, and the two branches of DFS.
  pub dfs_edges-cons :
      (fuel : ℕ) (t : SourceType) (ts : List SourceType) (x : ℕ) (s s' : Search)
      → search_vertex l t ≡ some x
      → dfs fuel l (some x) s ≡ some s'
      → dfs_edges (dfs fuel l) l (t ∷ ts) s
        ≡ dfs_edges (dfs fuel l) l ts (record s' { k = s'.k - 1 })
  unfolding dfs_edges
  dfs_edges-cons fuel t ts x s s' e h = rw (e, dfs_edges) (rw (h, dfs_edges) refl)

  pub dfs_again :
      (fuel x : ℕ) (s : Search)
      → s.visited x ≡ true
      → dfs (suc fuel) l (some x) s ≡ some (report l (push_path x s))
  unfolding dfs
  dfs_again fuel x s e = rw (e, dfs) refl

  pub dfs_first :
      (fuel x : ℕ) (s : Search)
      → s.visited x ≡ false
      → dfs (suc fuel) l (some x) s
        ≡ dfs_edges (dfs fuel l) l (next_of l x) (push_path x (mark x s))
  unfolding dfs
  dfs_first fuel x s e = rw (e, dfs) refl

  pub dfs_edges-Ends :
      (fuel : ℕ)
      → ((x : ℕ) (s : Search) → x < length l → seen s < fuel → Ends 1 s (dfs fuel l (some x) s))
      → (ts : List SourceType) (s : Search) → AllFound ts
      → seen s < fuel
      → Ends 0 s (dfs_edges (dfs fuel l) l ts s)
  unfolding dfs_edges
  dfs_edges-Ends fuel call [] s f lt =
      (s, refl, record { visits = λ i h. h; stays = λ h. h; level = omega arith })
  dfs_edges-Ends fuel call (t ∷ ts) s f lt =
      let (x, e) = f t (inl refl) in
      let (s1, e1, g1) = call x s (search_vertex-lt l t e) lt in
      let s2 : Search = record s1 { k = s1.k - 1 } in
      let (s3, e3, g3) =
        dfs_edges-Ends fuel call ts s2 (λ u m. f u (inr m))
          (omega (arith, unseen_mono (length l) s.visited s1.visited g1.visits)) in
      (
        s3,
        dfs_edges-cons fuel t ts x s s1 e e1 ∙ e3,
        record {
          visits = λ i h. g3.visits i (g1.visits i h);
          stays = λ h. g3.stays (g1.stays h);
          level = omega (arith, g1.level, g3.level);
        },
      )

  pub dfs-Ends :
      Closed l
      → (fuel x : ℕ) (s : Search) → x < length l
      → seen s < fuel
      → Ends 1 s (dfs fuel l (some x) s)
  unfolding push_path mark
  dfs-Ends c zero x s lt le = absurd (omega arith)
  dfs-Ends c (suc fuel) x s lt le = elim (Bool-cases (s.visited x)) [
    | inl e ↦ (
      report l (push_path x s),
      dfs_again fuel x s e,
      unfold report push_path print_deadlock in
          record { visits = λ i h. h; stays = λ h. refl; level = refl },
    )
    | inr e ↦
        let s1 : Search = push_path x (mark x s) in
        let (t, q, g) =
          dfs_edges-Ends fuel (dfs-Ends c fuel) (next_of l x) s1 (λ t m. c x t m)
            (omega (arith, unseen-update (length l) s.visited x lt e)) in
        (
          t,
          dfs_first fuel x s e ∙ q,
          record {
            visits = λ i h. g.visits i (ground arith);
            stays = g.stays;
            level = omega (arith, g.level);
          },
        )
  ]

  -- A call of DFS from search_for_cycle has fuel enough.
  pub dfs_returns :
      Closed l → (x : ℕ) (s : Search) → x < length l → Ends 1 s (dfs (fuel_of l) l (some x) s)
  dfs_returns c x s lt =
      dfs-Ends c (fuel_of l) x s lt (omega (arith, unseen-le (length l) s.visited))

  pub cycle_edges-cons :
      (idx : ℕ) (t : SourceType) (ts : List SourceType) (x : ℕ) (s s' : Search)
      → search_vertex l t ≡ some x
      → dfs (fuel_of l) l (some x) (reset l idx s) ≡ some s'
      → cycle_edges l idx (t ∷ ts) s ≡ cycle_edges l idx ts s'
  unfolding cycle_edges
  cycle_edges-cons idx t ts x s s' e h = rw (e, cycle_edges) (rw (h, cycle_edges) refl)

  -- What a call of search_for_cycle keeps: a found deadlock stays, and its own vertex is visited.
  pub record Keeps (idx : ℕ) (s t : Search) : Type 0 where
    pub visits : s.visited idx ≡ true → t.visited idx ≡ true
    pub stays : s.deadlock ≡ true → t.deadlock ≡ true

  pub cycle_edges_ends :
      Closed l
      → (idx : ℕ) (ts : List SourceType) (s : Search) → AllFound ts
      → (t : Search) × (cycle_edges l idx ts s ≡ some t) × Keeps idx s t
  unfolding cycle_edges reset
  cycle_edges_ends c idx [] s f = (s, refl, record { visits = λ h. h; stays = λ h. h })
  cycle_edges_ends c idx (t ∷ ts) s f =
      let (x, e) = f t (inl refl) in
      let (s1, e1, g1) = dfs_returns c x (reset l idx s) (search_vertex-lt l t e) in
      let (s2, e2, g2) = cycle_edges_ends c idx ts s1 (λ u m. f u (inr m)) in
      (
        s2,
        cycle_edges-cons idx t ts x s s1 e e1 ∙ e2,
        record {
          visits = λ h. g2.visits (g1.visits idx (ground arith));
          stays = λ h. g2.stays (g1.stays h);
        },
      )

  pub search_for_cycle_ends :
      Closed l
      → (idx : ℕ) (s : Search)
      → (t : Search) × (search_for_cycle l idx s ≡ some t) × (s.deadlock ≡ true → t.deadlock ≡ true)
  unfolding search_for_cycle push_path mark
  search_for_cycle_ends c idx s =
      let (t, e, g) = cycle_edges_ends c idx (next_of l idx) _ (c idx) in (t, e, g.stays)

  pub check_from-true :
      (n i : ℕ) (s : Search) → s.deadlock ≡ true → check_from l (suc n) i s ≡ some s
  unfolding check_from
  check_from-true n i s e = simp (e, check_from)

  pub check_from-false :
      (n i : ℕ) (s t : Search)
      → s.deadlock ≡ false
      → search_for_cycle l i s ≡ some t
      → check_from l (suc n) i s ≡ check_from l n (suc i) t
  unfolding check_from
  check_from-false n i s t e h = simp (e, h, check_from)

  pub check_from_ends :
      Closed l → (n i : ℕ) (s : Search) → (t : Search) × (check_from l n i s ≡ some t)
  unfolding check_from
  check_from_ends c zero i s = (s, refl)
  check_from_ends c (suc n) i s = elim (Bool-cases s.deadlock) [
    | inl e ↦ (s, check_from-true n i s e)
    | inr e ↦
        let (t, h, _) = search_for_cycle_ends c i s in
        let (u, k) = check_from_ends c n (suc i) t in (u, check_from-false n i s t e h ∙ k)
  ]

  -- On a graph whose edges all lead to vertices, check_dead_lock ends: DFS needs no more fuel than
  -- the graph has vertices, and never looks up a vertex that is not there.
  pub check_dead_lock_ends : Closed l → (s : Search) → (t : Search) × (check_dead_lock l s ≡ some t)
  unfolding check_dead_lock
  check_dead_lock_ends c s = check_from_ends c (length l) 0 (record s { deadlock = false })
