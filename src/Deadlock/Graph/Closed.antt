-- ===== src/Deadlock/Graph/Closed.antt =====
-- Every edge of the task graph leads to a vertex of it, whatever the calls.
use basic_component_design.Common.{
  ℕ, zero, suc, ◌+◌, ◌≤◌, ◌<◌, ◌≡◌, ◌⊎◌, inl, inr, refl, ap, ◌==◌, true, some, List, [], ◌∷◌, ◌++◌,
  arith, length, Option-cases, Bool-cases,
}
use basic_component_design.Deadlock.Graph.{
  SourceType, Vertex, same_vertex, search_from, search_vertex, create_vertex, add_vertex,
  append_edge, add_edge, next_of, unlink, unlink_at, remove_edge, AmongTargets,
}

search_from_bounds :
    (i : ℕ) (l : List Vertex) (t : SourceType) (j : ℕ)
    → search_from i l t ≡ some j
    → (i ≤ j) × (j < i + length l)
unfolding search_from
search_from_bounds i [] t j e = absurd (cc)
search_from_bounds i (v ∷ l) t j e = ground (arith, search_from_bounds (suc i) l t j)

-- An index that search_vertex returns is one of a vertex.
pub search_vertex-lt :
    (l : List Vertex) (t : SourceType) {j : ℕ} → search_vertex l t ≡ some j → j < length l
unfolding search_vertex
search_vertex-lt l t {j} e = omega (arith, search_from_bounds 0 l t j e)

pub search_from-append :
    (i : ℕ) (l m : List Vertex) (t : SourceType) (j : ℕ)
    → search_from i l t ≡ some j
    → search_from i (l ++ m) t ≡ some j
unfolding search_from
search_from-append i [] m t j e = absurd (cc)
search_from-append i (v ∷ l) m t j e = ground (arith, search_from-append (suc i) l m t j)

same_vertex_refl : (t : SourceType) → same_vertex t t ≡ true
same_vertex_refl t = ground arith

search_from-concat :
    (i : ℕ) (l : List Vertex) (t : SourceType)
    → (j : ℕ) × (search_from i (l ++ create_vertex t ∷ []) t ≡ some j)
unfolding search_from create_vertex
search_from-concat i [] t = (i, ground (arith, same_vertex_refl t))
search_from-concat i (v ∷ l) t = elim (Bool-cases (same_vertex v.s t)) [
  | inl e ↦ (i, rw (e, search_from) refl)
  | inr e ↦ let (j, h) = search_from-concat (suc i) l t in (j, rw (e, search_from) h)
]

-- `t` is a vertex of the graph.
abbrev pub Found : List Vertex → SourceType → Type 0
Found l t = (j : ℕ) × (search_vertex l t ≡ some j)

pub Found-add_vertex : (l : List Vertex) (s t : SourceType) → Found l t → Found (add_vertex l s) t
unfolding add_vertex search_vertex
Found-add_vertex l s t (j, e) =
    (j, ground (arith, search_from-append 0 l (create_vertex s ∷ []) t j e))

-- What was added is found.
pub add_vertex-Found : (l : List Vertex) (t : SourceType) → Found (add_vertex l t) t
unfolding add_vertex search_vertex
add_vertex-Found l t = elim (Option-cases (search_vertex l t)) [
  | inl e ↦ rw (e, add_vertex) (search_from-concat 0 l t)
  | inr (j, e) ↦ rw (e, add_vertex) (j, e)
]

pub search_from-append_edge :
    (i : ℕ) (l : List Vertex) (k : ℕ) (to t : SourceType)
    → search_from i (append_edge l k to) t ≡ search_from i l t
unfolding search_from append_edge
search_from-append_edge i [] k to t = refl
search_from-append_edge i (v ∷ l) zero to t = refl
search_from-append_edge i (v ∷ l) (suc k) to t =
    ground (arith, search_from-append_edge (suc i) l k to t)

search_from-unlink_at :
    (i : ℕ) (l : List Vertex) (k x : ℕ) (t : SourceType)
    → search_from i (unlink_at l k x) t ≡ search_from i l t
unfolding search_from unlink_at
search_from-unlink_at i [] k x t = refl
search_from-unlink_at i (v ∷ l) zero x t = refl
search_from-unlink_at i (v ∷ l) (suc k) x t = ground (arith, search_from-unlink_at (suc i) l k x t)

-- Every edge leads to a vertex, so that the index that DFS is given is never -1.
abbrev pub Closed : List Vertex → Type 0
Closed l = (u : ℕ) (t : SourceType) → AmongTargets t (next_of l u) → Found l t

AmongTargets-concat :
    (t to : SourceType) (ts : List SourceType)
    → AmongTargets t (ts ++ to ∷ [])
    → AmongTargets t ts ⊎ (t ≡ to)
AmongTargets-concat t to [] (inl e) = inr e
AmongTargets-concat t to [] (inr m) = absurd m
AmongTargets-concat t to (x ∷ ts) (inl e) = inl (inl e)
AmongTargets-concat t to (x ∷ ts) (inr m) = elim (AmongTargets-concat t to ts m) [
  | inl h ↦ inl (inr h)
  | inr e ↦ inr e
]

AmongTargets-unlink :
    (t : SourceType) (x : ℕ) (ts : List SourceType)
    → AmongTargets t (unlink x ts)
    → AmongTargets t ts
unfolding unlink
AmongTargets-unlink t x [] m = m
AmongTargets-unlink t x (y ∷ ts) m = elim (Bool-cases (y.id == x)) [
  | inl e ↦ inr (rw (e, unlink) at m)
  | inr e ↦ elim (let m' : AmongTargets t (y ∷ unlink x ts) = rw (e, unlink) at m in m') [
    | inl h ↦ inl h
    | inr h ↦ inr (AmongTargets-unlink t x ts h)
  ]
]

next_of-concat :
    (l : List Vertex) (s : SourceType) (u : ℕ) → next_of (l ++ create_vertex s ∷ []) u ≡ next_of l u
unfolding next_of create_vertex
next_of-concat [] s zero = refl
next_of-concat [] s (suc u) = refl
next_of-concat (v ∷ l) s zero = refl
next_of-concat (v ∷ l) s (suc u) = next_of-concat l s u

pub next_of-add_vertex :
    (l : List Vertex) (s : SourceType) (u : ℕ) → next_of (add_vertex l s) u ≡ next_of l u
unfolding add_vertex
next_of-add_vertex l s u = elim (Option-cases (search_vertex l s)) [
  | inl e ↦ rw (e, add_vertex) (next_of-concat l s u)
  | inr (j, e) ↦ rw (e, add_vertex) refl
]

-- What hanging a target at the vertex `k` does to each chain.
pub next_of-append_edge :
    (l : List Vertex) (k : ℕ) (to : SourceType) (u : ℕ)
    → (next_of (append_edge l k to) u ≡ next_of l u)
      ⊎ ((u ≡ k) × (next_of (append_edge l k to) u ≡ next_of l u ++ to ∷ []))
unfolding next_of append_edge
next_of-append_edge [] k to u = inl refl
next_of-append_edge (v ∷ l) zero to zero = inr (refl, refl)
next_of-append_edge (v ∷ l) zero to (suc u) = inl refl
next_of-append_edge (v ∷ l) (suc k) to zero = inl refl
next_of-append_edge (v ∷ l) (suc k) to (suc u) = elim (next_of-append_edge l k to u) [
  | inl e ↦ inl e
  | inr (e, h) ↦ inr (ap suc e, h)
]

AmongTargets-unlink_at :
    (l : List Vertex) (k x u : ℕ) (t : SourceType)
    → AmongTargets t (next_of (unlink_at l k x) u)
    → AmongTargets t (next_of l u)
unfolding next_of unlink_at
AmongTargets-unlink_at [] k x u t m = m
AmongTargets-unlink_at (v ∷ l) zero x zero t m = AmongTargets-unlink t x v.next m
AmongTargets-unlink_at (v ∷ l) zero x (suc u) t m = m
AmongTargets-unlink_at (v ∷ l) (suc k) x zero t m = m
AmongTargets-unlink_at (v ∷ l) (suc k) x (suc u) t m = AmongTargets-unlink_at l k x u t m

pub add_vertex-Closed : (l : List Vertex) (s : SourceType) → Closed l → Closed (add_vertex l s)
add_vertex-Closed l s c u t m = Found-add_vertex l s t (c u t (rw (next_of-add_vertex l s u) at m))

append_edge-Closed :
    (l : List Vertex) (k : ℕ) (to : SourceType)
    → Found l to
    → Closed l
    → Closed (append_edge l k to)
unfolding search_vertex
append_edge-Closed l k to f c u t m =
    rw (search_from-append_edge 0 l k to t) (elim (next_of-append_edge l k to u) [
      | inl e ↦ c u t (rw e at m)
      | inr (_, e) ↦ elim (AmongTargets-concat t to (next_of l u) (rw e at m)) [
        | inl h ↦ c u t h
        | inr h ↦ rw h f
      ]
    ])

-- add_edge keeps the graph closed.
pub add_edge-Closed :
    (l : List Vertex) (from to : SourceType) → Closed l → Closed (add_edge l from to)
unfolding add_edge
add_edge-Closed l from to c =
    let l' = add_vertex (add_vertex l from) to in
    let c' = add_vertex-Closed (add_vertex l from) to (add_vertex-Closed l from c) in
    elim (Option-cases (search_vertex l' from)) [
      | inl e ↦ rw (e, add_edge) c'
      | inr (i, e) ↦
          rw (e, add_edge) (append_edge-Closed l' i to (add_vertex-Found (add_vertex l from) to) c')
    ]

-- So does remove_edge.
pub remove_edge-Closed :
    (l : List Vertex) (from to : SourceType) → Closed l → Closed (remove_edge l from to)
unfolding remove_edge search_vertex
remove_edge-Closed l from to c = elim (Option-cases (search_vertex l from)) [
  | inl e ↦ rw (e, remove_edge) c
  | inr (i, e) ↦ elim (Option-cases (search_vertex l to)) [
    | inl e' ↦ rw (e, remove_edge) (rw (e', remove_edge) c)
    | inr (j, e') ↦
        rw (e, remove_edge)
          (rw (e', remove_edge)
            (λ u t m.
              rw (search_from-unlink_at 0 l i to.id t)
                (c u t (AmongTargets-unlink_at l i to.id u t m))))
  ]
]
