-- ===== src/Deadlock/Graph.antt =====
-- The task graph: struct task_graph of deadlock_success.c, its vertices and their lists of edges.
-- `list` holds the first `num` vertices; a vertex's `next` chain is the list of the targets' data.
-- The code does not check that `num` stays below MAX.
pub mod Closed
pub mod Edges
use basic_component_design.Common.{
  ℕ, zero, suc, ◌+◌, ◌≡◌, ◌⊎◌, Bool, true, false, ◌&&◌, ◌||◌, Option, none, some, List, [], ◌∷◌,
  ◌++◌, ◌==◌, length, if◌then◌else◌,
}

pub data Kind : Type 0 where
  process resource : Kind

abbrev pub kind_eq : Kind → Kind → Bool
kind_eq process process = true
kind_eq resource resource = true
kind_eq _ _ = false

pub record SourceType : Type 0 where
  pub id : ℕ
  pub type : Kind
  pub lock_id : ℕ
  pub degress : ℕ

pub record Vertex : Type 0 where
  pub s : SourceType
  pub next : List SourceType

-- The test by which search_vertex tells vertices apart.
abbrev pub same_vertex : SourceType → SourceType → Bool
same_vertex a b = kind_eq a.type b.type && a.id == b.id

-- The loop of search_vertex from the index `i` on; `none` is -1.
unfoldable pub search_from : ℕ → List Vertex → SourceType → Option ℕ
search_from i [] t = none
search_from i (v ∷ l) t = if same_vertex v.s t then some i else search_from (suc i) l t

unfoldable pub search_vertex : List Vertex → SourceType → Option ℕ
search_vertex l t = search_from 0 l t

unfoldable pub create_vertex : SourceType → Vertex
create_vertex t = record { s = t; next = [] }

unfoldable pub add_vertex : List Vertex → SourceType → List Vertex
unfolding create_vertex
add_vertex l t = elim (search_vertex l t) [ none ↦ l ++ create_vertex t ∷ [] | some _ ↦ l ]

-- Walks to the end of the chain of the vertex `i`, and hangs the target there.
unfoldable pub append_edge : List Vertex → ℕ → SourceType → List Vertex
append_edge [] i to = []
append_edge (v ∷ l) zero to = record v { next = v.next ++ to ∷ [] } ∷ l
append_edge (v ∷ l) (suc i) to = v ∷ append_edge l i to

-- Both vertices are there after the two calls, so the index is never -1.
unfoldable pub add_edge : List Vertex → SourceType → SourceType → List Vertex
add_edge l from to =
    let l' = add_vertex (add_vertex l from) to in
    elim (search_vertex l' from) [ none ↦ l' | some i ↦ append_edge l' i to ]

unfoldable pub any_id : ℕ → List SourceType → Bool
any_id x [] = false
any_id x (t ∷ ts) = t.id == x || any_id x ts

-- The chain of the vertex `i`, and with the vertex itself in front.
unfoldable pub next_of : List Vertex → ℕ → List SourceType
next_of [] i = []
next_of (v ∷ l) zero = v.next
next_of (v ∷ l) (suc i) = next_of l i

unfoldable pub chain_of : List Vertex → ℕ → List SourceType
chain_of [] i = []
chain_of (v ∷ l) zero = v.s ∷ v.next
chain_of (v ∷ l) (suc i) = chain_of l i

-- The walk starts at the vertex itself.
unfoldable pub verify_edge : List Vertex → SourceType → SourceType → Bool
verify_edge l i j =
    if length l == 0
    then false
    else elim (search_vertex l i) [ none ↦ false | some idx ↦ any_id j.id (chain_of l idx) ]

-- The walk of remove_edge unlinks the first target with the id.
unfoldable pub unlink : ℕ → List SourceType → List SourceType
unlink x [] = []
unlink x (t ∷ ts) = if t.id == x then ts else t ∷ unlink x ts

unfoldable pub unlink_at : List Vertex → ℕ → ℕ → List Vertex
unlink_at [] i x = []
unlink_at (v ∷ l) zero x = record v { next = unlink x v.next } ∷ l
unlink_at (v ∷ l) (suc i) x = v ∷ unlink_at l i x

unfoldable pub remove_edge : List Vertex → SourceType → SourceType → List Vertex
remove_edge l from to = elim (search_vertex l from) [
  | none ↦ l
  | some idxi ↦ elim (search_vertex l to) [ none ↦ l | some idxj ↦ unlink_at l idxi to.id ]
]

-- `t` stands in the chain.
abbrev pub AmongTargets : SourceType → List SourceType → Type 0
AmongTargets t [] = ⊥
AmongTargets t (x ∷ xs) = (t ≡ x) ⊎ AmongTargets t xs
