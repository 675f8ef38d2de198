-- ===== src/Deadlock/Cycle.antt =====
-- The search for a cycle: DFS, search_for_cycle and check_dead_lock of deadlock_success.c.
pub mod Ends
pub mod Complete
pub mod Sound
use basic_component_design.Common.{
  ℕ, zero, suc, ◌+◌, ◌-◌, ◌≡◌, Bool, true, false, not, ◌&&◌, ◌||◌, Option, none, some, List, [],
  ◌∷◌, ◌++◌, ◌==◌, leb, ltb, length, if◌then◌else◌, update, u32_max,
}
use basic_component_design.Deadlock.Graph.{SourceType, Vertex, search_vertex, next_of, AmongTargets}

abbrev pub max : ℕ
max = 100

-- The global variables of the search, with what print_deadlock has printed, the last line first.
-- -1 in `path` is `u32_max`.
pub record Search : Type 0 where
  pub path : ℕ → ℕ
  pub visited : ℕ → Bool
  pub k : ℕ
  pub deadlock : Bool
  pub printed : List (List ℕ)

-- tg->list[i].s.id
unfoldable pub id_of : List Vertex → ℕ → ℕ
id_of [] i = 0
id_of (v ∷ l) zero = v.s.id
id_of (v ∷ l) (suc i) = id_of l i

-- The ids along path[i], …, path[i + n - 1].
unfoldable pub ids_along : List Vertex → (ℕ → ℕ) → ℕ → ℕ → List ℕ
ids_along l path zero i = []
ids_along l path (suc n) i = id_of l (path i) ∷ ids_along l path n (suc i)

unfoldable pub print_deadlock : List Vertex → Search → Search
print_deadlock l st = record st { printed = ids_along l st.path st.k 0 ∷ st.printed }

-- path[k++] = idx;
unfoldable pub push_path : ℕ → Search → Search
push_path idx st = record st { path = update st.path st.k idx; k = st.k + 1 }

unfoldable pub mark : ℕ → Search → Search
mark idx st = record st { visited = update st.visited idx true }

unfoldable pub report : List Vertex → Search → Search
unfolding print_deadlock
report l st = record (print_deadlock l st) { deadlock = true }

-- The loop over the edges of a vertex, with `go` for the call of DFS.
unfoldable pub dfs_edges :
    (Option ℕ → Search → Option Search) → List Vertex → List SourceType → Search → Option Search
dfs_edges go l [] st = some st
dfs_edges go l (t ∷ ts) st = elim (go (search_vertex l t) st) [
  | none ↦ none
  | some st' ↦ dfs_edges go l ts (record st' { k = st'.k - 1 })
]

-- DFS; `none` is a read of list[-1], or that the fuel ran out.
unfoldable pub dfs : ℕ → List Vertex → Option ℕ → Search → Option Search
unfolding push_path mark report
dfs zero l idx st = none
dfs (suc fuel) l none st = none
dfs (suc fuel) l (some idx) st = elim (st.visited idx) [
  | true ↦ some (report l (push_path idx st))
  | false ↦ dfs_edges (dfs fuel l) l (next_of l idx) (push_path idx (mark idx st))
]

-- The two loops at the head of a round of search_for_cycle, and k = 1.
unfoldable pub reset : List Vertex → ℕ → Search → Search
reset l idx st = record st {
  visited = λ i. if not (i == idx) && ltb i (length l) then false else st.visited i;
  path = λ i. if leb 1 i && leb i max then u32_max else st.path i;
  k = 1;
}

-- Enough for a path through all vertices and back.
abbrev pub fuel_of : List Vertex → ℕ
fuel_of l = suc (suc (length l))

unfoldable pub cycle_edges : List Vertex → ℕ → List SourceType → Search → Option Search
unfolding reset
cycle_edges l idx [] st = some st
cycle_edges l idx (t ∷ ts) st = elim (dfs (fuel_of l) l (search_vertex l t) (reset l idx st)) [
  | none ↦ none
  | some st' ↦ cycle_edges l idx ts st'
]

unfoldable pub search_for_cycle : List Vertex → ℕ → Search → Option Search
unfolding push_path mark
search_for_cycle l idx st =
    cycle_edges l idx (next_of l idx) (push_path idx (record (mark idx st) { k = 0 }))

-- The loop of check_dead_lock over `n` vertices from `i` on.
unfoldable pub check_from : List Vertex → ℕ → ℕ → Search → Option Search
check_from l zero i st = some st
check_from l (suc n) i st = elim st.deadlock [
  | true ↦ some st
  | false ↦ elim (search_for_cycle l i st) [ none ↦ none | some st' ↦ check_from l n (suc i) st' ]
]

unfoldable pub check_dead_lock : List Vertex → Search → Option Search
check_dead_lock l st = check_from l (length l) 0 (record st { deadlock = false })

-- The graph that is searched: an edge leads to the vertex that search_vertex finds.
pub data Edge (l : List Vertex) (u v : ℕ) : Type 0 where
  edge : (t : SourceType) → AmongTargets t (next_of l u) → search_vertex l t ≡ some v → Edge l u v

pub data Reach (l : List Vertex) : ℕ → ℕ → Type 0 where
  here : (u : ℕ) → Reach l u u
  step : {u v w : ℕ} → Edge l u v → Reach l v w → Reach l u w

-- A walk of one edge or more, and a cycle as one that comes back.
pub record Walk (l : List Vertex) (u w : ℕ) : Type 0 where
  pub out : ℕ
  pub first : Edge l u out
  pub back : Reach l out w

abbrev pub Cycle : List Vertex → ℕ → Type 0
Cycle l u = Walk l u u
