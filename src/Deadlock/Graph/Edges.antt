-- ===== src/Deadlock/Graph/Edges.antt =====
-- What verify_edge answers after the other operations on the graph.
use basic_component_design.Common.{
  ℕ, zero, suc, ◌<◌, ◌≡◌, ◌↔◌, inl, inr, refl, sym, ◌∙◌, true, false, ◌||◌, none, some, List, [],
  ◌∷◌, ◌++◌, arith, ◌==◌, length, Option-cases,
}
use basic_component_design.Deadlock.Graph.{
  SourceType, Vertex, search_from, search_vertex, create_vertex, add_vertex, append_edge, add_edge,
  any_id, chain_of, verify_edge,
}
use basic_component_design.Deadlock.Graph.Closed.{
  search_vertex-lt, search_from-append, search_from-append_edge, add_vertex-Found, Found-add_vertex,
}

-- The vertex `i` is there, and `x` is among the ids of its chain.
pub record Linked (l : List Vertex) (i : SourceType) (x : ℕ) : Type 0 where
  pub index : ℕ
  pub found : search_vertex l i ≡ some index
  pub linked : any_id x (chain_of l index) ≡ true

verify_edge-found :
    (l : List Vertex) (i j : SourceType) (idx : ℕ)
    → search_vertex l i ≡ some idx
    → verify_edge l i j ≡ any_id j.id (chain_of l idx)
unfolding verify_edge
verify_edge-found l i j idx e =
    let n : (length l == 0) ≡ false = ground (arith, search_vertex-lt l i e) in
    rw (n, verify_edge) (rw (e, verify_edge) refl)

verify_edge-missing :
    (l : List Vertex) (i j : SourceType) → search_vertex l i ≡ none → verify_edge l i j ≡ false
unfolding verify_edge
verify_edge-missing l i j e = ground arith

-- verify_edge answers whether there is such an edge, or the vertex itself has that id.
pub verify_edge-Linked :
    (l : List Vertex) (i j : SourceType) → (verify_edge l i j ≡ true) ↔ Linked l i j.id
verify_edge-Linked l i j = (
  λ h. elim (Option-cases (search_vertex l i)) [
    | inl e ↦ absurd (cc (verify_edge-missing l i j e))
    | inr (idx, e) ↦ record {
      index = idx;
      found = e;
      linked = sym (verify_edge-found l i j idx e) ∙ h;
    }
  ],
  λ k. verify_edge-found l i j k.index k.found ∙ k.linked,
)

chain_of-append : (l m : List Vertex) (i : ℕ) → i < length l → chain_of (l ++ m) i ≡ chain_of l i
unfolding chain_of
chain_of-append [] m i h = absurd (omega arith)
chain_of-append (v ∷ l) m zero h = refl
chain_of-append (v ∷ l) m (suc i) h = chain_of-append l m i (omega arith)

any_id-append :
    (x : ℕ) (ts us : List SourceType) → any_id x (ts ++ us) ≡ (any_id x ts || any_id x us)
unfolding any_id
any_id-append x [] us = refl
any_id-append x (t ∷ ts) us = ground (arith, any_id-append x ts us)

any_id-append_edge :
    (l : List Vertex) (k i x : ℕ) (to : SourceType)
    → any_id x (chain_of l i) ≡ true
    → any_id x (chain_of (append_edge l k to) i) ≡ true
unfolding chain_of append_edge any_id
any_id-append_edge [] k i x to h = h
any_id-append_edge (v ∷ l) zero zero x to h = ground (arith, any_id-append x v.next (to ∷ []))
any_id-append_edge (v ∷ l) zero (suc i) x to h = h
any_id-append_edge (v ∷ l) (suc k) zero x to h = h
any_id-append_edge (v ∷ l) (suc k) (suc i) x to h = any_id-append_edge l k i x to h

any_id-append_edge_self :
    (l : List Vertex) (k : ℕ) (to : SourceType)
    → k < length l
    → any_id to.id (chain_of (append_edge l k to) k) ≡ true
unfolding chain_of append_edge any_id
any_id-append_edge_self [] k to h = absurd (omega arith)
any_id-append_edge_self (v ∷ l) zero to h = ground (arith, any_id-append to.id v.next (to ∷ []))
any_id-append_edge_self (v ∷ l) (suc k) to h = any_id-append_edge_self l k to (omega arith)

-- No edge is lost when a vertex or an edge is added.
pub Linked-add_vertex :
    (l : List Vertex) (s i : SourceType) (x : ℕ) → Linked l i x → Linked (add_vertex l s) i x
unfolding add_vertex search_vertex
Linked-add_vertex l s i x k = elim (Option-cases (search_from 0 l s)) [
  | inl e ↦
      rw (e, add_vertex)
        (record {
          index = k.index;
          found = search_from-append 0 l (create_vertex s ∷ []) i k.index k.found;
          linked =
              rw (chain_of-append l (create_vertex s ∷ []) k.index (search_vertex-lt l i k.found))
                k.linked;
        })
  | inr (j, e) ↦ rw (e, add_vertex) k
]

Linked-append_edge :
    (l : List Vertex) (n : ℕ) (to i : SourceType) (x : ℕ)
    → Linked l i x
    → Linked (append_edge l n to) i x
unfolding search_vertex
Linked-append_edge l n to i x k = record {
  index = k.index;
  found = search_from-append_edge 0 l n to i ∙ k.found;
  linked = any_id-append_edge l n k.index x to k.linked;
}

pub Linked-add_edge :
    (l : List Vertex) (from to i : SourceType) (x : ℕ)
    → Linked l i x
    → Linked (add_edge l from to) i x
unfolding add_edge
Linked-add_edge l from to i x k =
    let l' = add_vertex (add_vertex l from) to in
    let k' = Linked-add_vertex (add_vertex l from) to i x (Linked-add_vertex l from i x k) in
    elim (Option-cases (search_vertex l' from)) [
      | inl e ↦ rw (e, add_edge) k'
      | inr (n, e) ↦ rw (e, add_edge) (Linked-append_edge l' n to i x k')
    ]

-- The edge that add_edge adds is there.
pub add_edge-Linked :
    (l : List Vertex) (from to : SourceType) → Linked (add_edge l from to) from to.id
unfolding add_edge
add_edge-Linked l from to =
    let l' = add_vertex (add_vertex l from) to in
    let (n, e) = Found-add_vertex (add_vertex l from) to from (add_vertex-Found l from) in
    rw (e, add_edge)
      (record {
        index = n;
        found = unfold search_vertex in search_from-append_edge 0 l' n to from ∙ e;
        linked = any_id-append_edge_self l' n to (search_vertex-lt l' from e);
      })
