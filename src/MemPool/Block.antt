-- ===== src/MemPool/Block.antt =====
-- The nodes as mp_alloc_block's count of failures leaves them.
use basic_component_design.Common.{
  ℕ, zero, suc, ◌+◌, ◌≤◌, ◌<◌, ◌≡◌, inl, inr, refl, ap, List, [], ◌∷◌, ◌++◌, arith, ltb, All,
  length, if◌then◌else◌,
}
use basic_component_design.MemPool.{head_room, Node, count_failed, count_failed_from}
use basic_component_design.MemPool.Grant.{Placement, IsNode, Separate, Disjoint, Contains}

-- The same nodes but for the counts of failures.
abbrev pub Same : List Node → List Node → Type 0
Same [] [] = Unit {0}
Same [] (q ∷ qs) = ⊥
Same (p ∷ ps) [] = ⊥
Same (p ∷ ps) (q ∷ qs) = (q.base ≡ p.base) × (q.last ≡ p.last) × (q.end ≡ p.end) × Same ps qs

count_failed-Same : (i c : ℕ) (ps : List Node) → Same ps (count_failed i c ps).0
unfolding count_failed
count_failed-Same i c [] = tt
count_failed-Same i c (p ∷ []) = (refl, refl, refl, tt)
count_failed-Same i c (p ∷ q ∷ ps) = (refl, refl, refl, count_failed-Same (suc i) _ (q ∷ ps))

pub count_failed_from-Same : (k i c : ℕ) (ps : List Node) → Same ps (count_failed_from k i c ps).0
unfolding count_failed_from
count_failed_from-Same zero i c ps = count_failed-Same i c ps
count_failed_from-Same (suc k) i c [] = tt
count_failed_from-Same (suc k) i c (p ∷ ps) =
    (refl, refl, refl, count_failed_from-Same k (suc i) c ps)

-- `current` moves along the nodes, and never past the last.
count_failed-current : (i c : ℕ) (ps : List Node) → c ≤ i → (count_failed i c ps).1 ≤ i + length ps
unfolding count_failed
count_failed-current i c [] h = omega arith
count_failed-current i c (p ∷ []) h = omega arith
count_failed-current i c (p ∷ q ∷ ps) h = omega (
  arith,
  count_failed-current (suc i) (if ltb 4 p.failed then suc i else c) (q ∷ ps) (ground arith),
)

pub count_failed_from-current :
    (k i c : ℕ) (ps : List Node)
    → k ≤ length ps
    → c ≤ k + i
    → (count_failed_from k i c ps).1 ≤ i + length ps
unfolding count_failed_from
count_failed_from-current zero i c ps l h = count_failed-current i c ps (omega arith)
count_failed_from-current (suc k) i c [] l h = absurd (omega arith)
count_failed_from-current (suc k) i c (p ∷ ps) l h =
    omega (arith, count_failed_from-current k (suc i) c ps (omega arith) (omega arith))

pub length-Same : (ps qs : List Node) → Same ps qs → length qs ≡ length ps
length-Same [] [] h = refl
length-Same [] (q ∷ qs) h = absurd h
length-Same (p ∷ ps) [] h = absurd h
length-Same (p ∷ ps) (q ∷ qs) h = ap suc (length-Same ps qs h.3)

pub head_room-Same :
    (ps qs rs : List Node) → Same ps qs → 0 < length ps → head_room (qs ++ rs) ≡ head_room ps
head_room-Same [] qs rs h l = absurd (omega arith)
head_room-Same (p ∷ ps) [] rs h l = absurd h
head_room-Same (p ∷ ps) (q ∷ qs) rs h l = omega (arith, h.0, h.2)

module _ (pl : Placement) where
  open pl use {IsLast}

  pub Same-IsNode : (ps qs : List Node) → Same ps qs → All (IsNode pl) ps → All (IsNode pl) qs
  Same-IsNode [] [] h v = tt
  Same-IsNode [] (q ∷ qs) h v = absurd h
  Same-IsNode (p ∷ ps) [] h v = absurd h
  Same-IsNode (p ∷ ps) (q ∷ qs) (b, l, e, h) (w, v) = (
    record {
      room = omega (arith, w.room);
      within = omega (arith, w.within);
      low = omega (arith, w.low);
      ending = rw (e, l) w.ending;
    },
    Same-IsNode ps qs h v,
  )

  Same-Separate :
      (p q : Node) (ps qs : List Node)
      → q.base ≡ p.base
      → q.end ≡ p.end
      → Same ps qs
      → All (Separate pl p) ps
      → All (Separate pl q) qs
  Same-Separate p q [] [] b e h v = tt
  Same-Separate p q [] (y ∷ qs) b e h v = absurd h
  Same-Separate p q (x ∷ ps) [] b e h v = absurd h
  Same-Separate p q (x ∷ ps) (y ∷ qs) b e (b', _, e', h) (w, v) =
      (ground arith, Same-Separate p q ps qs b e h v)

  pub Same-Disjoint : (ps qs : List Node) → Same ps qs → Disjoint pl ps → Disjoint pl qs
  Same-Disjoint [] [] h v = tt
  Same-Disjoint [] (y ∷ qs) h v = absurd h
  Same-Disjoint (x ∷ ps) [] h v = absurd h
  Same-Disjoint (x ∷ ps) (y ∷ qs) (b, l, e, h) (w, v) =
      (Same-Separate x y ps qs b e h w, Same-Disjoint ps qs h v)

  pub Same-Contains :
      (m size : ℕ) (ps qs : List Node) → Same ps qs → Contains pl m size ps → Contains pl m size qs
  Same-Contains m size [] qs h c = absurd c
  Same-Contains m size (x ∷ ps) [] h c = absurd h
  Same-Contains m size (x ∷ ps) (y ∷ qs) (b, l, e, h) (inl c) = inl (omega arith, omega arith)
  Same-Contains m size (x ∷ ps) (y ∷ qs) (b, l, e, h) (inr c) = inr (Same-Contains m size ps qs h c)
