-- ===== src/MinHeap/Adjust.antt =====
-- min_heap_adjust_ on a valid heap in which the time of one entry has changed.
use native.Mathlib.Decide.{ℕ_discrete}
use basic_component_design.Common.{
  ℕ, ◌<◌, ◌≡◌, ◌≢◌, ◌↔◌, inl, inr, refl, arith, false, Bool, some, Bool-cases, ltb, ◌&&◌, ◌==◌,
  u32_max,
}
use basic_component_design.MinHeap.{
  MinHeap, Shifting, shift_up_unconditional, shift_down, parent, greater, hole_at, adjust, filled,
}
use basic_component_design.MinHeap.Gap.{parent_lem, Held, IsGap}
use basic_component_design.MinHeap.Settles.{Settles}
use basic_component_design.MinHeap.ShiftUp.{shift_up_unconditional-Settles}
use basic_component_design.MinHeap.ShiftDown.{shift_down-Settles}
use basic_component_design.MinHeap.Refill.{IsHeap-IsGap}
use basic_component_design.MinHeap.Operations.{In, IsValid}

module _ (time time' : ℕ → ℕ) (s : MinHeap) (e : ℕ) (v : IsValid time s) (h : In s e)
    (agree : (x : ℕ) → x ≢ e → time' x ≡ time x) where
  abbrev around : Shifting
  around = hole_at s (s.min_heap_idx e)

  -- The new time is seen in the slot of `e` alone.
  retimed-IsGap : IsGap time' s.n around
  retimed-IsGap =
      let g = IsHeap-IsGap time s.n s.p s.min_heap_idx (s.min_heap_idx e) v.small h.0 v.heap in
      let same = λ (i : ℕ) (lt : i < s.n) (ne : i ≢ s.min_heap_idx e).
        agree (s.p i) (ground (arith, v.heap.indexed i lt)) in
      record {
        small = g.small;
        within = g.within;
        indexed = g.indexed;
        ordered = λ i p lt ne ne'.
            let q = parent_lem i p (omega (arith, v.small)) in
            ground
              (arith, g.ordered i p lt ne ne', same i lt ne, same (parent i) (omega arith) ne');
        across = λ i p lt k pos.
            let q = parent_lem i p (omega (arith, v.small)) in
            let q' = parent_lem (s.min_heap_idx e) pos (omega (arith, v.small, h.0)) in
            ground (
              arith,
              g.across i p lt k pos,
              same i lt (omega arith),
              same (parent (s.min_heap_idx e)) (omega arith) (omega arith),
            );
      }

  retimed-Settles :
      (r : Shifting)
      → Settles time' s.n e around r
      → IsValid time' (filled s r) × ((x : ℕ) → In (filled s r) x ↔ In s x)
  retimed-Settles r t = (
    record { small = v.small; room = v.room; heap = t.heap },
    λ x. (
      λ k. elim ((t.joined x).0 k) [ inl q ↦ rw q h | inr q ↦ (q.within, q.stands) ],
      λ k. (t.joined x).1 (elim (ℕ_discrete x e) [
        | yes q ↦ inl q
        | no ne ↦ inr (record { within = k.0; elsewhere = ground arith; stands = k.1 })
      ]),
    ),
  )

  -- After the time of one entry has changed, adjusting that entry gives a valid heap of the same
  -- entries, whether it became earlier or later.
  pub adjust_lem :
      (realloc : ℕ → Bool)
      → (r : MinHeap) × (adjust time' realloc s e ≡ some r)
        × IsValid time' r
        × (r.n ≡ s.n)
        × ((x : ℕ) → In r x ↔ In s x)
  unfolding adjust
  adjust_lem realloc =
      let i = s.min_heap_idx e in
      let nz : (i == u32_max) ≡ false = ground (arith, v.small) in
      let fresh = λ (k : Held s.n around e). k.elsewhere refl in
      elim (Bool-cases (ltb 0 i && greater time' (s.p (parent i)) e)) [
        | inl t ↦
            let q = retimed-Settles _ (
              shift_up_unconditional-Settles time' s.n e around retimed-IsGap fresh (ground arith)
                (ground arith)) in
            (filled s (shift_up_unconditional time' e around), rw nz (rw t refl), q.0, refl, q.1)
        | inr t ↦
            let q =
              retimed-Settles _
                (shift_down-Settles time' s.n e around retimed-IsGap fresh (λ pos. ground arith)) in
            (filled s (shift_down time' s.n e around), rw nz (rw t refl), q.0, refl, q.1)
      ]
