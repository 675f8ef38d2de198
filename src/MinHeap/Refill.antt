-- ===== src/MinHeap/Refill.antt =====
-- A slot of a valid heap is freed, and filled again by the last entry.
use native.Mathlib.Decide.{ℕ_discrete}
use basic_component_design.Common.{
  ℕ, zero, suc, ◌+◌, ◌≤◌, ◌<◌, ◌≡◌, ◌≢◌, ◌↔◌, inl, inr, arith, false, while, leb, Bool-cases,
  if◌then◌else◌, ltb, ◌&&◌,
}
use basic_component_design.MinHeap.{
  Shifting, parent, second_child, place, greater, shift_up_unconditional, shift_down, down_test,
}
use basic_component_design.MinHeap.Gap.{
  max_size, parent_lem, second_child_lem, Held, IsGap, IsHeap, Stands,
}
use basic_component_design.MinHeap.Settles.{Settles}
use basic_component_design.MinHeap.ShiftUp.{shift_up_unconditional-Settles}
use basic_component_design.MinHeap.ShiftDown.{shift_down-Settles}

module _ (time : ℕ → ℕ) (n : ℕ) where
  -- Taking any slot out of a heap leaves a gap.
  pub IsHeap-IsGap :
      (p idx : ℕ → ℕ) (i : ℕ)
      → n < max_size
      → i < n
      → IsHeap time n p idx
      → IsGap time n (record { p = p; min_heap_idx = idx; hole = i })
  IsHeap-IsGap p idx i small lt v = record {
    small = small;
    within = lt;
    indexed = λ j l ne. v.indexed j l;
    ordered = λ j q l ne ne'. v.ordered j q l;
    across = λ j q l h pos. ground (arith, v.ordered j q l, v.ordered i pos lt);
  }

  -- The slot past the end of a heap is a gap of the heap with one more slot.
  pub IsHeap-IsGap_end :
      (p idx : ℕ → ℕ)
      → n + 1 < max_size
      → IsHeap time n p idx
      → IsGap time (n + 1) (record { p = p; min_heap_idx = idx; hole = n })
  IsHeap-IsGap_end p idx small v = record {
    small = small;
    within = omega arith;
    indexed = λ j l ne. v.indexed j (omega arith);
    ordered = λ j q l ne ne'. v.ordered j q (omega arith);
    across = λ j q l h pos. let e = parent_lem j q (omega arith) in absurd (omega arith);
  }

  IsHeap-pred : (p idx : ℕ → ℕ) → IsHeap time (suc n) p idx → IsHeap time n p idx
  IsHeap-pred p idx v = record {
    indexed = λ i l. v.indexed i (omega arith);
    ordered = λ i q l. v.ordered i q (omega arith);
  }

  -- The entry in the first slot is the earliest.
  pub IsHeap-first :
      (p idx : ℕ → ℕ) (k i : ℕ)
      → n < max_size
      → IsHeap time n p idx
      → i ≤ k
      → i < n
      → time (p 0) ≤ time (p i)
  IsHeap-first p idx zero i small v le lt = let e : i ≡ 0 = omega arith in ground arith
  IsHeap-first p idx (suc k) i small v le lt = elim (ℕ_discrete i 0) [
    | yes e ↦ ground arith
    | no ne ↦
        let q = parent_lem i (omega arith) (omega arith) in
        omega (
          arith,
          v.ordered i (omega arith) lt,
          IsHeap-first p idx k (parent i) small v (omega arith) (omega arith),
        )
  ]

-- The slot that the last entry is put into when the entry in slot `i` is taken out.
abbrev pub refill : (ℕ → ℕ) → ℕ → ℕ → (ℕ → ℕ) → (ℕ → ℕ) → Shifting
refill time n i p idx =
    if ltb 0 i && greater time (p (parent i)) (p n)
    then shift_up_unconditional time (p n) (record { p = p; min_heap_idx = idx; hole = i })
    else shift_down time n (p n) (record { p = p; min_heap_idx = idx; hole = i })

module _ (time : ℕ → ℕ) (n : ℕ) (p idx : ℕ → ℕ) (small : suc n < max_size)
    (v : IsHeap time (suc n) p idx) where
  pub record Loses (e : ℕ) (r : Shifting) : Type 0 where
    pub heap : IsHeap time n r.p r.min_heap_idx
    pub others : (x : ℕ) → Stands n r.p r.min_heap_idx x ↔ (Stands (suc n) p idx x × (x ≢ e))

  Settles-Loses :
      (i : ℕ) (r : Shifting)
      → i < n
      → Settles time n (p n) (record { p = p; min_heap_idx = idx; hole = i }) r
      → Loses (p i) r
  Settles-Loses i r lt s = record {
    heap = s.heap;
    others = λ x. (
      λ h. elim ((s.joined x).0 h) [
        | inl e ↦ ground (arith, v.indexed n, v.indexed i)
        | inr h' ↦ ground (arith, h'.within, h'.elsewhere, h'.stands, v.indexed i)
      ],
      λ h. (s.joined x).1 (elim (ℕ_discrete x (p n)) [
        | yes e ↦ inl e
        | no ne ↦ inr (record { within = ground arith; elsewhere = ground arith; stands = h.0.1 })
      ]),
    );
  }

  fresh : (i : ℕ) → ¬ Held n (record { p = p; min_heap_idx = idx; hole = i }) (p n)
  fresh i h = omega (arith, h.within, v.indexed n (omega arith))

  refill_inside : (i : ℕ) → i < n → Loses (p i) (refill time n i p idx)
  refill_inside i lt =
      let gap = IsHeap-IsGap time n p idx i (omega arith) lt (IsHeap-pred time n p idx v) in
      elim (Bool-cases (ltb 0 i && greater time (p (parent i)) (p n))) [
        | inl t ↦ rw t (
            Settles-Loses i _ lt (
              shift_up_unconditional-Settles time n (p n) _ gap (fresh i) (ground arith)
                (ground arith)))
        | inr t ↦ rw t (
            Settles-Loses i _ lt
              (shift_down-Settles time n (p n) _ gap (fresh i) (λ pos. ground arith)))
      ]

  -- Taking out the last entry itself: the loop does not start.
  refill_last : Loses (p n) (refill time n n p idx)
  unfolding shift_down down_test while place
  refill_last =
      let e = second_child_lem n (omega arith) in
      let t : (ltb 0 n && greater time (p (parent n)) (p n)) ≡ false =
        ground (arith, v.ordered n) in
      let stops : leb (second_child n) n ≡ false = ground arith in
      rw t (
        rw (stops, while)
          (record {
            heap = record {
              indexed = λ i l. ground (arith, v.indexed i, v.indexed n);
              ordered = λ i q l. ground (arith, v.ordered i q, v.indexed n, v.indexed i);
            };
            others = λ x. (λ h. ground (arith, v.indexed n), λ h. ground (arith, v.indexed n));
          }))

  pub refill-Loses : (i : ℕ) → i < suc n → Loses (p i) (refill time n i p idx)
  refill-Loses i lt = elim (ℕ_discrete i n) [
    | yes e ↦ rw e refill_last
    | no ne ↦ refill_inside i (omega arith)
  ]
