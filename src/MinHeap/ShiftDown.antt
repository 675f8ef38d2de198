-- ===== src/MinHeap/ShiftDown.antt =====
-- min_heap_shift_down_ keeps the gap, and ends with a heap.
use basic_component_design.Common.{
  ℕ, suc, ◌+◌, ◌-◌, ◌/◌, ◌*◌, ◌≤◌, ◌<◌, ◌≡◌, ◌≢◌, ◌⊎◌, inl, inr, arith, true, false, while_lem,
}
use basic_component_design.MinHeap.{
  Shifting, parent, second_child, move, min_child, down_test, down_body, shift_down,
}
use basic_component_design.MinHeap.Gap.{max_size, parent_lem, second_child_lem, Held, IsGap}
use basic_component_design.MinHeap.Settles.{
  move-indexed, Held-move, Settles, Above, Below, SameHeld, place-Settles, Settles-SameHeld,
}

module _ (time : ℕ → ℕ) (n : ℕ) where
  -- What the loop of min_heap_shift_down_ picks: a least child of the hole, if there is one.
  record IsLeastChild (g : Shifting) (c : ℕ) : Type 0 where
    within : c < n
    child : (0 < c) × (c ≢ g.hole) × (parent c ≡ g.hole)
    least : (i : ℕ) → 0 < i → i < n → parent i ≡ g.hole → time (g.p c) ≤ time (g.p i)

  min_child-IsLeastChild :
      (g : Shifting)
      → n < max_size
      → g.hole < n
      → second_child g.hole ≤ n
      → IsLeastChild g (min_child time n g)
  unfolding min_child
  min_child-IsLeastChild g small w le =
      let e = second_child_lem g.hole (omega arith) in
      let q = parent_lem (2 * g.hole + 2) (omega arith) in
      let q' = parent_lem (2 * g.hole + 1) (omega arith) in
      record {
        within = ground arith;
        child = ground (arith, q, q');
        least = λ i p lt h.
            let e' = parent_lem i p (omega arith) in
            elim (child_cases i g.hole p (omega arith)) [
              | inl a ↦ rw a (ground arith)
              | inr a ↦ rw a (ground arith)
            ];
      }
    where
      child_cases : (i h : ℕ) → 0 < i → (i - 1) / 2 ≡ h → (i ≡ 2 * h + 1) ⊎ (i ≡ 2 * h + 2)
      child_cases i h p e = omega arith

  down_body-IsGap :
      (e : ℕ) (g : Shifting)
      → down_test time n e g ≡ true
      → IsGap time n g
      → IsGap time n (down_body time n g)
  unfolding down_body move down_test
  down_body-IsGap e g t v =
      let c = min_child time n g in
      let l = min_child-IsLeastChild g v.small v.within (ground arith) in
      record {
        small = v.small;
        within = l.within;
        indexed =
            λ i lt ne. move-indexed n c g (v.indexed c l.within (l.child.1)) i ne (v.indexed i lt);
        ordered = λ i p lt ne ne'. ground (
          arith,
          v.ordered i p lt,
          v.across i p lt,
          v.across c (l.child.0) l.within,
          l.least i p lt,
        );
        across = λ i p lt h q. ground (arith, v.ordered i p lt);
      }

  -- The invariant of the loop of min_heap_shift_down_.
  record Sinks (e : ℕ) (g r : Shifting) : Type 0 where
    gap : IsGap time n r
    same : SameHeld time n g r
    below : Below time n e r

  down_body-SameHeld :
      (e : ℕ) (r : Shifting)
      → down_test time n e r ≡ true
      → IsGap time n r
      → SameHeld time n r (down_body time n r)
  unfolding down_body down_test
  down_body-SameHeld e r t v =
      let l = min_child-IsLeastChild r v.small v.within (ground arith) in
      Held-move n (min_child time n r) r l.within l.child.1 v.within
        (v.indexed _ l.within l.child.1)

  Sinks-down_body :
      (e : ℕ) (g r : Shifting)
      → Sinks e g r
      → down_test time n e r ≡ true
      → Sinks e g (down_body time n r) × (n - (down_body time n r).hole < n - r.hole)
  unfolding down_test
  Sinks-down_body e g r v t =
      let w = v.gap.within in
      let l = min_child-IsLeastChild r v.gap.small v.gap.within (ground arith) in
      let q = parent_lem (min_child time n r) l.child.0 (omega (arith, l.within, v.gap.small)) in
      (
        record {
          gap = down_body-IsGap e r t v.gap;
          same = λ x. ground (arith, v.same x, down_body-SameHeld e r t v.gap x);
          below = λ pos. unfold down_body move in ground (arith, l.child);
        },
        unfold down_body move in omega (arith, l.within, l.child),
      )

  -- The loop ends at a slot whose children, if it has any, are no earlier than the entry.
  down_test-Above :
      (e : ℕ) (r : Shifting) → IsGap time n r → down_test time n e r ≡ false → Above time n e r
  unfolding down_test
  down_test-Above e r v t i p lt h =
      let q = parent_lem i p (omega (arith, v.small)) in
      let q' = second_child_lem r.hole (omega (arith, v.small)) in
      let l = min_child-IsLeastChild r v.small v.within (omega arith) in
      ground (arith, l.least i p lt h)

  -- min_heap_shift_down_ settles an entry that is no earlier than what lies over the gap.
  pub shift_down-Settles :
      (e : ℕ) (g : Shifting)
      → IsGap time n g
      → ¬ Held n g e
      → Below time n e g
      → Settles time n e g (shift_down time n e g)
  unfolding shift_down
  shift_down-Settles e g v fresh below =
      let (t, w) =
        while_lem (down_test time n e) (down_body time n) (Sinks e g) (λ r. n - r.hole)
          (λ r t w. let (w', lt) = Sinks-down_body e g r w t in (lt, w')) (suc n) g
          (record { gap = v; same = λ x. (λ h. h, λ h. h); below = below }) (omega arith) in
      Settles-SameHeld time n e g _ _ w.same (
        place-Settles time n e _ w.gap (λ h. fresh ((w.same e).0 h)) (down_test-Above e _ w.gap t)
          w.below)
