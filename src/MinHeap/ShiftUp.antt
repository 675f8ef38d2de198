-- ===== src/MinHeap/ShiftUp.antt =====
-- min_heap_shift_up_ and min_heap_shift_up_unconditional_ keep the gap, and end with a heap.
use basic_component_design.Common.{ℕ, suc, ◌≤◌, ◌<◌, ◌≡◌, arith, false, while, while_lem}
use basic_component_design.MinHeap.{
  Shifting, parent, move, place, up_test, up_body, shift_up, shift_up_unconditional,
}
use basic_component_design.MinHeap.Gap.{parent_lem, Held, IsGap}
use basic_component_design.MinHeap.Settles.{
  move-indexed, Held-move, Settles, Above, SameHeld, place-Settles, Settles-SameHeld,
}

module _ (time : ℕ → ℕ) (n : ℕ) where
  up_body-IsGap : (g : Shifting) → 0 < g.hole → IsGap time n g → IsGap time n (up_body g)
  unfolding up_body move
  up_body-IsGap g pos v =
      let e = parent_lem g.hole pos (omega arith) in
      record {
        small = v.small;
        within = omega arith;
        indexed = λ i lt ne.
            move-indexed n (parent g.hole) g (v.indexed (parent g.hole) (omega arith) (omega arith))
              i ne (v.indexed i lt);
        ordered = λ i p lt ne ne'.
            let e' = parent_lem i p (omega arith) in
            ground (arith, v.ordered i p lt, v.across i p lt);
        across = λ i p lt h q.
            let e' = parent_lem i p (omega arith) in
            let e'' = parent_lem (parent g.hole) q (omega arith) in
            ground (arith, v.ordered i p lt, v.ordered (parent g.hole) q (omega arith));
      }

  -- The invariant of the loop of min_heap_shift_up_, started at the gap `g`.
  record Rises (e : ℕ) (g r : Shifting) : Type 0 where
    gap : IsGap time n r
    same : SameHeld time n g r
    above : Above time n e r

  up_body-SameHeld : (r : Shifting) → 0 < r.hole → IsGap time n r → SameHeld time n r (up_body r)
  unfolding up_body
  up_body-SameHeld r pos v =
      let q = parent_lem r.hole pos (omega (arith, v.within, v.small)) in
      Held-move n (parent r.hole) r (omega arith) (omega arith) v.within
        (v.indexed (parent r.hole) (omega arith) (omega arith))

  Rises-up_body :
      (e : ℕ) (g r : Shifting)
      → Rises e g r
      → 0 < r.hole
      → time e ≤ time (r.p (parent r.hole))
      → Rises e g (up_body r)
  Rises-up_body e g r v pos le =
      let q = parent_lem r.hole pos (omega (arith, v.gap.within, v.gap.small)) in
      record {
        gap = up_body-IsGap r pos v.gap;
        same = λ x. ground (arith, v.same x, up_body-SameHeld r pos v.gap x);
        above = λ i p lt h. unfold up_body move in ground (arith, v.gap.ordered i p lt);
      }

  Rises-while :
      (e fuel : ℕ) (g r : Shifting)
      → r.hole < fuel
      → Rises e g r
      → (up_test time e (while (up_test time e) up_body fuel r) ≡ false)
        × Rises e g (while (up_test time e) up_body fuel r)
  unfolding up_test
  Rises-while e fuel g r lt v =
      while_lem (up_test time e) up_body (Rises e g) (λ r. r.hole)
        (λ s t w. (
          unfold up_body move in
              let q = parent_lem s.hole (ground arith) (omega (arith, w.gap.within, w.gap.small)) in
              ground arith,
          Rises-up_body e g s w (ground arith) (ground arith),
        ))
        fuel r v lt

  Rises-place :
      (e : ℕ) (g r : Shifting)
      → ¬ Held n g e
      → Rises e g r
      → up_test time e r ≡ false
      → Settles time n e g (place e r)
  unfolding up_test
  Rises-place e g r fresh v t =
      Settles-SameHeld time n e g r (place e r) v.same
        (place-Settles time n e r v.gap (λ h. fresh ((v.same e).0 h)) v.above (λ pos. ground arith))

  -- min_heap_shift_up_ settles an entry that is no later than what lies under the gap.
  pub shift_up-Settles :
      (e : ℕ) (g : Shifting)
      → IsGap time n g
      → ¬ Held n g e
      → Above time n e g
      → Settles time n e g (shift_up time e g)
  unfolding shift_up
  shift_up-Settles e g v fresh above =
      let (t, w) =
        Rises-while e (suc g.hole) g g (omega arith)
          (record { gap = v; same = λ x. (λ h. h, λ h. h); above = above }) in
      Rises-place e g _ fresh w t

  -- So does min_heap_shift_up_unconditional_, where the parent is later than the entry.
  pub shift_up_unconditional-Settles :
      (e : ℕ) (g : Shifting)
      → IsGap time n g
      → ¬ Held n g e
      → 0 < g.hole
      → time e < time (g.p (parent g.hole))
      → Settles time n e g (shift_up_unconditional time e g)
  unfolding shift_up_unconditional
  shift_up_unconditional-Settles e g v fresh pos lt =
      let start : Rises e g g = record {
        gap = v;
        same = λ x. (λ h. h, λ h. h);
        above = λ i p l h. omega (arith, v.across i p l h pos);
      } in
      let (t, w) =
        Rises-while e (suc (parent g.hole)) g (up_body g) (unfold up_body move in omega arith)
          (Rises-up_body e g g start pos (omega arith)) in
      Rises-place e g _ fresh w t
