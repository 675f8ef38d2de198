-- ===== src/SkipList/Unlink.antt =====
-- The loops of zslDeleteHead and zslDeleteNode: what they do to the pointers and to the level.
use basic_component_design.Common.{
  ℕ, zero, suc, ◌+◌, ◌-◌, ◌<◌, ◌≤◌, ◌≡◌, ◌≢◌, ◌⊎◌, inl, inr, refl, ap, sym, ◌∙◌, ◌&&◌, ltb, ◌==◌,
  arith, if◌then◌else◌, Bool-cases,
}
use basic_component_design.SkipList.{SkipList, set_forward, lower, unlink_head, unlink_node}
use basic_component_design.SkipList.Link.{Same, set_here, set_else}
use basic_component_design.SkipList.Dropped.{bridged}
use mathlib.Core.Path.{subst}
use native.Mathlib.Decide.{ℕ_discrete}

-- One turn of the loops that unlink `x`, behind `q`.
abbrev pub unlink_one : ℕ → ℕ → ℕ → SkipList → SkipList
unlink_one i q x s = if s.forward q i == x then set_forward q i (s.forward x i) s else s

set_forward-Same : (p i v : ℕ) (s : SkipList) → Same s (set_forward p i v s)
unfolding set_forward
set_forward-Same p i v s = (refl, refl, refl, refl)

module _ (i q x : ℕ) (s : SkipList) where
  unlink_one-bridged : (y : ℕ) → (unlink_one i q x s).forward y i ≡ bridged s.forward i q x y
  unlink_one-bridged y = elim (Bool-cases (s.forward q i == x)) [
    | inl t ↦ rw t (elim (ℕ_discrete y q) [
      | yes e ↦ rw e (set_here q i (s.forward x i) s ∙ ground arith)
      | no n ↦ set_else q i (s.forward x i) s y i (inl (λ k. n (sym k))) ∙ ground arith
    ])
    | inr t ↦ rw t refl
  ]

  unlink_one-else : (y j : ℕ) → i ≢ j → (unlink_one i q x s).forward y j ≡ s.forward y j
  unlink_one-else y j n = elim (Bool-cases (s.forward q i == x)) [
    | inl t ↦ rw t (set_else q i (s.forward x i) s y j (inr n))
    | inr t ↦ rw t refl
  ]

  unlink_one-Same : Same s (unlink_one i q x s)
  unlink_one-Same = elim (Bool-cases (s.forward q i == x)) [
    | inl t ↦ rw t (set_forward-Same q i (s.forward x i) s)
    | inr t ↦ rw t (refl, refl, refl, refl)
  ]

bridged_same :
    (f g : ℕ → ℕ → ℕ) (j q x y : ℕ)
    → ((v : ℕ) → f v j ≡ g v j)
    → bridged f j q x y ≡ bridged g j q x y
bridged_same f g j q x y e = ground (arith, e q, e y, e x)

-- What a loop that unlinks `x` on the levels below `n` leaves.
pub record Unlinked (s t : SkipList) (n x : ℕ) (q : ℕ → ℕ) : Type 0 where
  pub same : Same s t
  pub low : (j y : ℕ) → j < n → t.forward y j ≡ bridged s.forward j (q j) x y
  pub high : (j y : ℕ) → n ≤ j → t.forward y j ≡ s.forward y j

pub unlink_head-Unlinked :
    (n x : ℕ) (s : SkipList) → Unlinked s (unlink_head n x s) n x (λ j. s.header)
unfolding unlink_head
unlink_head-Unlinked zero x s = record {
  same = (refl, refl, refl, refl);
  low = λ j y lt. absurd (omega arith);
  high = λ j y ge. refl;
}
unlink_head-Unlinked (suc n) x s =
    let s1 = unlink_one n s.header x s in
    let (a, b, c, d) = unlink_one-Same n s.header x s in
    let u = unlink_head-Unlinked n x s1 in
    let (a', b', c', d') = u.same in
    record {
      same = (a' ∙ a, b' ∙ b, c' ∙ c, d' ∙ d);
      low = λ j y lt. elim (ℕ_discrete n j) [
        | yes e ↦
            u.high j y (omega arith)
            ∙ subst (λ k. s1.forward y k ≡ bridged s.forward k s.header x y) e
                (unlink_one-bridged n s.header x s y)
        | no ne ↦
            u.low j y (omega arith)
            ∙ ap (λ (h : ℕ). bridged s1.forward j h x y) a
            ∙ bridged_same s1.forward s.forward j s.header x y
                (λ v. unlink_one-else n s.header x s v j ne)
      ];
      high = λ j y ge. u.high j y (omega arith) ∙ unlink_one-else n s.header x s y j (omega arith);
    }

-- The same for the loop of zslDeleteNode, from level `i` on.
record UnlinkedFrom (s t : SkipList) (i n x : ℕ) (q : ℕ → ℕ) : Type 0 where
  pub same : Same s t
  pub low : (j y : ℕ) → i ≤ j → j < i + n → t.forward y j ≡ bridged s.forward j (q j) x y
  pub high : (j y : ℕ) → (j < i) ⊎ (i + n ≤ j) → t.forward y j ≡ s.forward y j

unlink_node-UnlinkedFrom :
    (n i x : ℕ) (q : ℕ → ℕ) (s : SkipList) → UnlinkedFrom s (unlink_node n i x q s) i n x q
unfolding unlink_node
unlink_node-UnlinkedFrom zero i x q s = record {
  same = (refl, refl, refl, refl);
  low = λ j y ge lt. absurd (omega arith);
  high = λ j y far. refl;
}
unlink_node-UnlinkedFrom (suc n) i x q s =
    let s1 = unlink_one i (q i) x s in
    let (a, b, c, d) = unlink_one-Same i (q i) x s in
    let u = unlink_node-UnlinkedFrom n (suc i) x q s1 in
    let (a', b', c', d') = u.same in
    record {
      same = (a' ∙ a, b' ∙ b, c' ∙ c, d' ∙ d);
      low = λ j y ge lt. elim (ℕ_discrete i j) [
        | yes e ↦
            u.high j y (inl (omega arith))
            ∙ subst (λ k. s1.forward y k ≡ bridged s.forward k (q k) x y) e
                (unlink_one-bridged i (q i) x s y)
        | no ne ↦
            u.low j y (omega arith) (omega arith)
            ∙ bridged_same s1.forward s.forward j (q j) x y
                (λ v. unlink_one-else i (q i) x s v j ne)
      ];
      high = λ j y far. u.high j y (ground arith) ∙ unlink_one-else i (q i) x s y j (ground arith);
    }

pub unlink_node-Unlinked :
    (n x : ℕ) (q : ℕ → ℕ) (s : SkipList) → Unlinked s (unlink_node n 0 x q s) n x q
unlink_node-Unlinked n x q s =
    let u = unlink_node-UnlinkedFrom n 0 x q s in
    record {
      same = u.same;
      low = λ j y lt. u.low j y (omega arith) (omega arith);
      high = λ j y ge. u.high j y (inr (omega arith));
    }

-- What lowering the level leaves: the header points to nothing on the levels that are given up.
pub record Lowered (s t : SkipList) : Type 0 where
  pub same_header : t.header ≡ s.header
  pub same_length : t.length ≡ s.length
  pub same_score : t.score ≡ s.score
  pub same_forward : t.forward ≡ s.forward
  pub level_pos : 1 ≤ t.level
  pub level_le : t.level ≤ s.level
  pub given_up : (j : ℕ) → t.level ≤ j → j < s.level → s.forward s.header j ≡ 0

pub lower-Lowered : (n : ℕ) (s : SkipList) → 1 ≤ s.level → Lowered s (lower n s)
unfolding lower
lower-Lowered zero s pos = record {
  same_header = refl;
  same_length = refl;
  same_score = refl;
  same_forward = refl;
  level_pos = pos;
  level_le = omega arith;
  given_up = λ j ge lt. absurd (omega arith);
}
lower-Lowered (suc n) s pos =
    elim (Bool-cases (ltb 1 s.level && s.forward s.header (s.level - 1) == 0)) [
      | inl t ↦
          let z : s.forward s.header (s.level - 1) ≡ 0 = ground arith in
          let l = lower-Lowered n (record s { level = s.level - 1 }) (ground arith) in
          rw (t, lower)
            (record {
              same_header = l.same_header;
              same_length = l.same_length;
              same_score = l.same_score;
              same_forward = l.same_forward;
              level_pos = l.level_pos;
              level_le = omega (arith, l.level_le);
              given_up = λ j ge lt. elim (ℕ_discrete j (s.level - 1)) [
                | yes e ↦ rw e z
                | no ne ↦ l.given_up j ge (omega arith)
              ];
            })
      | inr t ↦
          rw (t, lower)
            (record {
              same_header = refl;
              same_length = refl;
              same_score = refl;
              same_forward = refl;
              level_pos = pos;
              level_le = omega arith;
              given_up = λ j ge lt. absurd (omega arith);
            })
    ]
