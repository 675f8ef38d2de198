-- ===== src/SkipList/Delete.antt =====
-- zslDeleteHead and zslDelete keep the rows of all levels in order and take one node out of each.
use basic_component_design.Common.{
  All-intro, ℕ, suc, ◌<◌, ◌≤◌, ◌≡◌, ◌≢◌, ◌⊎◌, inl, inr, refl, ap, sym, ◌∙◌, true, List, [], ◌∷◌,
  ◌==◌, arith, if◌then◌else◌, In,
}
use basic_component_design.SkipList.{SkipList, zskiplist_maxlevel}
use basic_component_design.SkipList.Rows.{Chain, Sorted, Distinct}
use basic_component_design.SkipList.Find.{Ordered}
use basic_component_design.SkipList.Unlink.{Unlinked}
use basic_component_design.SkipList.Placed.{Chain-cong}
use basic_component_design.SkipList.Dropped.{
  dropped, before, dropped_absent, before-points, Chain-dropped, Sorted-dropped, Distinct-dropped,
  IsPart-dropped, All-dropped,
}
use mathlib.Core.Path.{subst}
use native.Mathlib.Decide.{ℕ_discrete, dec_lt}

In-cases : (x : ℕ) (xs : List ℕ) → In x xs ⊎ (¬ In x xs)
In-cases x [] = inr (λ m. m)
In-cases x (y ∷ ys) = elim (ℕ_discrete x y) [
  | yes e ↦ inl (inl e)
  | no n ↦ elim (In-cases x ys) [
    | inl m ↦ inl (inr m)
    | inr a ↦ inr (λ m. elim m [ inl e ↦ n e | inr k ↦ a k ])
  ]
]

Chain-empty : (f : ℕ → ℕ → ℕ) (i p : ℕ) (xs : List ℕ) → Chain f i p xs → f p i ≡ 0 → xs ≡ []
Chain-empty f i p [] c z = refl
Chain-empty f i p (x ∷ xs) (e, nz, c) z = absurd (nz (sym e ∙ z))

-- The node `x` is unlinked on each level behind the node before it, and where it is not on a level
-- the pointer that is looked at is not to it.
module _ {s t : SkipList} {rows : ℕ → List ℕ} (o : Ordered s rows) (x : ℕ) (q : ℕ → ℕ)
    (behind : (i : ℕ) → i < s.level → In x (rows i) → q i ≡ before x s.header (rows i))
    (off : (i : ℕ) → i < s.level → ¬ In x (rows i) → s.forward (q i) i ≢ x)
    (u : Unlinked s t s.level x q) where
  abbrev left : ℕ → List ℕ
  left i = dropped x (rows i)

  absent-Chain :
      (i : ℕ)
      → i < zskiplist_maxlevel
      → ¬ In x (rows i)
      → ((y : ℕ) → t.forward y i ≡ s.forward y i)
      → Chain t.forward i s.header (left i)
  absent-Chain i lt away e =
      subst (Chain t.forward i s.header) (sym (dropped_absent x (rows i) away)) (
        Chain-cong s.forward t.forward i s.header (rows i)
          (All-intro (λ y. t.forward y i ≡ s.forward y i) (s.header ∷ rows i) (λ y m. e y))
          (o.chain i lt))

  left-Chain : (i : ℕ) → i < zskiplist_maxlevel → Chain t.forward i s.header (left i)
  left-Chain i lt = elim (dec_lt i s.level) [
    | no high ↦
        let nothing = o.above i (omega arith) lt in
        absent-Chain i lt (λ m. subst (In x) nothing m) (λ y. u.high i y (omega arith))
    | yes low ↦ elim (In-cases x (rows i)) [
      | inr away ↦
          let n = off i low away in absent-Chain i lt away (λ y. u.low i y low ∙ ground arith)
      | inl m ↦
          let e = behind i low m in
          let points : s.forward (q i) i ≡ x =
            ap (λ (v : ℕ). s.forward v i) e
            ∙ before-points x s.forward i s.header (rows i) (o.chain i lt) m in
          Chain-dropped x s.forward t.forward i s.header (rows i) (o.distinct i lt) m
            (λ v.
              u.low i v low
              ∙ let k : (s.forward (q i) i == x) ≡ true = ground arith in
                rw k (ap (λ (w : ℕ). if v == w then s.forward x i else s.forward v i) e))
            (o.chain i lt)
    ]
  ]

  -- The list that comes out, after the level has been lowered.
  pub left-Ordered :
      (w : SkipList)
      → w.header ≡ s.header
      → w.score ≡ s.score
      → w.forward ≡ t.forward
      → 1 ≤ w.level
      → w.level ≤ s.level
      → ((j : ℕ) → w.level ≤ j → j < s.level → t.forward s.header j ≡ 0)
      → Ordered w left
  left-Ordered w eh es ef pos le up = record {
    level_pos = pos;
    level_le = omega (arith, o.level_le);
    chain = λ i lt.
        subst (λ f. Chain f i w.header (left i)) (sym ef)
          (subst (λ h. Chain t.forward i h (left i)) (sym eh) (left-Chain i lt));
    above = λ i ge lt. elim (dec_lt i s.level) [
      | yes low ↦ Chain-empty t.forward i s.header (left i) (left-Chain i lt) (up i ge low)
      | no high ↦ ap (dropped x) (o.above i (omega arith) lt)
    ];
    part = λ i lt.
        IsPart-dropped x (rows (suc i)) (rows i) (o.distinct i (omega arith)).1 (o.part i lt);
    sorted = λ i lt.
        subst (λ f. Sorted f (left i)) (sym es) (Sorted-dropped x s.score (rows i) (o.sorted i lt));
    distinct = λ i lt.
        subst (λ h. Distinct (h ∷ left i)) (sym eh)
          (
            All-dropped x (λ v. v ≢ s.header) (rows i) (o.distinct i lt).0,
            Distinct-dropped x (rows i) (o.distinct i lt).1,
          );
  }
