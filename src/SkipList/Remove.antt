-- ===== src/SkipList/Remove.antt =====
-- Which node zslDeleteHead and zslDelete take out, and that nothing else changes.
use basic_component_design.Common.{
  ℕ, ◌-◌, ◌<◌, ◌≡◌, ◌≢◌, inl, inr, refl, ap, sym, ◌∙◌, true, false, List, [], ◌∷◌, ◌==◌, arith,
  if◌then◌else◌, In, length,
}
use basic_component_design.SkipList.{
  SkipList, zskiplist_maxlevel, zsl_min, lower, unlink_head, zsl_delete_head, find, unlink_node,
  zsl_delete_node, zsl_delete,
}
use basic_component_design.SkipList.Rows.{Chain, stop_cases}
use basic_component_design.SkipList.Find.{Ordered, last_below, find-last_below}
use basic_component_design.SkipList.Dropped.{
  dropped, before, before_here, before-points, dropped_here,
}
use basic_component_design.SkipList.Unlink.{
  Unlinked, unlink_head-Unlinked, unlink_node-Unlinked, lower-Lowered,
}
use basic_component_design.SkipList.Delete.{left-Ordered}
use mathlib.Core.Path.{subst}
use basic_component_design.SkipList.First.{
  FirstAt, FirstAt-le, stop-before, points_inside, find-first, Chain-nonzero, first_on,
}

-- `w` with its length counted down.
abbrev shorter : SkipList → SkipList
shorter w = record w { length = w.length - 1 }

module _ {s : SkipList} {rows : ℕ → List ℕ} (o : Ordered s rows) where
  removed_lem :
      (t : SkipList) (x : ℕ) (q : ℕ → ℕ)
      → ((i : ℕ) → i < s.level → In x (rows i) → q i ≡ before x s.header (rows i))
      → ((i : ℕ) → i < s.level → ¬ In x (rows i) → s.forward (q i) i ≢ x)
      → Unlinked s t s.level x q
      → Ordered (shorter (lower s.level t)) (λ i. dropped x (rows i))
        × ((shorter (lower s.level t)).length ≡ s.length - 1)
  removed_lem t x q behind off u =
      let (eh, el, ev, es) = u.same in
      let l = lower-Lowered s.level t (omega (arith, ev, o.level_pos)) in
      (
        left-Ordered o x q behind off u (shorter (lower s.level t)) (l.same_header ∙ eh)
            (l.same_score ∙ es) l.same_forward l.level_pos (omega (arith, ev, l.level_le))
            (λ j ge lt.
              ap (λ (h : ℕ). t.forward h j) (sym eh) ∙ l.given_up j ge (omega (arith, ev))),
        ap (λ (n : ℕ). n - 1) (l.same_length ∙ el),
      )

  first-before : (x : ℕ) (xs : List ℕ) → FirstAt s.score 0 x xs → before x s.header xs ≡ s.header
  first-before x [] h = absurd h
  first-before x (y ∷ ys) (inl (lt, h)) = absurd (omega arith)
  first-before x (y ∷ ys) (inr (e, le)) = before_here x s.header y ys e

  pub zsl_min-first : (xs : List ℕ) (x : ℕ) → rows 0 ≡ x ∷ xs → (zsl_min s ≡ x) × (x ≢ 0)
  unfolding zsl_min
  zsl_min-first xs x e =
      let (p, nz, _) = subst (Chain s.forward 0 s.header) e (o.chain 0 (omega arith)) in (p, nz)

  zsl_delete_head-shorter :
      zsl_min s ≢ 0
      → zsl_delete_head s ≡ shorter (lower s.level (unlink_head s.level (zsl_min s) s))
  unfolding zsl_delete_head
  zsl_delete_head-shorter n =
      let t : (zsl_min s == 0) ≡ false = ground arith in rw (zsl_delete_head, t) refl

  -- A skip list in order that is not empty: zslDeleteHead takes the first node of level 0 off each
  -- level that it is on, leaves the other nodes, keeps every level linked, sorted, without
  -- repetition and part of the one below, counts one node less and lowers the level as far as
  -- levels are empty.
  pub zsl_delete_head-Ordered :
      (x : ℕ) (xs : List ℕ)
      → rows 0 ≡ x ∷ xs
      → Ordered (zsl_delete_head s) (λ i. dropped x (rows i))
        × ((zsl_delete_head s).length ≡ s.length - 1)
        × (dropped x (rows 0) ≡ xs)
  zsl_delete_head-Ordered x xs e =
      let (m, nz) = zsl_min-first xs x e in
      let first : FirstAt s.score 0 x (rows 0) =
        subst (FirstAt s.score 0 x) (sym e) (inr (refl, omega arith)) in
      let same =
        zsl_delete_head-shorter (λ z. nz (sym m ∙ z))
        ∙ ap (λ (y : ℕ). shorter (lower s.level (unlink_head s.level y s))) m in
      let (kept, n) =
        removed_lem (unlink_head s.level x s) x (λ i. s.header)
          (λ i lt mem.
            sym (first-before x (rows i) (first_on o 0 x first i (omega (arith, o.level_le)) mem)))
          (λ i lt away.
            points_inside s.forward i s.header s.header x (rows i)
              (o.chain i (omega (arith, o.level_le))) nz away (inl refl))
          (unlink_head-Unlinked s.level x s) in
      (
        subst (λ w. Ordered w (λ i. dropped x (rows i))) (sym same) kept,
        ap (λ (w : SkipList). w.length) same ∙ n,
        ap (dropped x) e ∙ dropped_here x x xs refl,
      )

  with_freed :
      (w : SkipList) (left : ℕ → List ℕ) (freed : List ℕ)
      → Ordered w left
      → Ordered (record w { freed = freed }) left
  with_freed w left freed k = record {
    level_pos = k.level_pos;
    level_le = k.level_le;
    chain = k.chain;
    above = k.above;
    part = k.part;
    sorted = k.sorted;
    distinct = k.distinct;
  }

  module _ (fuel zn : ℕ) (enough : (i : ℕ) → i < zskiplist_maxlevel → length (rows i) < fuel) where
    abbrev key : ℕ
    key = s.score zn

    abbrev updates : ℕ → ℕ
    updates = (find fuel s s.level key s.header (λ _. 0)).0

    abbrev final : ℕ
    final = (find fuel s s.level key s.header (λ _. 0)).1

    updates-last : (i : ℕ) → i < s.level → updates i ≡ last_below o fuel key enough i
    updates-last =
        (find-last_below o fuel key enough s.level s.header (λ _. 0) o.level_le (λ i e. inl refl)).0

    final-last : final ≡ last_below o fuel key enough 0
    final-last =
        find-first fuel s s.level key s.header (λ _. 0) o.level_pos ∙ updates-last 0 o.level_pos

    -- What zslDelete does behind the search, with `v` as the node that it looks at.
    deleted_at : ℕ → SkipList
    deleted_at v =
        let w = zsl_delete_node v updates s in
        if v == 0
        then s
        else if s.score zn == s.score v
        then record w { freed = v ∷ w.freed }
        else s

    zsl_delete-shorter :
        (x : ℕ)
        → s.forward final 0 ≡ x
        → x ≢ 0
        → key ≡ s.score x
        → zsl_delete fuel zn s
          ≡ record (shorter (lower s.level (unlink_node s.level 0 x updates s))) {
            freed = x ∷ (lower s.level (unlink_node s.level 0 x updates s)).freed;
          }
    unfolding zsl_delete zsl_delete_node deleted_at
    zsl_delete-shorter x e nz k =
        let tz : (x == 0) ≡ false = ground arith in
        let tk : (s.score zn == s.score x) ≡ true = ground arith in
        ap deleted_at e ∙ rw (tz, tk) refl

    -- A skip list in order, fuel above the length of each level, and a node `x` that is the first
    -- of level 0 whose score is not below that of `zn`, and has the same score: zslDelete takes
    -- `x`, which need not be `zn`, off each level that it is on and frees it, leaves the other
    -- nodes, keeps every level linked, sorted, without repetition and part of the one below, and
    -- counts one node less.
    pub zsl_delete-Ordered :
        (x : ℕ)
        → FirstAt s.score key x (rows 0)
        → key ≡ s.score x
        → Ordered (zsl_delete fuel zn s) (λ i. dropped x (rows i))
          × ((zsl_delete fuel zn s).length ≡ s.length - 1)
    zsl_delete-Ordered x f k =
        let (mem, _) = FirstAt-le s.score key x (rows 0) f in
        let zero_ok : 0 < zskiplist_maxlevel = omega arith in
        let nz = Chain-nonzero s.forward 0 s.header x (rows 0) (o.chain 0 zero_ok) mem in
        let at : s.forward final 0 ≡ x =
          ap (λ (v : ℕ). s.forward v 0) (final-last ∙ stop-before s.score key x s.header (rows 0) f)
          ∙ before-points x s.forward 0 s.header (rows 0) (o.chain 0 zero_ok) mem in
        let same = zsl_delete-shorter x at nz k in
        let t = unlink_node s.level 0 x updates s in
        let (kept, n) =
          removed_lem t x updates
            (λ i lt m.
              updates-last i lt
              ∙ stop-before s.score key x s.header (rows i)
                  (first_on o key x f i (omega (arith, o.level_le)) m))
            (λ i lt away z.
              points_inside s.forward i s.header (last_below o fuel key enough i) x (rows i)
                (o.chain i (omega (arith, o.level_le))) nz away
                (elim (stop_cases s.score key s.header (rows i)) [
                  | inl e ↦ inl e
                  | inr (m, _) ↦ inr m
                ])
                (ap (λ (v : ℕ). s.forward v i) (sym (updates-last i lt)) ∙ z))
            (unlink_node-Unlinked s.level x updates s) in
        (
          subst (λ w. Ordered w (λ i. dropped x (rows i))) (sym same)
              (with_freed (shorter (lower s.level t)) (λ i. dropped x (rows i))
                (x ∷ (lower s.level t).freed) kept),
          ap (λ (w : SkipList). w.length) same ∙ n,
        )
