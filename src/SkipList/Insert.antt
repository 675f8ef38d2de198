-- ===== src/SkipList/Insert.antt =====
-- zslInsert keeps the rows of all levels in order and puts the new node in its place in each.
use basic_component_design.Common.{
  All-intro, ℕ, suc, ◌+◌, ◌-◌, ◌<◌, ◌≤◌, ◌≡◌, ◌≢◌, inl, inr, refl, ap, sym, ◌∙◌, false, List, [],
  ◌∷◌, ltb, lt→ltb, arith, if◌then◌else◌, All, All-In, length, Bool-cases, update,
}
use basic_component_design.SkipList.{
  SkipList, zskiplist_maxlevel, zsl_create_node, find, fill, link_levels, zsl_insert,
}
use basic_component_design.SkipList.Rows.{IsPart, Chain, Sorted, Distinct, stop, stop_cases, placed}
use basic_component_design.SkipList.Placed.{
  linked, Chain-cong, Chain-placed, IsPart-placed, placed-IsPart, Distinct-placed, Sorted-placed,
  scored-Sorted, All-placed,
}
use basic_component_design.SkipList.Find.{Ordered, last_below, find-last_below, fill_lem}
use basic_component_design.SkipList.Link.{link_levels-Same, link_levels-else, link_levels-linked}
use mathlib.Core.Path.{subst}
use native.Mathlib.Decide.{dec_lt}

-- The rows with the node on the levels below `level`.
abbrev pub inserted : (ℕ → ℕ) → ℕ → ℕ → ℕ → (ℕ → List ℕ) → ℕ → List ℕ
inserted score key x level rows i = if ltb i level then placed score key x (rows i) else rows i

module _ {s : SkipList} {rows : ℕ → List ℕ} (o : Ordered s rows) (fuel x level key func : ℕ)
    (enough : (i : ℕ) → i < zskiplist_maxlevel → length (rows i) < fuel) (nz : x ≢ 0)
    (nh : x ≢ s.header) (fresh : (i : ℕ) → i < zskiplist_maxlevel → All (λ y. y ≢ x) (rows i))
    (lp : 1 ≤ level) (ll : level ≤ zskiplist_maxlevel) where
  abbrev found : ℕ → ℕ
  found = (find fuel s s.level key s.header (λ _. 0)).0

  abbrev updates : ℕ → ℕ
  updates = if ltb s.level level then fill (level - s.level) s.level s.header found else found

  abbrev top : ℕ
  top = if ltb s.level level then level else s.level

  abbrev made : SkipList
  made = zsl_create_node x key func (record s { level = top })

  abbrev joined : SkipList
  joined = link_levels level 0 x updates made

  abbrev last : ℕ → ℕ
  last = last_below o fuel key enough

  found-last : (i : ℕ) → i < s.level → found i ≡ last i
  found-last =
      (find-last_below o fuel key enough s.level s.header (λ _. 0) o.level_le (λ i e. inl refl)).0

  last_high : (i : ℕ) → s.level ≤ i → i < zskiplist_maxlevel → last i ≡ s.header
  last_high i ge lt = ap (stop s.score key s.header) (o.above i ge lt)

  updates-last : (i : ℕ) → i < level → updates i ≡ last i
  updates-last i lt = elim (Bool-cases (ltb s.level level)) [
    | inl t ↦
        let (within, out) = fill_lem (level - s.level) s.level s.header found i in
        rw t (elim (dec_lt i s.level) [
          | yes low ↦ out (inl low) ∙ found-last i low
          | no high ↦
              within (omega arith) (ground arith) ∙ sym (last_high i (omega arith) (omega arith))
        ])
    | inr t ↦ rw t (found-last i (ground arith))
  ]

  last_old : (i : ℕ) → i < zskiplist_maxlevel → last i ≢ x
  last_old i lt k = elim (stop_cases s.score key s.header (rows i)) [
    | inl e ↦ nh (sym k ∙ e)
    | inr (m, _) ↦ All-In (λ y. y ≢ x) (rows i) (fresh i lt) m k
  ]

  made_forward : made.forward ≡ s.forward
  unfolding zsl_create_node
  made_forward = refl

  made_score : made.score ≡ update s.score x key
  unfolding zsl_create_node
  made_score = refl

  made_header : (made.header ≡ s.header) × (made.length ≡ s.length) × (made.level ≡ top)
  unfolding zsl_create_node
  made_header = (refl, refl, refl)

  joined-Chain :
      (i : ℕ)
      → i < zskiplist_maxlevel
      → Chain joined.forward i s.header (inserted s.score key x level rows i)
  unfolding zsl_create_node
  joined-Chain i lt = elim (Bool-cases (ltb i level)) [
    | inl t ↦
        let low : i < level = ground arith in
        let u = updates-last i low in
        let links : (y : ℕ) → joined.forward y i ≡ linked s.forward i (last i) x y = λ y.
          link_levels-linked level 0 x updates made i (omega arith) (omega arith)
            (λ k. last_old i lt (sym u ∙ k)) y
          ∙ ap (λ (v : ℕ). linked s.forward i v x y) u in
        rw t (
          Chain-placed s.score key x s.forward joined.forward i s.header (rows i) nz
            (o.distinct i lt) (λ k. nh (sym k), fresh i lt) links (o.chain i lt))
    | inr t ↦ rw t (
        Chain-cong s.forward joined.forward i s.header (rows i)
          (All-intro (λ y. joined.forward y i ≡ s.forward y i) (s.header ∷ rows i)
            (λ y m. link_levels-else level 0 x updates made y i (inr (ground arith))))
          (o.chain i lt))
  ]

  inserted_low :
      (i : ℕ) → i < level → inserted s.score key x level rows i ≡ placed s.score key x (rows i)
  inserted_low i lt = let t = lt→ltb i level lt in rw t refl

  inserted_high : (i : ℕ) → level ≤ i → inserted s.score key x level rows i ≡ rows i
  inserted_high i ge = let t : ltb i level ≡ false = ground arith in rw t refl

  -- A property of the rows that the new node keeps.
  inserted_lem :
      (P : List ℕ → Type 0) (i : ℕ)
      → (i < level → P (placed s.score key x (rows i)))
      → P (rows i)
      → P (inserted s.score key x level rows i)
  inserted_lem P i with_node without = elim (dec_lt i level) [
    | yes low ↦ subst P (sym (inserted_low i low)) (with_node low)
    | no high ↦ subst P (sym (inserted_high i (omega arith))) without
  ]

  inserted_above :
      (i : ℕ) → top ≤ i → i < zskiplist_maxlevel → inserted s.score key x level rows i ≡ []
  inserted_above i ge lt = inserted_high i (ground arith) ∙ o.above i (ground arith) lt

  inserted-IsPart :
      (i : ℕ)
      → suc i < zskiplist_maxlevel
      → IsPart (inserted s.score key x level rows (suc i)) (inserted s.score key x level rows i)
  inserted-IsPart i lt = elim (dec_lt (suc i) level) [
    | yes low ↦
        subst (λ zs. IsPart zs (inserted s.score key x level rows i))
          (sym (inserted_low (suc i) low))
          (subst (IsPart (placed s.score key x (rows (suc i)))) (sym (inserted_low i (omega arith)))
            (IsPart-placed s.score key x (rows (suc i)) (rows i) (o.sorted i (omega arith))
              (o.part i lt)))
    | no high ↦
        subst (λ zs. IsPart zs (inserted s.score key x level rows i))
          (sym (inserted_high (suc i) (omega arith)))
          (inserted_lem (IsPart (rows (suc i))) i
            (λ low. placed-IsPart s.score key x (rows (suc i)) (rows i) (o.part i lt))
            (o.part i lt))
  ]

  inserted-Sorted :
      (i : ℕ)
      → i < zskiplist_maxlevel
      → Sorted (update s.score x key) (inserted s.score key x level rows i)
  inserted-Sorted i lt =
      inserted_lem (Sorted (update s.score x key)) i
        (λ low. Sorted-placed s.score key x (rows i) (o.sorted i lt) (fresh i lt))
        (scored-Sorted s.score key x (rows i) (fresh i lt) (o.sorted i lt))

  inserted-Distinct :
      (i : ℕ) → i < zskiplist_maxlevel → Distinct (s.header ∷ inserted s.score key x level rows i)
  inserted-Distinct i lt =
      let (apart, once) = o.distinct i lt in
      inserted_lem (λ row. Distinct (s.header ∷ row)) i
        (λ low. (
          All-placed s.score key x (λ v. v ≢ s.header) (rows i) nh apart,
          Distinct-placed s.score key x (rows i) once (fresh i lt),
        ))
        (apart, once)

  joined_Same :
      (joined.header ≡ s.header)
      × (joined.length ≡ s.length)
      × (joined.level ≡ top)
      × (joined.score ≡ update s.score x key)
  joined_Same =
      let (a, b, c, d) = link_levels-Same level 0 x updates made in
      let (a', b', c') = made_header in (a ∙ a', b ∙ b', c ∙ c', d ∙ made_score)

  -- The list before `length` is counted up.
  abbrev linked_list : SkipList
  linked_list = record joined { length = joined.length + 1 }

  zsl_insert-linked_list : zsl_insert fuel x level key func s ≡ linked_list
  unfolding zsl_insert
  zsl_insert-linked_list = refl

  linked_list-Ordered : Ordered linked_list (inserted s.score key x level rows)
  linked_list-Ordered =
      let (a, _, c, d) = joined_Same in
      record {
        level_pos = ground (arith, c, o.level_pos);
        level_le = ground (arith, c, o.level_le);
        chain = λ i lt.
            subst (λ h. Chain joined.forward i h (inserted s.score key x level rows i)) (sym a)
              (joined-Chain i lt);
        above = λ i ge lt. inserted_above i (omega (arith, c)) lt;
        part = inserted-IsPart;
        sorted = λ i lt.
            subst (λ f. Sorted f (inserted s.score key x level rows i)) (sym d)
              (inserted-Sorted i lt);
        distinct = λ i lt.
            subst (λ h. Distinct (h ∷ inserted s.score key x level rows i)) (sym a)
              (inserted-Distinct i lt);
      }

-- A new node `x` with a level from 1 to 32 and fuel above the length of each row: zslInsert puts
-- it on each level below its own, before the first node whose score is not below its own, leaves
-- the rows of the other levels, keeps every row linked, sorted, without repetition and part of the
-- row below it, and counts one node more.
pub zsl_insert-Ordered :
    (s : SkipList) (rows : ℕ → List ℕ) (fuel x level key func : ℕ)
    → Ordered s rows
    → ((i : ℕ) → i < zskiplist_maxlevel → length (rows i) < fuel)
    → x ≢ 0
    → x ≢ s.header
    → ((i : ℕ) → i < zskiplist_maxlevel → All (λ y. y ≢ x) (rows i))
    → 1 ≤ level
    → level ≤ zskiplist_maxlevel
    → Ordered (zsl_insert fuel x level key func s) (inserted s.score key x level rows)
      × ((zsl_insert fuel x level key func s).length ≡ s.length + 1)
zsl_insert-Ordered s rows fuel x level key func o enough nz nh fresh lp ll =
    let same = zsl_insert-linked_list o fuel x level key func enough nz nh fresh lp ll in
    let (_, n, _, _) = joined_Same o fuel x level key func enough nz nh fresh lp ll in
    (
      subst (λ t. Ordered t (inserted s.score key x level rows)) (sym same)
          (linked_list-Ordered o fuel x level key func enough nz nh fresh lp ll),
      ap (λ (t : SkipList). t.length) same ∙ ap (λ (m : ℕ). m + 1) n,
    )
