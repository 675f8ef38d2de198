-- ===== src/SkipList/Find.antt =====
-- The search of zslInsert and zslDelete leaves in update[] the last node below the score, on each level.
use basic_component_design.Common.{
  ℕ, zero, suc, ◌+◌, ◌<◌, ◌≤◌, ◌≡◌, ◌⊎◌, inl, inr, refl, ap, sym, ◌∙◌, List, [], ◌∷◌, arith, In,
  length, update, update_self, update_ne,
}
use basic_component_design.SkipList.{SkipList, zskiplist_maxlevel, walk, find, fill}
use basic_component_design.SkipList.Rows.{
  IsPart, In-IsPart, Chain, Sorted, Distinct, stop, stop_cases, stop_later, walk-stop,
}
use mathlib.Core.Path.{subst}
use native.Mathlib.Decide.{ℕ_discrete, dec_lt}

-- The nodes of each level: linked from the header to the null pointer, sorted, without the header
-- and without repetition, on no level at or above the list's, and part of the level below.
pub record Ordered (s : SkipList) (rows : ℕ → List ℕ) : Type 0 where
  pub level_pos : 1 ≤ s.level
  pub level_le : s.level ≤ zskiplist_maxlevel
  pub chain : (i : ℕ) → i < zskiplist_maxlevel → Chain s.forward i s.header (rows i)
  pub above : (i : ℕ) → s.level ≤ i → i < zskiplist_maxlevel → rows i ≡ []
  pub part : (i : ℕ) → suc i < zskiplist_maxlevel → IsPart (rows (suc i)) (rows i)
  pub sorted : (i : ℕ) → i < zskiplist_maxlevel → Sorted s.score (rows i)
  pub distinct : (i : ℕ) → i < zskiplist_maxlevel → Distinct (s.header ∷ rows i)

module _ {s : SkipList} {rows : ℕ → List ℕ} (o : Ordered s rows) (fuel key : ℕ)
    (enough : (i : ℕ) → i < zskiplist_maxlevel → length (rows i) < fuel) where
  abbrev pub last_below : ℕ → ℕ
  last_below i = stop s.score key s.header (rows i)

  -- Where the walk of a level may start.
  abbrev Start : ℕ → ℕ → Type 0
  Start i p = (p ≡ s.header) ⊎ (In p (rows i) × (s.score p < key))

  walk-last_below :
      (i p : ℕ) → i < zskiplist_maxlevel → Start i p → walk fuel s i key p ≡ last_below i
  walk-last_below i p lt (inl e) =
      ap (walk fuel s i key) e
      ∙ walk-stop fuel s i key s.header (rows i) (enough i lt) (o.chain i lt)
  walk-last_below i p lt (inr (m, less)) =
      let (zs, c, le, same) =
        stop_later s.score s.forward i key s.header p (rows i) (o.sorted i lt) (o.chain i lt) m
          less in
      let room = enough i lt in walk-stop fuel s i key p zs (omega arith) c ∙ sym same

  last_below-Start : (i : ℕ) → suc i < zskiplist_maxlevel → Start i (last_below (suc i))
  last_below-Start i lt = elim (stop_cases s.score key s.header (rows (suc i))) [
    | inl e ↦ inl e
    | inr (m, less) ↦ inr (In-IsPart _ (rows (suc i)) (rows i) (o.part i lt) m, less)
  ]

  -- The array update[] and the last node.
  pub find-last_below :
      (n p : ℕ) (upd : ℕ → ℕ)
      → n ≤ zskiplist_maxlevel
      → ((i : ℕ) → suc i ≡ n → Start i p)
      → ((i : ℕ) → i < n → (find fuel s n key p upd).0 i ≡ last_below i)
        × ((i : ℕ) → n ≤ i → (find fuel s n key p upd).0 i ≡ upd i)
  unfolding find
  find-last_below zero p upd le st = (λ i lt. absurd (omega arith), λ i ge. refl)
  find-last_below (suc n) p upd le st =
      let y = walk fuel s n key p in
      let here : y ≡ last_below n = walk-last_below n p (omega arith) (st n refl) in
      let st' : (i : ℕ) → suc i ≡ n → Start i y =
        λ i e. subst (Start i) (ap last_below e ∙ sym here) (last_below-Start i (omega arith)) in
      let (low, high) = find-last_below n y (update upd n y) (omega arith) st' in
      (
        λ i lt. elim (dec_lt i n) [
          | yes less ↦ low i less
          | no more ↦
              let e : i ≡ n = omega arith in
              rw e (high n (omega arith) ∙ update_self upd n y ∙ here)
        ],
        λ i ge. high i (omega arith) ∙ update_ne upd n y i (omega arith),
      )

pub fill_lem :
    (n i header : ℕ) (upd : ℕ → ℕ) (j : ℕ)
    → ((i ≤ j) → j < i + n → fill n i header upd j ≡ header)
      × ((j < i) ⊎ (i + n ≤ j) → fill n i header upd j ≡ upd j)
unfolding fill
fill_lem zero i header upd j = (λ ge lt. absurd (omega arith), λ far. refl)
fill_lem (suc n) i header upd j =
    let (within, out) = fill_lem n (suc i) header (update upd i header) j in
    (
      λ ge lt. elim (ℕ_discrete i j) [
        | yes e ↦ out (inl (omega arith)) ∙ ground arith
        | no ne ↦ within (omega arith) (omega arith)
      ],
      λ far. out (ground arith) ∙ ground arith,
    )
