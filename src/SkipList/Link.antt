-- ===== src/SkipList/Link.antt =====
-- The loop of zslInsert that links the new node changes the pointers of its levels, and only those.
use basic_component_design.Common.{
  ℕ, zero, suc, ◌+◌, ◌<◌, ◌≤◌, ◌≡◌, ◌≢◌, ◌⊎◌, inl, inr, refl, ap, sym, ◌∙◌, arith,
}
use basic_component_design.SkipList.{SkipList, set_forward, link_levels}
use basic_component_design.SkipList.Placed.{linked}
use mathlib.Core.Path.{subst}
use native.Mathlib.Decide.{ℕ_discrete}

linked_same :
    (f g : ℕ → ℕ → ℕ) (j q x y : ℕ)
    → ((v : ℕ) → f v j ≡ g v j)
    → linked f j q x y ≡ linked g j q x y
linked_same f g j q x y e = ground (arith, e q, e y)

-- What linking leaves alone.
abbrev pub Same : SkipList → SkipList → Type 0
Same s t = (t.header ≡ s.header) × (t.length ≡ s.length) × (t.level ≡ s.level) × (t.score ≡ s.score)

pub set_here : (p i v : ℕ) (s : SkipList) → (set_forward p i v s).forward p i ≡ v
unfolding set_forward
set_here p i v s = ground arith

pub set_else :
    (p i v : ℕ) (s : SkipList) (y j : ℕ)
    → (p ≢ y) ⊎ (i ≢ j)
    → (set_forward p i v s).forward y j ≡ s.forward y j
unfolding set_forward
set_else p i v s y j (inl n) = ground arith
set_else p i v s y j (inr n) = elim (ℕ_discrete p y) [
  | yes e ↦ ground (arith, ap (λ (w : ℕ). s.forward w j) e)
  | no m ↦ ground arith
]

module _ (i x : ℕ) (upd : ℕ → ℕ) (s : SkipList) where
  abbrev aimed : SkipList
  aimed = set_forward x i (s.forward (upd i) i) s

  abbrev link_one : SkipList
  link_one = set_forward (upd i) i x aimed

  link_one-linked : (y : ℕ) → upd i ≢ x → link_one.forward y i ≡ linked s.forward i (upd i) x y
  link_one-linked y n = elim (ℕ_discrete y (upd i)) [
    | yes e ↦ rw e (set_here (upd i) i x aimed ∙ ground arith)
    | no other ↦ set_else (upd i) i x aimed y i (inl (λ k. other (sym k))) ∙ elim (ℕ_discrete y x) [
      | yes e ↦ rw e (set_here x i (s.forward (upd i) i) s ∙ ground arith)
      | no ne ↦ set_else x i (s.forward (upd i) i) s y i (inl (λ k. ne (sym k))) ∙ ground arith
    ]
  ]

  link_one-else : (y j : ℕ) → i ≢ j → link_one.forward y j ≡ s.forward y j
  link_one-else y j n =
      set_else (upd i) i x aimed y j (inr n) ∙ set_else x i (s.forward (upd i) i) s y j (inr n)

  link_one-Same : Same s link_one
  unfolding set_forward
  link_one-Same = (refl, refl, refl, refl)

pub link_levels-Same : (n i x : ℕ) (upd : ℕ → ℕ) (s : SkipList) → Same s (link_levels n i x upd s)
unfolding link_levels
link_levels-Same zero i x upd s = (refl, refl, refl, refl)
link_levels-Same (suc n) i x upd s =
    let (a, b, c, d) = link_one-Same i x upd s in
    let (a', b', c', d') = link_levels-Same n (suc i) x upd (link_one i x upd s) in
    (a' ∙ a, b' ∙ b, c' ∙ c, d' ∙ d)

pub link_levels-else :
    (n i x : ℕ) (upd : ℕ → ℕ) (s : SkipList) (y j : ℕ)
    → (j < i) ⊎ (i + n ≤ j)
    → (link_levels n i x upd s).forward y j ≡ s.forward y j
unfolding link_levels
link_levels-else zero i x upd s y j far = refl
link_levels-else (suc n) i x upd s y j far =
    link_levels-else n (suc i) x upd (link_one i x upd s) y j (ground arith)
    ∙ link_one-else i x upd s y j (ground arith)

pub link_levels-linked :
    (n i x : ℕ) (upd : ℕ → ℕ) (s : SkipList) (j : ℕ)
    → i ≤ j
    → j < i + n
    → upd j ≢ x
    → (y : ℕ) → (link_levels n i x upd s).forward y j ≡ linked s.forward j (upd j) x y
unfolding link_levels
link_levels-linked zero i x upd s j ge lt ne y = absurd (omega arith)
link_levels-linked (suc n) i x upd s j ge lt ne y = elim (ℕ_discrete i j) [
  | yes e ↦
      link_levels-else n (suc i) x upd (link_one i x upd s) y j (inl (omega arith))
      ∙ subst (λ k. (link_one i x upd s).forward y k ≡ linked s.forward k (upd k) x y) e
          (link_one-linked i x upd s y (λ q. ne (ap upd (sym e) ∙ q)))
  | no n_e ↦
      let s1 = link_one i x upd s in
      link_levels-linked n (suc i) x upd s1 j (omega arith) (omega arith) ne y
      ∙ linked_same s1.forward s.forward j (upd j) x y (λ v. link_one-else i x upd s v j n_e)
]
