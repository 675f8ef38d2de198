-- ===== src/SkipList/Dropped.antt =====
-- A row without one node: the pointers of the level, the order and the nodes.
use basic_component_design.Common.{
  ℕ, ◌≤◌, ◌≡◌, ◌≢◌, ◌⊎◌, inl, inr, refl, ap, sym, ◌∙◌, true, false, List, [], ◌∷◌, ◌==◌, arith,
  if◌then◌else◌, In, All, All-In,
}
use basic_component_design.SkipList.Rows.{Chain, Sorted, Distinct, IsPart, IsPart-cons, In-IsPart}
use basic_component_design.SkipList.Placed.{Chain-cong}
use mathlib.Core.Path.{subst}
use native.Mathlib.Decide.{ℕ_discrete}

-- The row without its first `x`, and the node before that.
abbrev pub dropped : ℕ → List ℕ → List ℕ
dropped x [] = []
dropped x (y ∷ ys) = let rest = dropped x ys in if y == x then ys else y ∷ rest

abbrev pub before : ℕ → ℕ → List ℕ → ℕ
before x p [] = p
before x p (y ∷ ys) = let rest = before x y ys in if y == x then p else rest

-- The pointers of level `i` once `x` is unlinked behind `q`.
abbrev pub bridged : (ℕ → ℕ → ℕ) → ℕ → ℕ → ℕ → ℕ → ℕ
bridged f i q x y = if f q i == x then (if y == q then f x i else f y i) else f y i

-- The row behind `y` entered from another node that points where `y` did.
Chain-enter :
    (f g : ℕ → ℕ → ℕ) (i p y : ℕ) (zs : List ℕ)
    → g p i ≡ f y i
    → All (λ v. g v i ≡ f v i) zs
    → Chain f i y zs
    → Chain g i p zs
Chain-enter f g i p y [] e h c = e ∙ c
Chain-enter f g i p y (z ∷ zs) e h (q, nz, c) = (e ∙ q, nz, Chain-cong f g i z zs h c)

module _ (x : ℕ) where
  pub dropped_here : (y : ℕ) (ys : List ℕ) → y ≡ x → dropped x (y ∷ ys) ≡ ys
  dropped_here y ys e = let t : (y == x) ≡ true = ground arith in rw t refl

  dropped_on : (y : ℕ) (ys : List ℕ) → y ≢ x → dropped x (y ∷ ys) ≡ y ∷ dropped x ys
  dropped_on y ys n = let t : (y == x) ≡ false = ground arith in rw t refl

  pub before_here : (p y : ℕ) (ys : List ℕ) → y ≡ x → before x p (y ∷ ys) ≡ p
  before_here p y ys e = let t : (y == x) ≡ true = ground arith in rw t refl

  pub before_on : (p y : ℕ) (ys : List ℕ) → y ≢ x → before x p (y ∷ ys) ≡ before x y ys
  before_on p y ys n = let t : (y == x) ≡ false = ground arith in rw t refl

  pub dropped_absent : (ys : List ℕ) → ¬ In x ys → dropped x ys ≡ ys
  dropped_absent [] n = refl
  dropped_absent (y ∷ ys) n =
      dropped_on y ys (λ e. n (inl (sym e)))
      ∙ ap (λ (r : List ℕ). y ∷ r) (dropped_absent ys (λ m. n (inr m)))

  pub All-dropped : (P : ℕ → Type 0) (ys : List ℕ) → All P ys → All P (dropped x ys)
  All-dropped P [] h = tt
  All-dropped P (y ∷ ys) (py, h) = elim (ℕ_discrete y x) [
    | yes e ↦ subst (All P) (sym (dropped_here y ys e)) h
    | no n ↦ subst (All P) (sym (dropped_on y ys n)) (py, All-dropped P ys h)
  ]

  pub Sorted-dropped : (score : ℕ → ℕ) (ys : List ℕ) → Sorted score ys → Sorted score (dropped x ys)
  Sorted-dropped score [] s = tt
  Sorted-dropped score (y ∷ ys) (sy, s) = elim (ℕ_discrete y x) [
    | yes e ↦ subst (Sorted score) (sym (dropped_here y ys e)) s
    | no n ↦
        subst (Sorted score) (sym (dropped_on y ys n))
          (All-dropped (λ v. score y ≤ score v) ys sy, Sorted-dropped score ys s)
  ]

  pub Distinct-dropped : (ys : List ℕ) → Distinct ys → Distinct (dropped x ys)
  Distinct-dropped [] d = tt
  Distinct-dropped (y ∷ ys) (dy, d) = elim (ℕ_discrete y x) [
    | yes e ↦ subst Distinct (sym (dropped_here y ys e)) d
    | no n ↦
        subst Distinct (sym (dropped_on y ys n))
          (All-dropped (λ v. v ≢ y) ys dy, Distinct-dropped ys d)
  ]

  pub IsPart-dropped :
      (xs ys : List ℕ) → Distinct ys → IsPart xs ys → IsPart (dropped x xs) (dropped x ys)
  IsPart-dropped [] ys d h = tt
  IsPart-dropped (a ∷ rest) [] d h = absurd h
  IsPart-dropped (a ∷ rest) (y ∷ ys) (dy, d) (inl (e, h)) = elim (ℕ_discrete y x) [
    | yes q ↦
        subst (λ zs. IsPart zs (dropped x (y ∷ ys))) (sym (dropped_here a rest (e ∙ q)))
          (subst (IsPart rest) (sym (dropped_here y ys q)) h)
    | no n ↦
        subst (λ zs. IsPart zs (dropped x (y ∷ ys))) (sym (dropped_on a rest (λ q. n (sym e ∙ q))))
          (subst (IsPart (a ∷ dropped x rest)) (sym (dropped_on y ys n))
            (inl (e, IsPart-dropped rest ys d h)))
  ]
  IsPart-dropped (a ∷ rest) (y ∷ ys) (dy, d) (inr h) = elim (ℕ_discrete y x) [
    | yes q ↦
        let away : ¬ In x (a ∷ rest) =
          λ m. All-In (λ v. v ≢ y) ys dy (In-IsPart x (a ∷ rest) ys h m) (sym q) in
        subst (λ zs. IsPart zs (dropped x (y ∷ ys))) (sym (dropped_absent (a ∷ rest) away))
          (subst (IsPart (a ∷ rest)) (sym (dropped_here y ys q)) h)
    | no n ↦
        subst (IsPart (dropped x (a ∷ rest))) (sym (dropped_on y ys n))
          (IsPart-cons (dropped x (a ∷ rest)) (dropped x ys) y (IsPart-dropped (a ∷ rest) ys d h))
  ]

  -- The node before `x` is where the row is entered, or in the row, and it points to `x`.
  pub before-points :
      (f : ℕ → ℕ → ℕ) (i p : ℕ) (xs : List ℕ) → Chain f i p xs → In x xs → f (before x p xs) i ≡ x
  before-points f i p [] c m = absurd m
  before-points f i p (y ∷ ys) (e, nz, c) m = elim (ℕ_discrete y x) [
    | yes q ↦ ap (λ (v : ℕ). f v i) (before_here p y ys q) ∙ e ∙ q
    | no n ↦
        let later : In x ys = elim m [ inl k ↦ absurd (n (sym k)) | inr k ↦ k ] in
        ap (λ (v : ℕ). f v i) (before_on p y ys n) ∙ before-points f i y ys c later
  ]

  before_cases : (p : ℕ) (xs : List ℕ) → (before x p xs ≡ p) ⊎ In (before x p xs) xs
  before_cases p [] = inl refl
  before_cases p (y ∷ ys) =
      let P = λ (v : ℕ). (v ≡ p) ⊎ In v (y ∷ ys) in
      elim (ℕ_discrete y x) [
        | yes e ↦ inl (before_here p y ys e)
        | no n ↦
            subst P (sym (before_on p y ys n))
              (elim (before_cases y ys) [ inl e ↦ inr (inl e) | inr m ↦ inr (inr m) ])
      ]

  same-All :
      (f g : ℕ → ℕ → ℕ) (i q w : ℕ) (vs : List ℕ)
      → ((v : ℕ) → g v i ≡ (if v == q then w else f v i))
      → All (λ v. v ≢ q) vs
      → All (λ v. g v i ≡ f v i) vs
  same-All f g i q w [] e h = tt
  same-All f g i q w (v ∷ vs) e (n, h) = (e v ∙ ground arith, same-All f g i q w vs e h)

  -- The row without `x` is what the pointers of the level lead along once it is unlinked.
  pub Chain-dropped :
      (f g : ℕ → ℕ → ℕ) (i p : ℕ) (xs : List ℕ)
      → Distinct (p ∷ xs)
      → In x xs
      → ((v : ℕ) → g v i ≡ (if v == before x p xs then f x i else f v i))
      → Chain f i p xs
      → Chain g i p (dropped x xs)
  Chain-dropped f g i p [] d m e c = absurd m
  Chain-dropped f g i p (y ∷ ys) ((py, d), dy) m e (q, nz, c) = elim (ℕ_discrete y x) [
    | yes same ↦
        let e' : (v : ℕ) → g v i ≡ (if v == p then f x i else f v i) =
          λ v. e v ∙ ap (λ (u : ℕ). if v == u then f x i else f v i) (before_here p y ys same) in
        subst (Chain g i p) (sym (dropped_here y ys same)) (
          Chain-enter f g i p y ys (e' p ∙ ground arith ∙ ap (λ (v : ℕ). f v i) (sym same))
            (same-All f g i p (f x i) ys e' d) c)
    | no n ↦
        let e' : (v : ℕ) → g v i ≡ (if v == before x y ys then f x i else f v i) =
          λ v. e v ∙ ap (λ (u : ℕ). if v == u then f x i else f v i) (before_on p y ys n) in
        let later : In x ys = elim m [ inl k ↦ absurd (n (sym k)) | inr k ↦ k ] in
        let away : p ≢ before x y ys = elim (before_cases y ys) [
          | inl k ↦ λ z. py (sym (z ∙ k))
          | inr k ↦ λ z. All-In (λ v. v ≢ p) ys d k (sym z)
        ] in
        subst (Chain g i p) (sym (dropped_on y ys n))
          (e' p ∙ ground arith, nz, Chain-dropped f g i y ys dy later e' c)
  ]
