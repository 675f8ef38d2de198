-- ===== src/SkipList/Placed.antt =====
-- A row with the new node in its place: the pointers of the level, the order and the nodes.
use basic_component_design.Common.{
  ℕ, ◌≤◌, ◌≡◌, ◌≢◌, inl, inr, refl, ap, sym, ◌∙◌, true, false, List, [], ◌∷◌, ltb, ◌==◌, arith,
  if◌then◌else◌, In, All, All-In, Bool-cases, update, update_self, update_ne,
}
use basic_component_design.SkipList.Rows.{
  IsPart, IsPart-cons, In-IsPart, Chain, Sorted, Distinct, stop, stop_cases, placed,
}
use mathlib.Core.Path.{subst}

pub Chain-cong :
    (f g : ℕ → ℕ → ℕ) (i p : ℕ) (xs : List ℕ)
    → All (λ y. g y i ≡ f y i) (p ∷ xs)
    → Chain f i p xs
    → Chain g i p xs
Chain-cong f g i p [] (e, _) c = e ∙ c
Chain-cong f g i p (x ∷ xs) (e, es) (q, nz, c) = (e ∙ q, nz, Chain-cong f g i x xs es c)

-- The pointers of level `i` once `x` is linked behind `q`.
abbrev pub linked : (ℕ → ℕ → ℕ) → ℕ → ℕ → ℕ → ℕ → ℕ
linked f i q x y = if y == q then x else if y == x then f q i else f y i

module _ (score : ℕ → ℕ) (key x : ℕ) where
  placed_before :
      (y : ℕ) (ys : List ℕ) → ltb (score y) key ≡ false → placed score key x (y ∷ ys) ≡ x ∷ y ∷ ys
  placed_before y ys t = rw t refl

  placed_after :
      (y : ℕ) (ys : List ℕ)
      → ltb (score y) key ≡ true
      → placed score key x (y ∷ ys) ≡ y ∷ placed score key x ys
  placed_after y ys t = rw t refl

  stop_here : (p y : ℕ) (ys : List ℕ) → ltb (score y) key ≡ false → stop score key p (y ∷ ys) ≡ p
  stop_here p y ys t = rw t refl

  stop_on :
      (p y : ℕ) (ys : List ℕ)
      → ltb (score y) key ≡ true
      → stop score key p (y ∷ ys) ≡ stop score key y ys
  stop_on p y ys t = rw t refl

  untouched :
      (f g : ℕ → ℕ → ℕ) (i p : ℕ) (vs : List ℕ)
      → ((v : ℕ) → g v i ≡ linked f i p x v)
      → All (λ v. v ≢ p) vs
      → All (λ v. v ≢ x) vs
      → All (λ v. g v i ≡ f v i) vs
  untouched f g i p [] e hp hx = tt
  untouched f g i p (v ∷ vs) e (np, hp) (nx, hx) =
      (e v ∙ ground arith, untouched f g i p vs e hp hx)

  pub Chain-placed :
      (f g : ℕ → ℕ → ℕ) (i p : ℕ) (xs : List ℕ)
      → x ≢ 0
      → Distinct (p ∷ xs)
      → All (λ y. y ≢ x) (p ∷ xs)
      → ((y : ℕ) → g y i ≡ linked f i (stop score key p xs) x y)
      → Chain f i p xs
      → Chain g i p (placed score key x xs)
  Chain-placed f g i p [] nz d (px, _) e c = (e p ∙ ground arith, nz, e x ∙ ground arith)
  Chain-placed f g i p (y ∷ ys) nz ((py, d), dy) (px, (yx, nx)) e (q, ny, c) =
      elim (Bool-cases (ltb (score y) key)) [
        | inl t ↦
            let e' : (v : ℕ) → g v i ≡ linked f i (stop score key y ys) x v =
              λ v. e v ∙ ap (λ (u : ℕ). linked f i u x v) (stop_on p y ys t) in
            let away : p ≢ stop score key y ys = elim (stop_cases score key y ys) [
              | inl same ↦ λ k. py (sym (k ∙ same))
              | inr (m, _) ↦ λ k. All-In (λ v. v ≢ p) ys d m (sym k)
            ] in
            subst (Chain g i p) (sym (placed_after y ys t))
              (e' p ∙ ground arith, ny, Chain-placed f g i y ys nz dy (yx, nx) e' c)
        | inr t ↦
            let e' : (v : ℕ) → g v i ≡ linked f i p x v =
              λ v. e v ∙ ap (λ (u : ℕ). linked f i u x v) (stop_here p y ys t) in
            subst (Chain g i p) (sym (placed_before y ys t)) (
              e' p ∙ ground arith,
              nz,
              (
                e' x ∙ ground arith,
                ny,
                Chain-cong f g i y ys (untouched f g i p (y ∷ ys) e' (py, d) (yx, nx)) c,
              ),
            )
      ]

  pub All-placed : (P : ℕ → Type 0) (xs : List ℕ) → P x → All P xs → All P (placed score key x xs)
  All-placed P [] px h = (px, tt)
  All-placed P (y ∷ ys) px (py, h) = elim (Bool-cases (ltb (score y) key)) [
    | inl t ↦ subst (All P) (sym (placed_after y ys t)) (py, All-placed P ys px h)
    | inr t ↦ subst (All P) (sym (placed_before y ys t)) (px, (py, h))
  ]

  -- A part of the row is still one with the new node in it.
  pub placed-IsPart : (xs ys : List ℕ) → IsPart xs ys → IsPart xs (placed score key x ys)
  placed-IsPart [] ys h = tt
  placed-IsPart (a ∷ rest) [] h = absurd h
  placed-IsPart (a ∷ rest) (y ∷ ys) h = elim (Bool-cases (ltb (score y) key)) [
    | inl t ↦ subst (IsPart (a ∷ rest)) (sym (placed_after y ys t)) (elim h [
      | inl (e, k) ↦ inl (e, placed-IsPart rest ys k)
      | inr k ↦ inr (placed-IsPart (a ∷ rest) ys k)
    ])
    | inr t ↦ subst (IsPart (a ∷ rest)) (sym (placed_before y ys t)) (inr h)
  ]

  pub Distinct-placed :
      (xs : List ℕ) → Distinct xs → All (λ y. y ≢ x) xs → Distinct (placed score key x xs)
  Distinct-placed [] d h = (tt, tt)
  Distinct-placed (y ∷ ys) (dy, d) (yx, h) = elim (Bool-cases (ltb (score y) key)) [
    | inl t ↦
        subst Distinct (sym (placed_after y ys t))
          (All-placed (λ v. v ≢ y) ys (λ k. yx (sym k)) dy, Distinct-placed ys d h)
    | inr t ↦ subst Distinct (sym (placed_before y ys t)) ((yx, h), (dy, d))
  ]

  abbrev scored : ℕ → ℕ
  scored = update score x key

  scored_other : (v : ℕ) → v ≢ x → scored v ≡ score v
  scored_other v n = update_ne score x key v (λ k. n (sym k))

  scored-All :
      (n m : ℕ) (vs : List ℕ)
      → m ≤ n
      → All (λ v. v ≢ x) vs
      → All (λ v. n ≤ score v) vs
      → All (λ v. m ≤ scored v) vs
  scored-All n m [] le h a = tt
  scored-All n m (v ∷ vs) le (nv, h) (lv, a) =
      (omega (arith, scored_other v nv), scored-All n m vs le h a)

  pub scored-Sorted : (vs : List ℕ) → All (λ v. v ≢ x) vs → Sorted score vs → Sorted scored vs
  scored-Sorted [] h s = tt
  scored-Sorted (v ∷ vs) (nv, h) (lv, s) =
      let e = scored_other v nv in
      (scored-All (score v) (scored v) vs (omega (arith, e)) h lv, scored-Sorted vs h s)

  -- In a sorted row the place keeps the order, when `x` gets the score `key`.
  pub Sorted-placed :
      (xs : List ℕ) → Sorted score xs → All (λ y. y ≢ x) xs → Sorted scored (placed score key x xs)
  Sorted-placed [] s h = (tt, tt)
  Sorted-placed (y ∷ ys) (sy, s) (yx, h) =
      let own : scored x ≡ key = update_self score x key in
      let e = scored_other y yx in
      elim (Bool-cases (ltb (score y) key)) [
        | inl t ↦
            let before : scored y ≤ scored x = ground (arith, own, e) in
            subst (Sorted scored) (sym (placed_after y ys t)) (
              All-placed (λ v. scored y ≤ scored v) ys before
                  (scored-All (score y) (scored y) ys (omega (arith, e)) h sy),
              Sorted-placed ys s h,
            )
        | inr t ↦
            let after : key ≤ score y = ground arith in
            subst (Sorted scored) (sym (placed_before y ys t)) (
              (omega (arith, own, e), scored-All (score y) (scored x) ys (omega (arith, own)) h sy),
              scored-Sorted (y ∷ ys) (yx, h) (sy, s),
            )
      ]

  -- Behind the first score that is not below the key, none is.
  none_below :
      (y v : ℕ) (ys : List ℕ)
      → ltb (score y) key ≡ false
      → All (λ w. score y ≤ score w) ys
      → In v (y ∷ ys)
      → ltb (score v) key ≡ false
  none_below y v ys t h (inl e) = rw e t
  none_below y v ys t h (inr m) =
      let le : score y ≤ score v = All-In (λ w. score y ≤ score w) ys h m in ground arith

  pub IsPart-placed :
      (xs ys : List ℕ)
      → Sorted score ys
      → IsPart xs ys
      → IsPart (placed score key x xs) (placed score key x ys)
  IsPart-placed [] [] s h = inl (refl, tt)
  IsPart-placed (a ∷ rest) [] s h = absurd h
  IsPart-placed [] (y ∷ ys) (sy, s) h = elim (Bool-cases (ltb (score y) key)) [
    | inl t ↦ subst (IsPart (x ∷ [])) (sym (placed_after y ys t)) (inr (IsPart-placed [] ys s tt))
    | inr t ↦ subst (IsPart (x ∷ [])) (sym (placed_before y ys t)) (inl (refl, tt))
  ]
  IsPart-placed (a ∷ rest) (y ∷ ys) (sy, s) h = elim (Bool-cases (ltb (score y) key)) [
    | inl t ↦ subst (IsPart (placed score key x (a ∷ rest))) (sym (placed_after y ys t)) (elim h [
      | inl (e, k) ↦
          let ta : ltb (score a) key ≡ true = rw e t in
          subst (λ zs. IsPart zs (y ∷ placed score key x ys)) (sym (placed_after a rest ta))
            (inl (e, IsPart-placed rest ys s k))
      | inr k ↦
          IsPart-cons (placed score key x (a ∷ rest)) (placed score key x ys) y
            (IsPart-placed (a ∷ rest) ys s k)
    ])
    | inr t ↦
        let m : In a (y ∷ ys) = In-IsPart a (a ∷ rest) (y ∷ ys) h (inl refl) in
        let ta = none_below y a ys t sy m in
        subst (λ zs. IsPart zs (placed score key x (y ∷ ys))) (sym (placed_before a rest ta))
          (subst (IsPart (x ∷ a ∷ rest)) (sym (placed_before y ys t)) (inl (refl, h)))
  ]
