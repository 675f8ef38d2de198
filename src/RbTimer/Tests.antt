-- ===== src/RbTimer/Tests.antt =====
-- The timers over a list in place of the tree.
use basic_component_design.Common.{
  ℕ, ◌<◌, ◌≤◌, ◌≡◌, ◌≢◌, ◌↔◌, inl, inr, ap, sym, ◌∙◌, true, false, Option, none, some, List, [],
  ◌∷◌, ltb, ◌==◌, arith, if◌then◌else◌, In, length, Option-cases, Bool-cases,
}
use native.Mathlib.Decide.{ℕ_discrete}
use basic_component_design.RbTimer.{RbTree, Timers}

abbrev smaller : (ℕ → ℕ) → ℕ → Option ℕ → Option ℕ
smaller key x none = some x
smaller key x (some y) = if ltb (key y) (key x) then some y else some x

abbrev least : (ℕ → ℕ) → List ℕ → Option ℕ
least key [] = none
least key (x ∷ xs) = smaller key x (least key xs)

abbrev remove : ℕ → List ℕ → List ℕ
remove x [] = []
remove x (y ∷ ys) = if y == x then remove x ys else y ∷ remove x ys

smaller-some : (key : ℕ → ℕ) (x : ℕ) (o : Option ℕ) → smaller key x o ≢ none
smaller-some key x none e = absurd (cc)
smaller-some key x (some y) e = ground arith

least-none : (key : ℕ → ℕ) (xs : List ℕ) (z : ℕ) → least key xs ≡ none → ¬ In z xs
least-none key [] z e m = m
least-none key (x ∷ xs) z e m = smaller-some key x (least key xs) e

least-In :
    (key : ℕ → ℕ) (xs : List ℕ) (z : ℕ)
    → least key xs ≡ some z
    → In z xs × ((y : ℕ) → In y xs → key z ≤ key y)
least-In key [] z e = absurd (cc)
least-In key (x ∷ xs) z e = elim (Option-cases (least key xs)) [
  | inl n ↦
      let q : x ≡ z = cc (rw n at e) in
      (
        inl (sym q),
        λ y m. elim m [
          | inl k ↦ omega (arith, ap key k, ap key q)
          | inr k ↦ absurd (least-none key xs y n k)
        ],
      )
  | inr (w, n) ↦
      let (a, b) = least-In key xs w n in
      elim (Bool-cases (ltb (key w) (key x))) [
        | inl t ↦
            let q : w ≡ z = cc (rw t at (rw n at e)) in
            (
              inr (rw (ap (λ v. In v xs) q) at a),
              λ y m. elim m [
                | inl k ↦ ground (arith, ap key k, ap key q)
                | inr k ↦ omega (arith, b y k, ap key q)
              ],
            )
        | inr t ↦
            let q : x ≡ z = cc (rw t at (rw n at e)) in
            (
              inl (sym q),
              λ y m. elim m [
                | inl k ↦ omega (arith, ap key k, ap key q)
                | inr k ↦ ground (arith, b y k, ap key q)
              ],
            )
      ]
]

remove-In : (x : ℕ) (xs : List ℕ) (y : ℕ) → In y (remove x xs) ↔ (In y xs × (y ≢ x))
remove-In x [] y = (λ m. absurd m, λ m. m.0)
remove-In x (z ∷ zs) y =
    let r = remove-In x zs y in
    elim (ℕ_discrete z x) [
      | yes k ↦
          let t : (z == x) ≡ true = ground arith in
          rw t (
            λ m. (inr ((r.0 m).0), (r.0 m).1),
            λ m. elim (m.0) [ inl e ↦ absurd (m.1 (e ∙ k)) | inr i ↦ r.1 (i, m.1) ],
          )
      | no n ↦
          let t : (z == x) ≡ false = ground arith in
          rw t (
            λ m. elim m [
              | inl e ↦ (inl e, λ q. n (sym e ∙ q))
              | inr i ↦ (inr ((r.0 i).0), (r.0 i).1)
            ],
            λ m. elim (m.0) [ inl e ↦ inl e | inr i ↦ inr (r.1 (i, m.1)) ],
          )
    ]

length-remove :
    (x : ℕ) (xs : List ℕ)
    → (length (remove x xs) ≤ length xs) × (In x xs → length (remove x xs) < length xs)
length-remove x [] = (omega arith, λ m. absurd m)
length-remove x (z ∷ zs) =
    let (a, b) = length-remove x zs in
    elim (ℕ_discrete z x) [
      | yes k ↦
          let t : (z == x) ≡ true = ground arith in rw t (omega (arith, a), λ m. omega (arith, a))
      | no n ↦
          let t : (z == x) ≡ false = ground arith in
          rw t (
            omega (arith, a),
            λ m. elim m [ inl e ↦ absurd (n (sym e)) | inr i ↦ omega (arith, b i) ],
          )
    ]

abbrev tree : RbTree (List ℕ)
tree = record {
  init = [];
  insert = λ key x t. x ∷ t;
  delete = remove;
  min = least;
  Holds = λ key t x. In x t;
  size = length;
  min_none = λ key t x e. least-none key t x e;
  min_holds = λ key t x e. (least-In key t x e).0;
  min_least = λ key t x y near e m. (least-In key t x e).1 y m;
  delete_holds = λ key t x y e. remove-In x t y;
  delete_size = λ key t x e. (length-remove x t).1 ((least-In key t x e).0);
}

abbrev three : Timers tree
three = record { timer = 30 ∷ 10 ∷ 20 ∷ []; key = λ x. x; handler = λ _. 0; fired = []; freed = [] }
