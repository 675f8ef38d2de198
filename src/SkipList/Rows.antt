-- ===== src/SkipList/Rows.antt =====
-- The rows of the skip list, one for each level, and where the walk of zslInsert stops in them.
use basic_component_design.Common.{
  ℕ, zero, suc, ◌<◌, ◌≤◌, ◌≡◌, ◌≢◌, ◌⊎◌, inl, inr, refl, ap, sym, ◌∙◌, true, false, List, [], ◌∷◌,
  ltb, ◌==◌, arith, if◌then◌else◌, In, All, All-In, length, Bool-cases,
}
use basic_component_design.SkipList.{SkipList, walk}
use mathlib.Core.Path.{subst}

-- The nodes behind `p` on level `i`, up to the null pointer.
abbrev pub Chain : (ℕ → ℕ → ℕ) → ℕ → ℕ → List ℕ → Type 0
Chain forward i p [] = forward p i ≡ 0
Chain forward i p (x ∷ xs) = (forward p i ≡ x) × (x ≢ 0) × Chain forward i x xs

-- In the order of the scores, each at most the next.
abbrev pub Sorted : (ℕ → ℕ) → List ℕ → Type 0
Sorted score [] = Unit
Sorted score (x ∷ xs) = All (λ y. score x ≤ score y) xs × Sorted score xs

abbrev pub Distinct : List ℕ → Type 0
Distinct [] = Unit
Distinct (x ∷ xs) = All (λ y. y ≢ x) xs × Distinct xs

-- The first list is what is left of the second when some nodes are left out.
abbrev pub IsPart : List ℕ → List ℕ → Type 0
IsPart [] ys = Unit
IsPart (x ∷ xs) [] = ⊥
IsPart (x ∷ xs) (y ∷ ys) = ((x ≡ y) × IsPart xs ys) ⊎ IsPart (x ∷ xs) ys

pub In-IsPart : (v : ℕ) (xs ys : List ℕ) → IsPart xs ys → In v xs → In v ys
In-IsPart v [] ys h m = absurd m
In-IsPart v (x ∷ xs) [] h m = absurd h
In-IsPart v (x ∷ xs) (y ∷ ys) (inl (e, h)) (inl q) = inl (q ∙ e)
In-IsPart v (x ∷ xs) (y ∷ ys) (inl (e, h)) (inr m) = inr (In-IsPart v xs ys h m)
In-IsPart v (x ∷ xs) (y ∷ ys) (inr h) m = inr (In-IsPart v (x ∷ xs) ys h m)

pub IsPart-cons : (xs ys : List ℕ) (y : ℕ) → IsPart xs ys → IsPart xs (y ∷ ys)
IsPart-cons [] ys y h = tt
IsPart-cons (x ∷ xs) ys y h = inr h

-- Where the walk from `p` along `xs` stops: before the first score that is not below.
abbrev pub stop : (ℕ → ℕ) → ℕ → ℕ → List ℕ → ℕ
stop score key p [] = p
stop score key p (x ∷ xs) = let rest = stop score key x xs in if ltb (score x) key then rest else p

pub walk-stop :
    (fuel : ℕ) (s : SkipList) (i key p : ℕ) (xs : List ℕ)
    → length xs < fuel
    → Chain s.forward i p xs
    → walk fuel s i key p ≡ stop s.score key p xs
unfolding walk
walk-stop zero s i key p xs lt c = absurd (omega arith)
walk-stop (suc fuel) s i key p [] lt c =
    let z : (s.forward p i == 0) ≡ true = ground arith in rw (walk, z) refl
walk-stop (suc fuel) s i key p (x ∷ xs) lt (e, nz, c) =
    let rest = walk-stop fuel s i key x xs (omega arith) c in
    let z : (x == 0) ≡ false = ground arith in rw (walk, e, z, rest) refl

-- A walk that starts at a node of the row below the key stops where one from the front does.
pub stop_later :
    (score : ℕ → ℕ) (forward : ℕ → ℕ → ℕ) (i key p y : ℕ) (xs : List ℕ)
    → Sorted score xs
    → Chain forward i p xs
    → In y xs
    → score y < key
    → (zs : List ℕ) × Chain forward i y zs
      × (length zs ≤ length xs)
      × (stop score key p xs ≡ stop score key y zs)
stop_later score forward i key p y [] s c m lt = absurd m
stop_later score forward i key p y (x ∷ xs) (h, s) (e, nz, c) (inl q) lt =
    let t : ltb (score x) key ≡ true = ground arith in
    (xs, rw q c, omega arith, rw t (ap (λ v. stop score key v xs) (sym q)))
stop_later score forward i key p y (x ∷ xs) (h, s) (e, nz, c) (inr m) lt =
    let (zs, c', le, same) = stop_later score forward i key x y xs s c m lt in
    let below : score x ≤ score y = All-In (λ v. score x ≤ score v) xs h m in
    let t : ltb (score x) key ≡ true = ground arith in (zs, c', omega arith, rw t same)

-- The node that it stops at is where it started, or one of the row, below the key.
pub stop_cases :
    (score : ℕ → ℕ) (key p : ℕ) (xs : List ℕ)
    → (stop score key p xs ≡ p)
      ⊎ (In (stop score key p xs) xs × (score (stop score key p xs) < key))
stop_cases score key p [] = inl refl
stop_cases score key p (x ∷ xs) =
    let P = λ (v : ℕ). (v ≡ p) ⊎ (In v (x ∷ xs) × (score v < key)) in
    elim (Bool-cases (ltb (score x) key)) [
      | inl t ↦
          let e : stop score key p (x ∷ xs) ≡ stop score key x xs = rw t refl in
          elim (stop_cases score key x xs) [
            | inl q ↦ subst P (sym (e ∙ q)) (inr (inl refl, ground arith))
            | inr (m, lt) ↦ subst P (sym e) (inr (inr m, lt))
          ]
      | inr t ↦ let e : stop score key p (x ∷ xs) ≡ p = rw t refl in subst P (sym e) (inl refl)
    ]

-- The new node goes before the first score that is not below the key.
abbrev pub placed : (ℕ → ℕ) → ℕ → ℕ → List ℕ → List ℕ
placed score key x [] = x ∷ []
placed score key x (y ∷ ys) =
    let rest = placed score key x ys in if ltb (score y) key then y ∷ rest else x ∷ y ∷ ys
