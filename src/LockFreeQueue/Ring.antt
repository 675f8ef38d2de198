-- ===== src/LockFreeQueue/Ring.antt =====
-- Indices into the ring: those of a window of `size` are distinct.
use basic_component_design.Common.{
  ℕ, zero, suc, ◌+◌, ◌-◌, ◌*◌, ◌/◌, ◌%◌, ◌≤◌, ◌<◌, ◌≡◌, ap, ◌∙◌, ◌≢◌, ◌⊎◌, inl, inr, List, [], ◌∷◌,
  ◌++◌, length, get_elem?, some, arith, refl,
}
use native.Mathlib.Nat.{div-add-mod, mul-suc, mul-le-mul_left}
use native.Mathlib.Decide.{dec_lt}

times_apart : (n x y : ℕ) → (n * x ≤ n * y) ⊎ (n * y + n ≤ n * x)
times_apart n x y = elim (dec_lt y x) [
  | yes lt ↦
      let le : suc y ≤ x = omega arith in inr (omega (arith, mul-suc n y, mul-le-mul_left n le))
  | no ge ↦ let le : x ≤ y = omega arith in inl (mul-le-mul_left n le)
]

ring_apart_below : (size i d : ℕ) → 0 < d → d < size → (i + d) % size ≢ i % size
ring_apart_below size i d pos lt e = elim (times_apart size ((i + d) / size) (i / size)) [
  | inl le ↦ omega (arith, div-add-mod (i + d) size, div-add-mod i size)
  | inr ge ↦ omega (arith, div-add-mod (i + d) size, div-add-mod i size)
]

pub ring_apart : (size i j : ℕ) → i < j → j < i + size → j % size ≢ i % size
ring_apart size i j lt room e =
    let k : i + (j - i) ≡ j = omega arith in
    ring_apart_below size i (j - i) (omega arith) (omega arith) (ap (λ (x : ℕ). x % size) k ∙ e)

module _ {A : Type 0} where
  pub get_elem?-push : (xs : List A) (a : A) → get_elem? (xs ++ (a ∷ [])) (length xs) ≡ some a
  get_elem?-push [] a = refl
  get_elem?-push (x ∷ xs) a = get_elem?-push xs a

  pub get_elem?-append :
      (xs ys : List A) (i : ℕ) → i < length xs → get_elem? (xs ++ ys) i ≡ get_elem? xs i
  get_elem?-append [] ys i lt = absurd (omega arith)
  get_elem?-append (x ∷ xs) ys zero lt = refl
  get_elem?-append (x ∷ xs) ys (suc i) lt = get_elem?-append xs ys i (omega arith)

  -- What follows a part of a list begins with the element at its length.
  pub split_at :
      (xs ys : List A) {v : A}
      → get_elem? (xs ++ ys) (length xs) ≡ some v
      → (rest : List A) × (ys ≡ v ∷ rest)
  split_at [] [] e = absurd (ground arith)
  split_at [] (y ∷ ys) e = (ys, ground arith)
  split_at (x ∷ xs) ys e = split_at xs ys e
