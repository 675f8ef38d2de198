-- ===== src/SkipList/Tests.antt =====
-- A skip list with the nodes 10 and 20.
use basic_component_design.Common.{
  ℕ, zero, suc, All, length, ◌+◌, ◌<◌, ◌≢◌, ◌≤◌, ◌≡◌, inl, inr, refl, List, [], ◌∷◌, ◌==◌, arith,
  if◌then◌else◌,
}
use basic_component_design.SkipList.{SkipList, zsl_insert}
use basic_component_design.SkipList.Rows.{IsPart, Chain, Sorted, Distinct}
use basic_component_design.SkipList.Find.{Ordered}
use basic_component_design.SkipList.Insert.{inserted, zsl_insert-Ordered}

abbrev two : SkipList
two = record {
  header = 1;
  length = 2;
  level = 2;
  score = λ x. x;
  handler = λ _. 0;
  forward = λ x i.
      if x == 1
      then (if i == 0 then 10 else if i == 1 then 20 else 0)
      else if x == 10
      then (if i == 0 then 20 else 0)
      else 0;
  freed = [];
}

abbrev nodes : List ℕ
nodes = 10 ∷ 20 ∷ []

-- Level 0 with both nodes, level 1 with the second.
abbrev two_rows : ℕ → List ℕ
two_rows zero = nodes
two_rows (suc zero) = 20 ∷ []
two_rows (suc (suc i)) = []

two-Chain : (i : ℕ) → Chain two.forward i 1 (two_rows i)
two-Chain zero = (refl, omega arith, (refl, omega arith, refl))
two-Chain (suc zero) = (refl, omega arith, refl)
two-Chain (suc (suc i)) = ground arith

two_above : (i : ℕ) → 2 ≤ i → two_rows i ≡ []
two_above zero ge = absurd (omega arith)
two_above (suc zero) ge = absurd (omega arith)
two_above (suc (suc i)) ge = refl

two-IsPart : (i : ℕ) → IsPart (two_rows (suc i)) (two_rows i)
two-IsPart zero = inr (inl (refl, tt))
two-IsPart (suc i) = tt

two-Sorted : (i : ℕ) → Sorted two.score (two_rows i)
two-Sorted zero = ((omega arith, tt), (tt, tt))
two-Sorted (suc zero) = (tt, tt)
two-Sorted (suc (suc i)) = tt

two-Distinct : (i : ℕ) → Distinct (1 ∷ two_rows i)
two-Distinct zero = ground arith
two-Distinct (suc zero) = ground arith
two-Distinct (suc (suc i)) = (tt, tt)

two_short : (i : ℕ) → length (two_rows i) < 3
two_short zero = omega arith
two_short (suc zero) = omega arith
two_short (suc (suc i)) = omega arith

two_fresh : (i : ℕ) → All (λ y. y ≢ 15) (two_rows i)
two_fresh zero = ground arith
two_fresh (suc zero) = ground arith
two_fresh (suc (suc i)) = tt

two-Ordered : Ordered two two_rows
two-Ordered = record {
  level_pos = omega arith;
  level_le = omega arith;
  chain = λ i lt. two-Chain i;
  above = λ i ge lt. two_above i ge;
  part = λ i lt. two-IsPart i;
  sorted = λ i lt. two-Sorted i;
  distinct = λ i lt. two-Distinct i;
}

-- The node at 15, with the score 15, on one level.
zsl_insert-Ordered_example :
    Ordered (zsl_insert 3 15 1 15 0 two) (inserted two.score 15 15 1 two_rows)
    × ((zsl_insert 3 15 1 15 0 two).length ≡ 2 + 1)
zsl_insert-Ordered_example =
    zsl_insert-Ordered two two_rows 3 15 1 15 0 two-Ordered (λ i lt. two_short i) (omega arith)
      (omega arith) (λ i lt. two_fresh i) (omega arith) (omega arith)

first_row : inserted two.score 15 15 1 two_rows 0 ≡ 10 ∷ 15 ∷ 20 ∷ []
first_row = refl
