-- ===== src/MinHeap/Tests.antt =====
-- Runs of the heap at concrete times, and the properties at concrete heaps.
use basic_component_design.Common.{
  ◌≤◌, ℕ, ◌+◌, ◌*◌, ◌≡◌, ◌↔◌, ◌⊎◌, refl, arith, true, some, Bool, if◌then◌else◌, ◌==◌, u32_max,
  while, update,
}
use basic_component_design.MinHeap.{
  MinHeap, push, pop, erase, adjust, top, reserve, shift_up, up_test, up_body, place, parent,
}
use basic_component_design.MinHeap.Adjust.{adjust_lem}
use basic_component_design.MinHeap.Operations.{In, IsValid, Takes, push_lem, pop_lem, erase_lem}

-- The times of the entries 7 and 8 are 70 and 80, and so on.
abbrev pub time : ℕ → ℕ
time x = x * 10

-- The entry 8 has become the earliest.
abbrev time' : ℕ → ℕ
time' = update time 8 5

abbrev pub two : MinHeap
two = record {
  p = λ i. if i == 0 then 7 else 8;
  n = 2;
  a = 8;
  min_heap_idx = λ x. if x == 7 then 0 else if x == 8 then 1 else u32_max;
}

abbrev granted : ℕ → Bool
granted _ = true

pub two-IsValid : IsValid time two
unfolding parent
two-IsValid = record {
  small = omega arith;
  room = omega arith;
  heap = record {
    indexed = λ i lt. ground arith;
    ordered = λ i p lt. let e : i ≡ 1 = omega arith in rw e (omega arith);
  };
}

abbrev three : MinHeap
three = record {
  p = update (update two.p 2 7) 0 6;
  n = 3;
  a = 8;
  min_heap_idx = update (update two.min_heap_idx 7 2) 6 0;
}

push_runs : push time granted two 6 ≡ some three
unfolding push reserve shift_up up_test up_body place parent while
push_runs = refl

fresh_six : ¬ In two 6
fresh_six m = omega (arith, m.0)

push_lem_example :
    IsValid time three × (three.n ≡ two.n + 1) × ((x : ℕ) → In three x ↔ ((x ≡ 6) ⊎ In two x))
push_lem_example = push_lem time granted two three 6 two-IsValid (omega arith) fresh_six push_runs

pop_lem_example :
    (e : ℕ) × (r : MinHeap) × (pop time two ≡ some (e, r))
    × (top two ≡ some e)
    × Takes time two e r
    × In two e
    × ((x : ℕ) → In two x → time e ≤ time x)
pop_lem_example = pop_lem time two two-IsValid (omega arith)

erase_lem_example : (r : MinHeap) × (erase time two 8 ≡ some r) × Takes time two 8 r
erase_lem_example = erase_lem time two 8 two-IsValid (omega arith, refl)

adjust_lem_example :
    (r : MinHeap) × (adjust time' granted two 8 ≡ some r)
    × IsValid time' r
    × (r.n ≡ 2)
    × ((x : ℕ) → In r x ↔ In two x)
adjust_lem_example =
    adjust_lem time time' two 8 two-IsValid (omega arith, refl) (λ x ne. ground arith) granted
