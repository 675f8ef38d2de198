-- ===== src/MinHeap.antt =====
-- The binary heap of timer entries: minheap.h and minheap.c under
-- 3.2高性能组件/3.2.2定时器方案红黑树，时间轮，最小堆/timers_src/example/minheap.
-- An entry is named by its address. Its `time` is written by the timer layer alone, so the heap's
-- operations read it as an argument; the array `p` and the entries' `min_heap_idx` are the state.
pub mod Gap
pub mod Settles
pub mod ShiftUp
pub mod ShiftDown
pub mod Refill
pub mod Operations
pub mod Adjust
pub mod Tests
use basic_component_design.Common.{
  ℕ, suc, ◌+◌, ◌*◌, ◌-◌, ◌/◌, ◌%◌, Bool, true, false, not, ◌&&◌, ◌||◌, Option, none, some, ltb, leb,
  ◌==◌, if◌then◌else◌, update, while, u32_mod, u32_max, add_u32, sub_u32,
}

-- `p` has `a` slots, of which the first `n` are in use.
pub record MinHeap : Type 0 where
  pub p : ℕ → ℕ
  pub n : ℕ
  pub a : ℕ
  pub min_heap_idx : ℕ → ℕ

-- min_heap_ctor_; the entries keep what they hold.
unfoldable pub ctor : MinHeap → MinHeap
ctor s = record s { p = λ _. 0; n = 0; a = 0 }

-- min_heap_elem_init_
unfoldable pub elem_init : MinHeap → ℕ → MinHeap
elem_init s e = record s { min_heap_idx = update s.min_heap_idx e u32_max }

unfoldable pub empty : MinHeap → Bool
empty s = 0 == s.n

unfoldable pub size : MinHeap → ℕ
size s = s.n

-- min_heap_top_; `none` is the null pointer.
unfoldable pub top : MinHeap → Option ℕ
top s = if s.n == 0 then none else some (s.p 0)

unfoldable pub elt_is_top : MinHeap → ℕ → Bool
elt_is_top s e = s.min_heap_idx e == 0

-- (i - 1) / 2 and 2 * (i + 1) on `unsigned`.
unfoldable pub parent : ℕ → ℕ
parent i = sub_u32 i 1 / 2

unfoldable pub second_child : ℕ → ℕ
second_child i = 2 * add_u32 i 1 % u32_mod

-- min_heap_elem_greater
abbrev pub greater : (ℕ → ℕ) → ℕ → ℕ → Bool
greater time a b = ltb (time b) (time a)

-- min_heap_reserve_; `realloc a` tells whether `a` slots are granted, and `none` is the result -1.
unfoldable pub reserve : (ℕ → Bool) → MinHeap → ℕ → Option MinHeap
reserve realloc s n =
    let doubled = if s.a == 0 then 8 else s.a * 2 % u32_mod in
    let a = if ltb doubled n then n else doubled in
    if ltb s.a n then (if realloc a then some (record s { a = a }) else none) else some s

-- The variables of the loops below: the slot `hole` is free to be written.
pub record Shifting : Type 0 where
  pub p : ℕ → ℕ
  pub min_heap_idx : ℕ → ℕ
  pub hole : ℕ

-- (s->p[hole] = s->p[from])->min_heap_idx = hole; hole = from;
unfoldable pub move : ℕ → Shifting → Shifting
move from g = record {
  p = update g.p g.hole (g.p from);
  min_heap_idx = update g.min_heap_idx (g.p from) g.hole;
  hole = from;
}

-- (s->p[hole] = e)->min_heap_idx = hole;
unfoldable pub place : ℕ → Shifting → Shifting
place e g = record g { p = update g.p g.hole e; min_heap_idx = update g.min_heap_idx e g.hole }

unfoldable pub up_body : Shifting → Shifting
unfolding move
up_body g = move (parent g.hole) g

module _ (time : ℕ → ℕ) where
  unfoldable pub up_test : ℕ → Shifting → Bool
  up_test e g = not (g.hole == 0) && greater time (g.p (parent g.hole)) e

  -- min_heap_shift_up_
  unfoldable pub shift_up : ℕ → Shifting → Shifting
  shift_up e g = place e (while (up_test e) up_body (suc g.hole) g)

  -- min_heap_shift_up_unconditional_: a `do` loop with the same test and body.
  unfoldable pub shift_up_unconditional : ℕ → Shifting → Shifting
  shift_up_unconditional e g = place e (while (up_test e) up_body (suc (parent g.hole)) (up_body g))

  -- The child that the loop of min_heap_shift_down_ looks at.
  unfoldable pub min_child : ℕ → Shifting → ℕ
  min_child n g =
      let c = second_child g.hole in
      if c == n || greater time (g.p c) (g.p (c - 1)) then c - 1 else c

  unfoldable pub down_test : ℕ → ℕ → Shifting → Bool
  down_test n e g = leb (second_child g.hole) n && greater time e (g.p (min_child n g))

  unfoldable pub down_body : ℕ → Shifting → Shifting
  unfolding move
  down_body n g = move (min_child n g) g

  -- min_heap_shift_down_ on a heap of `n` entries.
  unfoldable pub shift_down : ℕ → ℕ → Shifting → Shifting
  shift_down n e g = place e (while (down_test n e) (down_body n) (suc n) g)

abbrev pub hole_at : MinHeap → ℕ → Shifting
hole_at s i = record { p = s.p; min_heap_idx = s.min_heap_idx; hole = i }

abbrev pub filled : MinHeap → Shifting → MinHeap
filled s g = record s { p = g.p; min_heap_idx = g.min_heap_idx }

module _ (time : ℕ → ℕ) where
  -- min_heap_push_; `none` is the result -1.
  unfoldable pub push : (ℕ → Bool) → MinHeap → ℕ → Option MinHeap
  push realloc s e = elim (reserve realloc s (add_u32 s.n 1)) [
    | none ↦ none
    | some r ↦ some (filled (record r { n = add_u32 r.n 1 }) (shift_up time e (hole_at r r.n)))
  ]

  -- min_heap_pop_; `none` is the null pointer, and then nothing has changed.
  unfoldable pub pop : MinHeap → Option (ℕ × MinHeap)
  unfolding elem_init
  pop s =
      let e = s.p 0 in
      let n = s.n - 1 in
      let g = shift_down time n (s.p n) (hole_at s 0) in
      if s.n == 0 then none else some (e, elem_init (filled (record s { n = n }) g) e)

  -- min_heap_erase_; `none` is the result -1.
  unfoldable pub erase : MinHeap → ℕ → Option MinHeap
  unfolding elem_init
  erase s e =
      let i = s.min_heap_idx e in
      let n = sub_u32 s.n 1 in
      let last = s.p n in
      let g =
        if ltb 0 i && greater time (s.p (parent i)) last
        then shift_up_unconditional time last (hole_at s i)
        else shift_down time n last (hole_at s i) in
      if i == u32_max then none else some (elem_init (filled (record s { n = n }) g) e)

  -- min_heap_adjust_, after the entry's time has changed; `none` is the result -1.
  unfoldable pub adjust : (ℕ → Bool) → MinHeap → ℕ → Option MinHeap
  adjust realloc s e =
      let i = s.min_heap_idx e in
      let g =
        if ltb 0 i && greater time (s.p (parent i)) e
        then shift_up_unconditional time e (hole_at s i)
        else shift_down time s.n e (hole_at s i) in
      if i == u32_max then push realloc s e else some (filled s g)
