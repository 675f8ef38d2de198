-- ===== src/MinHeapTimer.antt =====
-- The timers over the heap: mh-timer.h under
-- 3.2高性能组件/3.2.2定时器方案红黑树，时间轮，最小堆/timers_src/example/minheap.
-- The clock and `malloc` answer through arguments; a callback is a function on the state.
pub mod Expire
pub mod Tests
use basic_component_design.Common.{
  ℕ, zero, suc, ◌+◌, ◌-◌, ◌*◌, ◌/◌, ◌%◌, Bool, true, false, Option, none, some, List, [], ◌∷◌, ltb,
  if◌then◌else◌, update, u32_mod, add_u32,
}
use basic_component_design.MinHeap.{MinHeap, ctor, push, pop, erase, top}

-- The static `min_heap`, and the fields that the timers' entries have besides the heap's index.
pub record Timers : Type 0 where
  pub heap : MinHeap
  pub time : ℕ → ℕ
  pub handler : ℕ → ℕ
  pub freed : List ℕ

-- current_time: milliseconds in a `uint32_t`, of the seconds and nanoseconds of the clock.
pub current_time : ℕ → ℕ → ℕ
current_time sec nsec = (sec % u32_mod * 1000 % u32_mod + nsec / 1000000) % u32_mod

pub init_timer : Timers → Timers
unfolding ctor
init_timer s = record s { heap = ctor s.heap }

free : ℕ → Timers → Timers
free e s = record s { freed = e ∷ s.freed }

-- The entry that `add_timer` sets up: cleared by memset, then with its callback and its time.
unfoldable pub new_entry : Timers → ℕ → ℕ → ℕ → Timers
new_entry s te expire callback = record s {
  heap = record (s.heap) { min_heap_idx = update s.heap.min_heap_idx te 0 };
  time = update s.time te expire;
  handler = update s.handler te callback;
}

-- `te` is the answer of malloc, and `none` in the result the null pointer.
pub add_timer : (ℕ → Bool) → Option ℕ → ℕ → Timers → ℕ → ℕ → Option ℕ × Timers
unfolding new_entry free
add_timer realloc none now s msec callback = (none, s)
add_timer realloc (some te) now s msec callback =
    let s' = new_entry s te (add_u32 now msec) callback in
    elim (push s'.time realloc s'.heap te) [
      | none ↦ (none, free te s')
      | some h ↦ (some te, record s' { heap = h })
    ]

pub del_timer : Timers → ℕ → Bool × Timers
del_timer s e = elim (erase s.time s.heap e) [
  | none ↦ (false, s)
  | some h ↦ (true, record s { heap = h })
]

-- A word read as `int`, moved up by 2 ^ 31 so that its order is that of the numbers.
abbrev pub as_int : ℕ → ℕ
as_int x = (x + 2147483648) % u32_mod

-- `none` is -1. The difference of the two `int`s is cut off below 0.
pub find_nearest_expire_timer : ℕ → Timers → Option ℕ
find_nearest_expire_timer now s = elim (top s.heap) [
  | none ↦ none
  | some te ↦ some (as_int (s.time te) - as_int now)
]

-- What follows a callback in the loop of `expire_timer`: pop, and free the entry.
unfoldable pub drop_top : ℕ → Timers → Timers
unfolding free
drop_top te s = elim (pop s.time s.heap) [
  | none ↦ free te s
  | some (e, h) ↦ free te (record s { heap = h })
]

module _ (call : ℕ → Timers → Timers) where
  -- The loop of `expire_timer` at the time `cur`, with the entries whose callback it ran, in order;
  -- `none` means that the fuel ran out.
  pub expire_loop : ℕ → ℕ → Timers → Option (List ℕ × Timers)
  expire_loop zero cur s = none
  expire_loop (suc fuel) cur s = elim (top s.heap) [
    | none ↦ some ([], s)
    | some te ↦ elim (ltb cur (s.time te)) [
      | true ↦ some ([], s)
      | false ↦ elim (expire_loop fuel cur (drop_top te (call te s))) [
        | none ↦ none
        | some (fired, s') ↦ some (te ∷ fired, s')
      ]
    ]
  ]

  -- A round takes an entry out, so that one round more than there are entries is enough.
  pub expire_timer : ℕ → Timers → Option (List ℕ × Timers)
  expire_timer cur s = expire_loop (suc s.heap.n) cur s
