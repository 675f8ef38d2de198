-- ===== src/LockFreeQueue/Tests.antt =====
-- Schedules of the ring with three slots, and the theorems at the states that they reach.
use basic_component_design.Common.{
  ℕ, ◌-◌, ◌<◌, ◌≡◌, ◌⊎◌, refl, List, [], ◌∷◌, ◌++◌, length, update, arith,
}
use basic_component_design.LockFreeQueue.{
  u64_mod, next, count_to_index, new_queue, size_of, Pc, access, Machine, step, Call, enqueue,
  dequeue, Reach, start, call, move, begin, pushed_by, popped_by,
}
use basic_component_design.LockFreeQueue.Fifo.{Reach-fifo}
use basic_component_design.LockFreeQueue.Progress.{Reach-commits}

-- What the slots hold at first.
abbrev old_slots : ℕ → ℕ
old_slots i = 99

record Run : Type 0 where
  pushed : List ℕ
  popped : List ℕ
  last : Machine
  reach : Reach 3 old_slots pushed popped last

abbrev begun : Run
begun = record {
  pushed = [];
  popped = [];
  last = record { queue = new_queue old_slots; pc = λ t. Pc.idle };
  reach = start;
}

-- A turn of each thread of the list.
turns : List ℕ → Run → Run
turns [] r = r
turns (t ∷ ts) r = turns ts (record {
  pushed = r.pushed ++ pushed_by r.last.queue (r.last.pc t);
  popped = r.popped ++ popped_by r.last.queue (r.last.pc t);
  last = step 3 t r.last;
  reach = move t r.reach;
})

called : (t : ℕ) (c : Call) (r : Run) → r.last.pc t ≡ Pc.idle → Run
called t c r e = record {
  pushed = r.pushed;
  popped = r.popped;
  last = record r.last { pc = update r.last.pc t (begin c) };
  reach = call t c r.reach e;
}

-- Threads 0 and 1 have reserved the indices 0 and 1 for 7 and 8; thread 1 has stored its value and
-- waits for thread 0.
abbrev two_reserved : Run
unfolding turns called step access new_queue
two_reserved =
    turns (1 ∷ 1 ∷ 1 ∷ 1 ∷ 1 ∷ [])
      (called 1 (enqueue 8) (turns (0 ∷ 0 ∷ 0 ∷ []) (called 0 (enqueue 7) begun refl)) refl)

Reach-commits_example :
    (u : ℕ) × (((step 3 u two_reserved.last).queue.maximum_read_index ≡ 1)
      ⊎ ((step 3 u (step 3 u two_reserved.last)).queue.maximum_read_index ≡ 1))
unfolding two_reserved turns called step access new_queue
Reach-commits_example = Reach-commits 1 1 (omega arith) two_reserved.reach (omega arith) refl

-- Then thread 0 stores and commits, and thread 2 takes the 7.
abbrev one_taken : Run
unfolding two_reserved turns called step access new_queue
one_taken = turns (2 ∷ 2 ∷ 2 ∷ 2 ∷ []) (called 2 dequeue (turns (0 ∷ 0 ∷ []) two_reserved) refl)

Reach-fifo_example : (rest : List ℕ) × (7 ∷ 8 ∷ [] ≡ (7 ∷ []) ++ rest) × (length rest < 3)
unfolding one_taken two_reserved turns called step access new_queue
Reach-fifo_example = Reach-fifo (omega arith) one_taken.reach (omega arith)

-- `size` read the write index 2; before it read the other, two more values came and three went.
size_of_race : size_of 4 2 3 ≡ 3
unfolding size_of
size_of_race = refl

-- 2 ^ 64 is no multiple of 65535: when the indices wrap, two indices in a row have one slot.
index_repeats :
    (count_to_index 65535 (u64_mod - 1) ≡ 0) × (count_to_index 65535 (next (u64_mod - 1)) ≡ 0)
index_repeats = (refl, refl)
