-- ===== src/LockFreeQueue/Fifo.antt =====
-- What is popped is what was pushed, in that order, and the ring never holds too much.
use basic_component_design.Common.{
  ℕ, ◌+◌, ◌≤◌, ◌<◌, ◌≡◌, refl, sym, ap, List, [], ◌++◌, length, length-append, update, arith,
}
use basic_component_design.LockFreeQueue.{
  u64_mod, Queue, new_queue, Pc, idle, enq_start, deq_start, size_start, Machine, step, begin,
  pushed_by, Reach, start, call, move, enqueue, dequeue, measure, Call,
}
use basic_component_design.LockFreeQueue.Invariant.{reserved, Inv, still}
use basic_component_design.LockFreeQueue.Turns.{access-Inv, access-IsPrefix}

new_queue-Inv : (size : ℕ) (slots : ℕ → ℕ) → 0 < size → Inv size [] (new_queue slots) (λ t. idle)
unfolding new_queue
new_queue-Inv size slots lt = record {
  read_le = omega arith;
  maximum_le = omega arith;
  window = omega arith;
  written = refl;
  stored = λ i ge l. absurd (omega arith);
  fresh = λ t. tt;
  unique = λ t u w e. absurd (ground arith);
  covered = λ w ge l. absurd (omega arith);
}

call-Inv :
    {size : ℕ} {pushed : List ℕ} {q : Queue} {pc : ℕ → Pc}
    → Inv size pushed q pc
    → (t : ℕ) (c : Call) → pc t ≡ idle
    → Inv size pushed q (update pc t (begin c))
call-Inv inv t (enqueue a) e = still inv t (enq_start a) tt (ap reserved (sym e))
call-Inv inv t dequeue e = still inv t deq_start tt (ap reserved (sym e))
call-Inv inv t measure e = still inv t size_start tt (ap reserved (sym e))

length-append-le : (xs ys : List ℕ) → length xs ≤ length (xs ++ ys)
length-append-le xs ys = omega (arith, length-append xs ys)

pub Reach-Inv :
    {size : ℕ} {slots : ℕ → ℕ} {pushed popped : List ℕ} {s : Machine}
    → 0 < size
    → Reach size slots pushed popped s
    → length pushed + 1 < u64_mod
    → Inv size pushed s.queue s.pc
      × ((rest : List ℕ) × (pushed ≡ popped ++ rest))
      × (s.queue.read_index ≡ length popped)
unfolding step new_queue
Reach-Inv {size} {slots} pos start few = (new_queue-Inv size slots pos, ([], refl), refl)
Reach-Inv pos (call t c r idle_now) few =
    let (inv, split, n) = Reach-Inv pos r few in (call-Inv inv t c idle_now, split, n)
Reach-Inv pos (move {pushed} {popped} {s} t r) few =
    let few' : length pushed + 1 < u64_mod =
      omega (arith, length-append-le pushed (pushed_by s.queue (s.pc t))) in
    let (inv, split, n) = Reach-Inv pos r few' in
    let (split', n') = access-IsPrefix inv t few' popped (s.pc t) refl (split, n) in
    (access-Inv inv t few' (s.pc t) refl, split', n')

-- A ring of `size` slots, whatever they hold at first, and any number of threads that call
-- `enqueue`, `dequeue` and `size` and are interleaved in any way, each access to shared memory by
-- itself; fewer than 2 ^ 64 - 1 values are pushed. At any time the values that have been dequeued
-- are, in order, a first part of the values for which an index has been reserved, so that none is
-- lost, doubled, invented or overtaken; and those still in the ring are fewer than its slots.
pub Reach-fifo :
    {size : ℕ} {slots : ℕ → ℕ} {pushed popped : List ℕ} {s : Machine}
    → 0 < size
    → Reach size slots pushed popped s
    → length pushed + 1 < u64_mod
    → (rest : List ℕ) × (pushed ≡ popped ++ rest) × (length rest < size)
Reach-fifo {popped} pos r few =
    let (inv, (rest, split), n) = Reach-Inv pos r few in
    (
      rest,
      split,
      omega (arith, inv.window, inv.written, n, ap length split, length-append popped rest),
    )
