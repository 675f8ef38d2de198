-- ===== src/LockFreeQueue.antt =====
-- The ring of ArrayLockFreeQueue.h and ArrayLockFreeQueueImp.h, under
-- 3.2高性能组件/3.2.3无锁消息队列实现/src/cas_queue: any number of threads call it at once, and each
-- access to what they share is one turn of one thread.
pub mod Ring
pub mod Invariant
pub mod Changes
pub mod Turns
pub mod Fifo
pub mod Progress
mod Tests
use basic_component_design.Common.{
  ℕ, ◌+◌, ◌-◌, ◌%◌, ◌≡◌, List, [], ◌∷◌, ◌++◌, Option, none, some, leb, ◌==◌, if◌then◌else◌, update,
}

-- `QUEUE_INT` is an `unsigned long` of 64 bits.
abbrev pub u64_mod : ℕ
u64_mod = 18446744073709551616

abbrev pub next : ℕ → ℕ
next i = (i + 1) % u64_mod

pub record Queue : Type 0 where
  pub slots : ℕ → ℕ
  pub count : ℕ
  pub write_index : ℕ
  pub read_index : ℕ
  pub maximum_read_index : ℕ

-- The array holds whatever it held before.
unfoldable pub new_queue : (ℕ → ℕ) → Queue
new_queue slots = record {
  slots = slots;
  count = 0;
  write_index = 0;
  read_index = 0;
  maximum_read_index = 0;
}

abbrev pub count_to_index : ℕ → ℕ → ℕ
count_to_index size i = i % size

-- Where a thread stands, with the local variables that are live there.
pub data Pc : Type 0 where
  idle : Pc
  enq_start : (a : ℕ) → Pc  -- the head of the loop in `enqueue`
  enq_read : (a w : ℕ) → Pc  -- `currentWriteIndex` is read
  enq_cas : (a w : ℕ) → Pc  -- not full: before the CAS of `m_writeIndex`
  enq_store : (a w : ℕ) → Pc  -- the index is reserved
  enq_commit : (w : ℕ) → Pc  -- the loop on the CAS of `m_maximumReadIndex`
  enq_count : Pc
  deq_start : Pc  -- the head of the loop in `dequeue`
  deq_read : (r : ℕ) → Pc  -- `currentReadIndex` is read
  deq_load : (r : ℕ) → Pc  -- not empty
  deq_cas : (r v : ℕ) → Pc  -- `a_data` is read: before the CAS of `m_readIndex`
  deq_count : (v : ℕ) → Pc
  size_start : Pc
  size_read : (w : ℕ) → Pc  -- `currentWriteIndex` is read

-- What `size` returns for the two indices that it has read, which it reads one after the other.
unfoldable pub size_of : ℕ → ℕ → ℕ → ℕ
size_of size w r = if leb r w then w - r else (size + w + u64_mod - r) % u64_mod

-- One access, with the tests up to the next. `enqueue` and `dequeue` go back to `idle` at once when
-- they return false; `try_dequeue` is `dequeue`.
unfoldable pub access : ℕ → Queue → Pc → Queue × Pc
access size q idle = (q, idle)
access size q (enq_start a) = (q, enq_read a q.write_index)
access size q (enq_read a w) = (
  q,
  if count_to_index size (next w) == count_to_index size q.read_index then idle else enq_cas a w,
)
access size q (enq_cas a w) =
    if q.write_index == w
    then (record q { write_index = next w }, enq_store a w)
    else (q, enq_start a)
access size q (enq_store a w) =
    (record q { slots = update q.slots (count_to_index size w) a }, enq_commit w)
access size q (enq_commit w) =
    if q.maximum_read_index == w
    then (record q { maximum_read_index = next w }, enq_count)
    else (q, enq_commit w)
access size q enq_count = (record q { count = (q.count + 1) % u64_mod }, idle)
access size q deq_start = (q, deq_read q.read_index)
access size q (deq_read r) = (
  q,
  if count_to_index size r == count_to_index size q.maximum_read_index then idle else deq_load r,
)
access size q (deq_load r) = (q, deq_cas r (q.slots (count_to_index size r)))
access size q (deq_cas r v) =
    if q.read_index == r then (record q { read_index = next r }, deq_count v) else (q, deq_start)
access size q (deq_count v) = (record q { count = (q.count + u64_mod - 1) % u64_mod }, idle)
access size q size_start = (q, size_read q.write_index)
access size q (size_read w) = (q, idle)

pub record Machine : Type 0 where
  pub queue : Queue
  pub pc : ℕ → Pc

unfoldable pub step : ℕ → ℕ → Machine → Machine
unfolding access
step size t s =
    let moved = access size s.queue (s.pc t) in
    record { queue = moved.0; pc = update s.pc t moved.1 }

-- A thread that is in none of the operations begins one.
pub data Call : Type 0 where
  enqueue : (a : ℕ) → Call
  dequeue measure : Call

abbrev pub begin : Call → Pc
begin (enqueue a) = enq_start a
begin dequeue = deq_start
begin measure = size_start

-- The value that a turn reserves an index for, and the value that a turn takes: the winning CAS.
abbrev pub pushed_by : Queue → Pc → List ℕ
pushed_by q (enq_cas a w) = if q.write_index == w then a ∷ [] else []
pushed_by q _ = []

abbrev pub popped_by : Queue → Pc → List ℕ
popped_by q (deq_cas r v) = if q.read_index == r then v ∷ [] else []
popped_by q _ = []

-- Any interleaving, with the values pushed and the values popped, each in the order of the CASes.
pub data Reach (size : ℕ) (slots : ℕ → ℕ) : List ℕ → List ℕ → Machine → Type 0 where
  start : Reach size slots [] [] (record { queue = new_queue slots; pc = λ t. idle })
  call :
      {pushed popped : List ℕ} {s : Machine} (t : ℕ) (c : Call)
      → Reach size slots pushed popped s
      → s.pc t ≡ idle
      → Reach size slots pushed popped (record s { pc = update s.pc t (begin c) })
  move :
      {pushed popped : List ℕ} {s : Machine} (t : ℕ)
      → Reach size slots pushed popped s
      → Reach size slots
          (pushed ++ pushed_by s.queue (s.pc t))
          (popped ++ popped_by s.queue (s.pc t))
          (step size t s)
