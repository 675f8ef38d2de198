-- ===== src/LockFreeQueue/Progress.antt =====
-- A value whose index is reserved gets committed.
use basic_component_design.Common.{
  ℕ, ◌+◌, ◌<◌, ◌≡◌, ◌⊎◌, inl, inr, List, some, length, update, update_self, arith,
}
use basic_component_design.LockFreeQueue.{
  u64_mod, Queue, Pc, enq_store, enq_commit, access, Machine, step, Reach,
}
use basic_component_design.LockFreeQueue.Invariant.{reserved, reserved_between}
use basic_component_design.LockFreeQueue.Fifo.{Reach-Inv}

owner_commits :
    (size : ℕ) (q : Queue) (p : Pc)
    → q.maximum_read_index + 1 < u64_mod
    → reserved p ≡ some q.maximum_read_index
    → ((access size q p).0.maximum_read_index ≡ q.maximum_read_index + 1)
      ⊎ ((access size (access size q p).0 (access size q p).1).0.maximum_read_index
          ≡ q.maximum_read_index + 1)
unfolding access
owner_commits size q (enq_store a w) fits e = inr (ground arith)
owner_commits size q (enq_commit w) fits e = inl (ground arith)
owner_commits size q _ fits e = absurd (ground arith)

-- A ring of `size` slots under any interleaving of any number of threads, with fewer than
-- 2 ^ 64 - 1 values pushed: while any thread has an index reserved and not committed, there is a
-- thread that has reserved the index at `m_maximumReadIndex`; one access of that thread moves
-- `m_maximumReadIndex` on by 1, or two do, the store of its value and its CAS. So no thread waits
-- at that CAS for ever unless a thread that it waits for stands still.
pub Reach-commits :
    {size : ℕ} {slots : ℕ → ℕ} {pushed popped : List ℕ} {s : Machine} (t w : ℕ)
    → 0 < size
    → Reach size slots pushed popped s
    → length pushed + 1 < u64_mod
    → reserved (s.pc t) ≡ some w
    → (u : ℕ) × (((step size u s).queue.maximum_read_index ≡ s.queue.maximum_read_index + 1)
        ⊎ ((step size u (step size u s)).queue.maximum_read_index ≡ s.queue.maximum_read_index + 1))
unfolding step
Reach-commits {size} {pushed} {s} t w pos r few e =
    let (inv, _, _) = Reach-Inv pos r few in
    let (ge, lt) = reserved_between inv t w (s.pc t) (inv.fresh t) e in
    let (u, eu) = inv.covered s.queue.maximum_read_index (omega arith) (omega arith) in
    let fits : s.queue.maximum_read_index + 1 < u64_mod = omega (arith, inv.written) in
    let moved = access size s.queue (s.pc u) in
    let again : update s.pc u moved.1 u ≡ moved.1 = update_self s.pc u moved.1 in
    (u, rw again (owner_commits size s.queue (s.pc u) fits eu))
