-- ===== src/Deadlock/Locks/Hooked.antt =====
-- The hooks of all threads, one call after another, and the search that start_check's thread runs
-- between two of them.
use basic_component_design.Common.{ℕ, ◌≤◌, ◌≡◌, length, some}
use basic_component_design.Deadlock.Graph.{SourceType}
use basic_component_design.Deadlock.Graph.Closed.{Closed}
use basic_component_design.Deadlock.Cycle.{Cycle}
use basic_component_design.Deadlock.Locks.{
  TaskGraph, start_check, lock_before, lock_after, unlock_after,
}

-- The calls of lock_before, lock_after and unlock_after that threads make from start_check on, in
-- any order: a thread may wait between its two calls while others lock and unlock. The vertices and
-- the slots stay within the arrays of MAX.
pub data Hooked (memory : ℕ → SourceType) : TaskGraph → Type 0 where
  start : Hooked memory (start_check memory)
  before :
      (thread_id lockaddr : ℕ) {tg : TaskGraph}
      → Hooked memory tg
      → length (lock_before thread_id lockaddr tg).list ≤ 100
      → Hooked memory (lock_before thread_id lockaddr tg)
  after :
      (thread_id lockaddr : ℕ) {tg : TaskGraph}
      → Hooked memory tg
      → (lock_after thread_id lockaddr tg).lockidx ≤ 100
      → Hooked memory (lock_after thread_id lockaddr tg)
  unlocked :
      (thread_id lockaddr : ℕ) {tg tg' : TaskGraph}
      → Hooked memory tg
      → unlock_after thread_id lockaddr tg ≡ some tg'
      → Hooked memory tg'
