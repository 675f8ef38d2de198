-- ===== src/Deadlock/Locks.antt =====
-- The bookkeeping round a mutex: lock_before, lock_after and unlock_after of deadlock_success.c.
-- `locklist` is the array; malloc leaves its contents unset, so they are what the state starts with.
-- The list of vertices and `locklist` have no end here, where the code's arrays have MAX items:
-- Locks/Slots shows that they can be left, and Locks/Hooked asks that they are not.
-- `degress` counts modulo 2 ^ 32. A thread that a call names is a PROCESS vertex; the code leaves
-- the other two fields of such a vertex unset and never reads them.
pub mod Owner
pub mod Closed
pub mod Hooked
pub mod Slots
use basic_component_design.Common.{
  ℕ, zero, suc, ◌+◌, Bool, true, false, not, Option, none, some, List, [], ◌==◌, if◌then◌else◌,
  update, add_u32, sub_u32,
}
use basic_component_design.Deadlock.Graph.{
  SourceType, Vertex, process, add_vertex, add_edge, remove_edge, verify_edge,
}

pub record TaskGraph : Type 0 where
  pub list : List Vertex
  pub locklist : ℕ → SourceType
  pub lockidx : ℕ

-- start_check: num and lockidx are set to 0.
unfoldable pub start_check : (ℕ → SourceType) → TaskGraph
start_check memory = record { list = []; locklist = memory; lockidx = 0 }

abbrev pub thread : ℕ → SourceType
thread id = record { id = id; type = process; lock_id = 0; degress = 0 }

-- The loop of search_lock over `n` slots from `i` on; `none` is -1.
unfoldable pub search_lock_from : (ℕ → SourceType) → ℕ → ℕ → ℕ → Option ℕ
search_lock_from locklist lock zero i = none
search_lock_from locklist lock (suc n) i =
    if (locklist i).lock_id == lock then some i else search_lock_from locklist lock n (suc i)

unfoldable pub search_lock : TaskGraph → ℕ → Option ℕ
search_lock tg lock = search_lock_from tg.locklist lock tg.lockidx 0

unfoldable pub search_empty_lock : TaskGraph → ℕ
search_empty_lock tg = elim (search_lock_from tg.locklist 0 tg.lockidx 0) [
  | none ↦ tg.lockidx
  | some i ↦ i
]

-- What lock_before does at a slot that holds the lock.
unfoldable pub wait_for : ℕ → ℕ → TaskGraph → TaskGraph
wait_for thread_id idx tg =
    let from = thread thread_id in
    let slot = tg.locklist idx in
    let to = thread slot.id in
    let l = add_vertex (add_vertex tg.list from) to in
    record tg {
      list = if not (verify_edge l from to) then add_edge l from to else l;
      locklist = update tg.locklist idx (record slot { degress = add_u32 slot.degress 1 });
    }

-- The loop of lock_before over `n` slots from `idx` on.
unfoldable pub lock_before_from : ℕ → ℕ → ℕ → ℕ → TaskGraph → TaskGraph
lock_before_from thread_id lockaddr zero idx tg = tg
lock_before_from thread_id lockaddr (suc n) idx tg =
    lock_before_from thread_id lockaddr n (suc idx)
      (if (tg.locklist idx).lock_id == lockaddr then wait_for thread_id idx tg else tg)

unfoldable pub lock_before : ℕ → ℕ → TaskGraph → TaskGraph
lock_before thread_id lockaddr tg = lock_before_from thread_id lockaddr tg.lockidx 0 tg

-- A lock that no slot holds takes an empty slot; `inc` adds 1 to lockidx in either case.
unfoldable pub take_slot : ℕ → ℕ → TaskGraph → TaskGraph
take_slot thread_id lockaddr tg =
    let eidx = search_empty_lock tg in
    record tg {
      locklist =
          update tg.locklist eidx
            (record (tg.locklist eidx) { id = thread_id; lock_id = lockaddr });
      lockidx = tg.lockidx + 1;
    }

-- A lock that changes hands at the slot `idx`.
unfoldable pub change_hands : ℕ → ℕ → TaskGraph → TaskGraph
change_hands thread_id idx tg =
    let from = thread thread_id in
    let slot = tg.locklist idx in
    let to = thread slot.id in
    record tg {
      list = if verify_edge tg.list from to then remove_edge tg.list from to else tg.list;
      locklist =
          update tg.locklist idx (record slot { id = thread_id; degress = sub_u32 slot.degress 1 });
    }

unfoldable pub lock_after : ℕ → ℕ → TaskGraph → TaskGraph
lock_after thread_id lockaddr tg = elim (search_lock tg lockaddr) [
  | none ↦ take_slot thread_id lockaddr tg
  | some idx ↦ change_hands thread_id idx tg
]

-- `none`: the lock is in no slot, and the code reads locklist[-1].
unfoldable pub unlock_after : ℕ → ℕ → TaskGraph → Option TaskGraph
unlock_after thread_id lockaddr tg = elim (search_lock tg lockaddr) [
  | none ↦ none
  | some idx ↦
      let slot = tg.locklist idx in
      some (
        if slot.degress == 0
        then record tg { locklist = update tg.locklist idx (record slot { id = 0; lock_id = 0 }) }
        else tg)
]

-- The two hooks, where no other thread runs between the calls and the mutex is free.
unfoldable pub pthread_mutex_lock : ℕ → ℕ → TaskGraph → TaskGraph
pthread_mutex_lock selfid mutex tg = lock_after selfid mutex (lock_before selfid mutex tg)

unfoldable pub pthread_mutex_unlock : ℕ → ℕ → TaskGraph → Option TaskGraph
pthread_mutex_unlock selfid mutex tg = unlock_after selfid mutex tg
