-- ===== src/Deadlock/Locks/Closed.antt =====
-- The hooks keep every edge of the graph on a vertex.
use basic_component_design.Common.{ℕ, zero, suc, inl, inr, ◌==◌, Option-cases, Bool-cases}
use basic_component_design.Deadlock.Graph.{add_vertex, verify_edge}
use basic_component_design.Deadlock.Graph.Closed.{
  Closed, add_vertex-Closed, add_edge-Closed, remove_edge-Closed,
}
use basic_component_design.Deadlock.Locks.{
  TaskGraph, thread, search_lock, wait_for, lock_before_from, lock_before, take_slot, change_hands,
  lock_after,
}

wait_for-Closed : (t i : ℕ) (tg : TaskGraph) → Closed tg.list → Closed (wait_for t i tg).list
unfolding wait_for
wait_for-Closed t i tg c =
    let to = thread (tg.locklist i).id in
    let l1 = add_vertex tg.list (thread t) in
    let l = add_vertex l1 to in
    let c' = add_vertex-Closed l1 to (add_vertex-Closed tg.list (thread t) c) in
    elim (Bool-cases (verify_edge l (thread t) to)) [
      | inl e ↦ rw e c'
      | inr e ↦ rw e (add_edge-Closed l (thread t) to c')
    ]

lock_before_from-Closed :
    (t a n i : ℕ) (tg : TaskGraph) → Closed tg.list → Closed (lock_before_from t a n i tg).list
unfolding lock_before_from
lock_before_from-Closed t a zero i tg c = c
lock_before_from-Closed t a (suc n) i tg c = elim (Bool-cases ((tg.locklist i).lock_id == a)) [
  | inl e ↦
      rw (e, lock_before_from)
        (lock_before_from-Closed t a n (suc i) (wait_for t i tg) (wait_for-Closed t i tg c))
  | inr e ↦ rw (e, lock_before_from) (lock_before_from-Closed t a n (suc i) tg c)
]

pub lock_before-Closed :
    (t a : ℕ) (tg : TaskGraph) → Closed tg.list → Closed (lock_before t a tg).list
unfolding lock_before
lock_before-Closed t a tg c = lock_before_from-Closed t a tg.lockidx 0 tg c

pub lock_after-Closed :
    (t a : ℕ) (tg : TaskGraph) → Closed tg.list → Closed (lock_after t a tg).list
unfolding lock_after take_slot change_hands
lock_after-Closed t a tg c = elim (Option-cases (search_lock tg a)) [
  | inl e ↦ rw (e, lock_after) c
  | inr (i, e) ↦
      rw (e, lock_after)
        (elim (Bool-cases (verify_edge tg.list (thread t) (thread (tg.locklist i).id))) [
          | inl v ↦ rw v (remove_edge-Closed tg.list (thread t) (thread (tg.locklist i).id) c)
          | inr v ↦ rw v c
        ])
]
