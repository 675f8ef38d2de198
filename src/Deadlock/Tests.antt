-- ===== src/Deadlock/Tests.antt =====
-- The detector on graphs of a few threads, and the properties there.
use basic_component_design.Common.{
  ◌⊎◌, ℕ, zero, suc, ◌≡◌, refl, true, false, some, List, [], ◌∷◌, inl, inr, arith,
}
use basic_component_design.Deadlock.Graph.{
  SourceType, Vertex, process, search_vertex, search_from, next_of,
}
use basic_component_design.Deadlock.Graph.Closed.{Closed}
use basic_component_design.Deadlock.Cycle.{
  Search, Cycle, check_dead_lock, check_from, search_for_cycle, cycle_edges, dfs, dfs_edges, reset,
  push_path, mark, report, print_deadlock, ids_along, id_of,
}
use basic_component_design.Deadlock.Cycle.Complete.{check_dead_lock_complete}
use basic_component_design.Deadlock.Cycle.Sound.{check_dead_lock_sound, IsSingle}
use basic_component_design.Deadlock.Locks.{TaskGraph, thread, start_check, lock_before, lock_after}
use basic_component_design.Deadlock.Locks.Hooked.{Hooked}
use basic_component_design.Deadlock.Locks.Slots.{rounds, rounds-lockidx}

abbrev idle : Search
idle = record { path = λ _. 0; visited = λ _. false; k = 0; deadlock = false; printed = [] }

abbrev node : ℕ → List ℕ → Vertex
node id targets = record { s = thread id; next = threads targets }
  where
    threads : List ℕ → List SourceType
    threads [] = []
    threads (x ∷ xs) = thread x ∷ threads xs

-- Thread 1 waits for 2, which waits for 1.
abbrev pair : List Vertex
pair = node 1 (2 ∷ []) ∷ node 2 (1 ∷ []) ∷ []

-- No cycle: 1 waits for 2, 2 for 3 and 4, and those for 5.
abbrev diamond : List Vertex
diamond = node 1 (2 ∷ []) ∷ node 2 (3 ∷ 4 ∷ []) ∷ node 3 (5 ∷ []) ∷ node 4 (5 ∷ []) ∷ node 5 [] ∷ []

pair_found :
    (t : Search) × (check_dead_lock pair idle ≡ some t)
    × (t.deadlock ≡ true)
    × (t.printed ≡ (1 ∷ 2 ∷ 1 ∷ []) ∷ [])
unfolding check_dead_lock check_from search_for_cycle cycle_edges dfs dfs_edges report
    print_deadlock ids_along id_of search_vertex search_from next_of reset push_path mark
pair_found = (_, refl, refl, refl)

-- The search reports a deadlock where none is: it does not forget what a finished branch visited.
diamond_found : (t : Search) × (check_dead_lock diamond idle ≡ some t) × (t.deadlock ≡ true)
unfolding check_dead_lock check_from search_for_cycle cycle_edges dfs dfs_edges report
    print_deadlock ids_along id_of search_vertex search_from next_of reset push_path mark
diamond_found = (_, refl, refl)

pair-Closed : Closed pair
unfolding next_of search_vertex search_from
pair-Closed zero t (inl e) = rw e (1, refl)
pair-Closed zero t (inr m) = absurd m
pair-Closed (suc zero) t (inl e) = rw e (0, refl)
pair-Closed (suc zero) t (inr m) = absurd m
pair-Closed (suc (suc u)) t m = absurd m

pair-IsSingle : IsSingle pair
unfolding next_of
pair-IsSingle zero = omega arith
pair-IsSingle (suc zero) = omega arith
pair-IsSingle (suc (suc u)) = omega arith

check_dead_lock_complete_example :
    (t : Search) × (check_dead_lock pair idle ≡ some t)
    × ((t.deadlock ≡ true) ⊎ ((j : ℕ) → ¬ Cycle pair j))
check_dead_lock_complete_example = check_dead_lock_complete pair idle pair-Closed

check_dead_lock_sound_example : (j : ℕ) × Cycle pair j
check_dead_lock_sound_example =
    check_dead_lock_sound pair idle pair_found.0 pair-Closed pair-IsSingle pair_found.1 pair_found.2

abbrev zeros : ℕ → SourceType
zeros _ = record { id = 0; type = process; lock_id = 0; degress = 0 }

-- Thread 1 locks 100 and thread 2 locks 200; then each waits for the lock of the other.
abbrev entangled : TaskGraph
entangled = lock_before 2 100 (
    lock_before 1 200 (
      lock_after 2 200
        (lock_before 2 200 (lock_after 1 100 (lock_before 1 100 (start_check zeros))))))

rounds-lockidx_example :
    (tg : TaskGraph) × (rounds 101 1 100 (start_check zeros) ≡ some tg) × (tg.lockidx ≡ 101)
rounds-lockidx_example = rounds-lockidx 101 1 100 zeros (omega arith) (λ i. (refl, refl))
