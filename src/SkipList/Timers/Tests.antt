-- ===== src/SkipList/Timers/Tests.antt =====
-- Runs of the timers over the skip list.
use basic_component_design.Common.{
  ℕ, ◌≡◌, ap, refl, Option, none, some, List, [], ◌∷◌, ◌==◌, if◌then◌else◌, length, arith,
}
use basic_component_design.SkipList.{
  SkipList, set_forward, zsl_create_node, clear_levels, zsl_create, find, fill, walk, link_levels,
  zsl_insert, lower, zsl_min, zsl_delete_head, unlink_head,
}
use basic_component_design.SkipList.Timers.{Run, init_timer, add_timer, expire_loop, expire_timer}
use basic_component_design.SkipList.Timers.Expire.{Expires, expire_timer-Expires}
use basic_component_design.SkipList.Timers.Refines.{Reach, starts, adds, Stands, Reach-Stands}

abbrev empty : SkipList
empty = init_timer (λ x i. 77) 1 0

-- At 100: node 5 is due at 130, node 6 at 110 and node 7 at 120.
abbrev one : SkipList
one = add_timer 5 5 2 100 30 0 empty

abbrev two : SkipList
two = add_timer 5 6 1 100 10 0 one

abbrev three : SkipList
three = add_timer 5 7 3 100 20 0 two

three-Reach : Reach three (6 ∷ 7 ∷ 5 ∷ [])
unfolding init_timer add_timer zsl_create zsl_create_node clear_levels set_forward zsl_insert find
    fill walk link_levels
three-Reach =
    adds 5 7 3 100 20 0
      (adds 5 6 1 100 10 0
        (adds 5 5 2 100 30 0 (starts (λ x i. 77) 1 0) (omega arith) (omega arith, omega arith, tt)
          (omega arith, omega arith))
        (omega arith) (omega arith, omega arith, (omega arith, tt)) (omega arith, omega arith))
      (omega arith) (omega arith, omega arith, (omega arith, (omega arith, tt)))
      (omega arith, omega arith)

Reach-Stands_example : Stands three (6 ∷ 7 ∷ 5 ∷ [])
Reach-Stands_example = Reach-Stands three-Reach

abbrev stood : Stands three (6 ∷ 7 ∷ 5 ∷ [])
stood = Reach-Stands three-Reach

expire_timer-Expires_example :
    Expires 120 three.length three.score (stood.rows 0) [] (expire_timer (λ x s. s) 4 120 three)
expire_timer-Expires_example =
    expire_timer-Expires (λ x s. s) (λ x s. refl) 120 4 three stood.rows stood.ordered
      (omega (arith, ap (λ (q : List ℕ). length q) stood.first_row))

-- What is left of a run, and what fired.
abbrev outcome : Option Run → Option (List ℕ × ℕ)
outcome none = none
outcome (some r) = some (r.fired, zsl_min r.list)

due_fired : outcome (expire_timer (λ x s. s) 4 120 three) ≡ some (6 ∷ 7 ∷ [], 5)
unfolding expire_timer expire_loop init_timer add_timer zsl_create zsl_create_node clear_levels
    set_forward zsl_insert find fill walk link_levels zsl_min zsl_delete_head unlink_head lower
due_fired = refl

-- The handler of node 6 adds node 8 for the same time, once: it comes before node 6, and is taken off in
-- its place, so that node 6 runs again and node 8 never does.
abbrev adding : ℕ → SkipList → SkipList
adding x s = if x == 6 then (if s.score 8 == 0 then add_timer 5 8 1 110 0 0 s else s) else s

runs_twice : outcome (expire_timer adding 9 110 three) ≡ some (6 ∷ 6 ∷ [], 7)
unfolding expire_timer expire_loop init_timer add_timer zsl_create zsl_create_node clear_levels
    set_forward zsl_insert find fill walk link_levels zsl_min zsl_delete_head unlink_head lower
runs_twice = refl
