-- ===== src/TimeWheel/Tests.antt =====
-- The wheel with a callback that starts a further timer of 100 ticks.
use basic_component_design.Common.{
  ℕ, ◌+◌, ◌-◌, ◌*◌, ◌<◌, ◌≤◌, ◌≡◌, ◌⊎◌, inl, inr, refl, ap, ◌∙◌, arith, ltb, u32_mod, [],
  if◌then◌else◌, All, In, Bool-cases, ltb→lt,
}
use basic_component_design.TimeWheel.{
  TimerNode, Wheel, Slot, near_slot, level_slot, slot_of, link, add_node, expire_timer, init_timer,
  clear_timer, timer_create_timer,
}
use basic_component_design.TimeWheel.Placed.{
  slot_list, Placed, Pending, add_node-In, add_node-slot, add_node-time,
}
use basic_component_design.TimeWheel.Clear.{tally, held, clear_timer-frees}
use basic_component_design.TimeWheel.Tick.{add_node-Quiet}
use basic_component_design.TimeWheel.Handlers.{Settled, Keeps, Keeps-refl, Handlers, Spared}
use basic_component_design.TimeWheel.Adding.{add_node-Settled, expire_timer-on_time}

abbrev again : ℕ → TimerNode → TimerNode
again now n = record n { expire = now + 100 }

abbrev restart : TimerNode → Wheel → Wheel
restart n w = if ltb (w.time + 100) u32_mod then add_node (again w.time n) w else w

restart-Settled : (n : TimerNode) (w : Wheel) → Settled w → Settled (restart n w)
restart-Settled n w s = elim (Bool-cases (ltb (w.time + 100) u32_mod)) [
  | inl t ↦
      rw t (add_node-Settled (again w.time n) w (omega arith) (ltb→lt (w.time + 100) u32_mod t) s)
  | inr t ↦ rw t s
]

add_node-Keeps : (n : TimerNode) (w : Wheel) → Keeps w (add_node n w)
add_node-Keeps n w =
    let (qf, qr, qc) = add_node-Quiet n w in
    record {
      time = add_node-time n w;
      pending = λ m (s, live, x). (s, live, add_node-In n m s w x);
      stuck = λ k m x. add_node-In n m (level_slot k 0) w x;
      freed = λ m x. rw qr x;
      fired = λ y x. rw qf x;
    }

restart-Keeps : (n : TimerNode) (w : Wheel) → Keeps w (restart n w)
restart-Keeps n w = elim (Bool-cases (ltb (w.time + 100) u32_mod)) [
  | inl t ↦ rw t (add_node-Keeps (again w.time n) w)
  | inr t ↦ rw t (Keeps-refl w)
]

restart-Handlers : Handlers restart
restart-Handlers = record { settled = restart-Settled; keeps = λ n w s. restart-Keeps n w }

restart-Spared : (p : ℕ) → Spared restart p
restart-Spared p n w z = elim (Bool-cases (ltb (w.time + 100) u32_mod)) [
  | inl t ↦ let (_, _, qc) = add_node-Quiet (again w.time n) w in rw t (ap (λ c. c p) qc ∙ z)
  | inr t ↦ rw t z
]

abbrev heap : ℕ → ℕ × ℕ
heap n = (4096 + 32 * n, 0)

abbrev start : Wheel
start = init_timer 7

start_lem : (start.time ≡ 0) × (start.calls ≡ 0) × (start.current_point ≡ 7)
unfolding init_timer timer_create_timer
start_lem = (refl, refl, refl)

-- A wheel without timers at a later time.
abbrev empty_at : ℕ → Wheel
empty_at time = record start { time = time }

empty_at-Settled : (time : ℕ) → Settled (empty_at time)
unfolding init_timer timer_create_timer
empty_at-Settled time = record { ready = record { ok = empty; done = refl }; on_time = tt }
  where
    empty : (s : Slot) → All (Placed time s) (slot_list (empty_at time) s)
    empty (near_slot i) = tt
    empty (level_slot k i) = tt

slot_of-300 : slot_of 0 300 ≡ level_slot 0 1
unfolding slot_of
slot_of-300 = refl

-- A wheel with one timer of 300 ticks.
abbrev one : TimerNode
one = record { ptr = 4096; expire = 300; callback = 1; id = 5 }

abbrev waiting : Wheel
waiting = add_node one (empty_at 0)

waiting-Settled : Settled waiting
waiting-Settled = add_node-Settled one (empty_at 0) (omega arith) (omega arith) (empty_at-Settled 0)

waiting-Pending : Pending one waiting
waiting-Pending =
    (slot_of 0 300, rw slot_of-300 (omega arith, omega arith), add_node-slot one (empty_at 0))

waiting-point :
    (waiting.current_point ≤ 1000) × (waiting.time + (1000 - waiting.current_point) < u32_mod)
unfolding init_timer timer_create_timer add_node link slot_of
waiting-point = (omega arith, omega arith)

waiting-cancel : waiting.cancel 4096 ≡ 0
unfolding init_timer timer_create_timer
waiting-cancel = let (_, _, q) = add_node-Quiet one (empty_at 0) in ap (λ c. c 4096) q

expire_timer-on_time_example :
    (let w' = expire_timer restart 1 1000 waiting in
      (((w'.time < 300) × Pending one w')
        ⊎ ((300 ≤ w'.time) × In one w'.freed × In (one, 300) w'.fired))
      × (w'.time ≡ waiting.time + (1000 - waiting.current_point))
      × Settled w')
expire_timer-on_time_example =
    expire_timer-on_time restart 0 1000 waiting one restart-Handlers waiting-Settled waiting-point.0
      (omega arith) waiting-point.1 waiting-Pending waiting-cancel (restart-Spared 4096)

clear_timer-frees_example :
    ((p : ℕ) → tally p (clear_timer waiting).freed ≡ held p waiting + tally p waiting.freed)
    × ((i : ℕ) → i < 256 → (clear_timer waiting).near i ≡ [])
    × ((k i : ℕ) → k < 4 → i < 64 → (clear_timer waiting).t k i ≡ [])
    × ((clear_timer waiting).fired ≡ waiting.fired)
clear_timer-frees_example = clear_timer-frees waiting
