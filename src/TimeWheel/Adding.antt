-- ===== src/TimeWheel/Adding.antt =====
-- add_timer: where the new node goes, and when it runs.
use basic_component_design.Common.{
  ℕ, suc, ◌+◌, ◌-◌, ◌%◌, ◌≤◌, ◌<◌, ◌≡◌, ◌≢◌, ◌⊎◌, inl, inr, refl, ap, sym, ◌∙◌, ◌==◌, false, some,
  [], arith, leb, u32_mod, add_u32, sub_u32, Bool-cases, In, update,
}
use basic_component_design.TimeWheel.{
  TimerNode, Wheel, Slot, near_slot, level_slot, slot_of, add_node, timer_updates, add_timer,
  expire_timer, init_timer, timer_create_timer, u64_mod,
}
use basic_component_design.TimeWheel.Placed.{
  WheelOk, Pending, link-cases, add_node-WheelOk, add_node-time,
}
use basic_component_design.TimeWheel.Tick.{add_node-Quiet}
use basic_component_design.TimeWheel.Handlers.{Settled, Handlers, Spared}
use basic_component_design.TimeWheel.Punctual.{timer_updates-on_time}

-- The index in near[], and one that does not occur there for the levels.
abbrev near_index : Slot → ℕ
near_index (near_slot i) = i
near_index (level_slot k i) = 256

-- A later time does not lead into the list of the current one.
near_index-later :
    (time expire : ℕ)
    → time < expire
    → expire < u32_mod
    → near_index (slot_of time expire) ≢ time % 256
unfolding slot_of
near_index-later time expire l u =
    let f : sub_u32 expire time ≡ expire - time = omega arith in rw f (ground arith)

slot_of-later :
    (time expire : ℕ)
    → time < expire
    → expire < u32_mod
    → slot_of time expire ≢ near_slot (time % 256)
slot_of-later time expire l u e = near_index-later time expire l u (ap near_index e)

-- A node that is due later leaves the wheel settled.
pub add_node-Settled :
    (n : TimerNode) (w : Wheel)
    → w.time < n.expire
    → n.expire < u32_mod
    → Settled w
    → Settled (add_node n w)
unfolding add_node
add_node-Settled n w l u s =
    let t = add_node-time n w in
    let (qf, _, _) = add_node-Quiet n w in
    let e : (add_node n w).near (w.time % 256) ≡ [] =
      elim (link-cases (slot_of w.time n.expire) (near_slot (w.time % 256)) n w) [
        | inl q ↦ absurd (slot_of-later w.time n.expire l u q)
        | inr q ↦ q ∙ s.ready.done
      ] in
    record {
      ready = record { ok = add_node-WheelOk n w (omega arith) u s.ready.ok; done = rw t e };
      on_time = rw qf s.on_time;
    }

-- The node of a timer that add_timer accepts.
abbrev new_timer : ℕ → ℕ → ℕ → ℕ → ℕ → TimerNode
new_timer ptr now time func threadid = record {
  ptr = ptr;
  expire = now + time;
  callback = func;
  id = threadid;
}

module _ (run : TimerNode → Wheel → Wheel) (malloc : ℕ → ℕ × ℕ) (time func threadid : ℕ)
    (w : Wheel) where
  abbrev pub added : TimerNode
  added = new_timer (malloc w.calls).0 w.time time func threadid

  abbrev pub noted : Wheel
  noted = record w {
    calls = suc w.calls;
    cancel = update w.cancel (malloc w.calls).0 (malloc w.calls).1;
  }

  pub add_timer-accepted :
      0 < time
      → time < 2147483648
      → w.time + time < u32_mod
      → add_timer run malloc time func threadid w ≡ (some (malloc w.calls).0, add_node added noted)
  unfolding add_timer
  add_timer-accepted a b u =
      let e : add_u32 time w.time ≡ w.time + time = omega arith in
      let f : (time == 0) ≡ false = ground arith in
      let g : leb 2147483648 time ≡ false = ground arith in
      rw (f, add_timer) (rw (g, add_timer) (rw e refl))

-- expire_timer makes up for all ticks that passed since it was called last.
pub expire_timer_lem :
    (run : TimerNode → Wheel → Wheel) (fuel cp : ℕ) (w : Wheel)
    → w.current_point ≤ cp
    → cp < u64_mod
    → cp - w.current_point < u32_mod
    → expire_timer run fuel cp w
      ≡ timer_updates run fuel (cp - w.current_point) (record w { current_point = cp })
unfolding expire_timer timer_updates
expire_timer_lem run fuel cp w l b u = elim (Bool-cases (cp == w.current_point)) [
  | inl t ↦
      let e : cp - w.current_point ≡ 0 = ground arith in
      let f : cp ≡ w.current_point = ground arith in
      rw (t, expire_timer) (rw e (ap (λ c. record w { current_point = c }) (sym f)))
  | inr t ↦
      let e : (cp + u64_mod - w.current_point) % u64_mod % u32_mod ≡ cp - w.current_point =
        omega arith in
      rw (t, expire_timer) (rw e refl)
]

-- In a settled wheel, with callbacks that keep a wheel settled, that drop no timer that waits and no
-- entry of the logs, and that do not cancel this timer: a timer that is not cancelled and waits in a
-- near list, or in a list of a level at an index that is not 0, and a call of expire_timer at the
-- clock `cp`, before the time of the wheel wraps. The wheel's time moves on by as much as the clock
-- did; the timer still waits in such a list if it expires later, and else its callback ran at its
-- own time and it was freed. No callback ran at another time than its timer's, and the wheel is
-- settled. Timers in a level's list at index 0 are not spoken of.
pub expire_timer-on_time :
    (run : TimerNode → Wheel → Wheel) (fuel cp : ℕ) (w : Wheel) (m : TimerNode)
    → Handlers run
    → Settled w
    → w.current_point ≤ cp
    → cp < u64_mod
    → w.time + (cp - w.current_point) < u32_mod
    → Pending m w
    → w.cancel m.ptr ≡ 0
    → Spared run m.ptr
    → (let w' = expire_timer run (suc fuel) cp w in
        (((w'.time < m.expire) × Pending m w')
          ⊎ ((m.expire ≤ w'.time) × In m w'.freed × In (m, m.expire) w'.fired))
        × (w'.time ≡ w.time + (cp - w.current_point))
        × Settled w')
expire_timer-on_time run fuel cp w m h s l b u p z sp =
    let d = cp - w.current_point in
    let w1 = record w { current_point = cp } in
    let s1 : Settled w1 = record {
      ready = record { ok = s.ready.ok; done = s.ready.done };
      on_time = s.on_time;
    } in
    let (r, t, s') = timer_updates-on_time run h fuel d w1 m s1 u p z sp in
    rw (expire_timer_lem run (suc fuel) cp w l b (omega arith)) (
      elim r [
        | inl (late, q) ↦ inl (omega (arith, t), q)
        | inr (due, g, f) ↦ inr (omega (arith, t), g, f)
      ],
      t,
      s',
    )

-- The wheel that init_timer sets up is settled.
pub init_timer-Settled : (cp : ℕ) → Settled (init_timer cp)
unfolding init_timer timer_create_timer
init_timer-Settled cp = record { ready = record { ok = empty; done = refl }; on_time = tt }
  where
    empty : WheelOk (record timer_create_timer { current_point = cp })
    empty (near_slot i) = tt
    empty (level_slot k i) = tt
