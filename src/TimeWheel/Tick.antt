-- ===== src/TimeWheel/Tick.antt =====
-- timer_shift keeps the invariant and loses no node.
use basic_component_design.Common.{
  ℕ, zero, suc, ◌+◌, ◌%◌, ◌≤◌, ◌<◌, ◌≡◌, ◌≢◌, ◌⊎◌, inl, inr, refl, ap, ◌∙◌, List, [], ◌∷◌, arith,
  u32_mod, All, In, All-mono, All-In,
}
use native.Mathlib.Decide.{ℕ_discrete}
use basic_component_design.TimeWheel.{
  TimerNode, Wheel, span, Slot, near_slot, level_slot, slot_of, set_level, link, add_node,
  add_nodes, move_list, timer_shift,
}
use basic_component_design.TimeWheel.Slots.{
  slot_of-IsLive, Hits, LevelOk-next, LevelOk-moved, Hits-unique,
}
use basic_component_design.TimeWheel.Placed.{
  slot_list, Placed, WheelOk, Pending, set_level_self, set_level_ne, level-cases, add_nodes-time,
  add_nodes-In, add_nodes-slot, add_nodes-WheelOk,
}
use basic_component_design.TimeWheel.Shift.{timer_shift-Shifted}

-- The wheel between two ticks: all that is due now has been run.
pub record Ready (w : Wheel) : Type 0 where
  pub ok : WheelOk w
  pub done : w.near (w.time % 256) ≡ []

Hits-whole : (ct k i : ℕ) → k < 4 → Hits ct k i → ct % 256 ≡ 0
Hits-whole ct zero i l h = h.whole
Hits-whole ct (suc zero) i l h = omega (arith, h.whole)
Hits-whole ct (suc (suc zero)) i l h = omega (arith, h.whole)
Hits-whole ct (suc (suc (suc zero))) i l h = omega (arith, h.whole)
Hits-whole ct (suc (suc (suc (suc k)))) i l h = absurd (omega arith)

module _ (w : Wheel) (r : Ready w) where
  near-next : (i : ℕ) → All (Placed (w.time + 1) (near_slot i)) (w.near i)
  near-next i = elim (ℕ_discrete (w.time % 256) i) [
    | yes e ↦ let f : w.near i ≡ [] = rw (← e) r.done in rw f tt
    | no e ↦
        All-mono (Placed w.time (near_slot i)) (Placed (w.time + 1) (near_slot i)) (w.near i)
          (λ n p _.
            let (q, u) = p tt in
            (
              record { at = q.at; due = omega (arith, q.at, q.due); soon = omega (arith, q.soon) },
              u,
            ))
          (r.ok (near_slot i))
  ]

  level-next :
      (k i : ℕ)
      → (k < 4 → ¬ Hits (w.time + 1) k i)
      → All (Placed (w.time + 1) (level_slot k i)) (w.t k i)
  level-next k i h =
      All-mono (Placed w.time (level_slot k i)) (Placed (w.time + 1) (level_slot k i)) (w.t k i)
        (λ n p l.
          let ((_, q), u) = p l in ((l.0, LevelOk-next w.time k i n.expire l.0 q (h l.0) l.1), u))
        (r.ok (level_slot k i))

  level-moved :
      (k i : ℕ)
      → k < 4
      → Hits (w.time + 1) k i
      → (m : TimerNode) → In m (w.t k i)
      → (w.time + 1 ≤ m.expire) × (m.expire < w.time + 1 + span k) × (m.expire < u32_mod)
  level-moved k i l h m j =
      let ((_, q), u) =
        All-In (Placed w.time (level_slot k i)) (w.t k i) (r.ok (level_slot k i)) j (l, h.moved) in
      let (a, b) = LevelOk-moved w.time k i m.expire l q h in (a, b, u)

  -- What a tick leaves as it should be.
  pub record Ticked (w' : Wheel) : Type 0 where
    pub ok : WheelOk w'
    pub time : w'.time ≡ w.time + 1
    pub pending : (m : TimerNode) → Pending m w → Pending m w'
    pub stuck : (k : ℕ) (m : TimerNode) → In m (w.t k 0) → In m (w'.t k 0)

  still-Ticked : (w.time + 1) % 256 ≢ 0 → Ticked (record w { time = w.time + 1 })
  still-Ticked z = record { ok = ok; time = refl; pending = λ m p. p; stuck = λ k m h. h }
    where
      ok : (s : Slot) → All (Placed (w.time + 1) s) (slot_list w s)
      ok (near_slot i) = near-next i
      ok (level_slot k i) = level-next k i (λ l h. z (Hits-whole (w.time + 1) k i l h))

  module _ (k i : ℕ) (l : k < 4) (h : Hits (w.time + 1) k i) where
    abbrev emptied : Wheel
    emptied = record w { time = w.time + 1; t = set_level w.t k i [] }

    emptied-WheelOk : WheelOk emptied
    emptied-WheelOk (near_slot j) = near-next j
    emptied-WheelOk (level_slot j m) = elim (level-cases k i j m) [
      | inl (e, f) ↦
          let g : set_level w.t k i [] j m ≡ [] = rw (← e) (rw (← f) (set_level_self w.t k i [])) in
          rw g tt
      | inr d ↦
          let g = set_level_ne w.t k i j m [] d in
          rw g (level-next j m (λ l' h'. apart d (Hits-unique (w.time + 1) k j i m l l' h h')))
    ]
      where
        apart : (k ≢ j) ⊎ (i ≢ m) → ¬ ((k ≡ j) × (i ≡ m))
        apart (inl n) e = n e.0
        apart (inr n) e = n e.1

    emptied-In :
        (m : TimerNode) (s : Slot)
        → In m (slot_list w s)
        → (s ≡ level_slot k i) ⊎ In m (slot_list emptied s)
    emptied-In m (near_slot j) x = inr x
    emptied-In m (level_slot j n) x = elim (level-cases k i j n) [
      | inl (e, f) ↦ inl (rw (e, f) refl)
      | inr d ↦ inr (rw (set_level_ne w.t k i j n [] d) x)
    ]

    moved-Pending : (m : TimerNode) → In m (w.t k i) → Pending m (add_nodes (w.t k i) emptied)
    moved-Pending m x =
        let (a, b, u) = level-moved k i l h m x in
        (
          slot_of (w.time + 1) m.expire,
          slot_of-IsLive k (w.time + 1) m.expire l h.whole a b u,
          add_nodes-slot (w.t k i) m emptied (w.time + 1) refl x,
        )

    All-moved :
        (ns : List TimerNode)
        → ((m : TimerNode) → In m ns → In m (w.t k i))
        → All (λ n. (w.time + 1 ≤ n.expire) × (n.expire < u32_mod)) ns
    All-moved [] f = tt
    All-moved (n ∷ ns) f =
        let (a, b, u) = level-moved k i l h n (f n (inl refl)) in
        ((a, u), All-moved ns (λ m x. f m (inr x)))

    move_list-Ticked : Ticked (move_list k i (record w { time = w.time + 1 }))
    unfolding move_list
    move_list-Ticked = record {
      ok = add_nodes-WheelOk (w.t k i) emptied (All-moved (w.t k i) (λ m x. x)) emptied-WheelOk;
      time = add_nodes-time (w.t k i) emptied;
      pending = pending;
      stuck = λ j m x. add_nodes-In (w.t k i) m (level_slot j 0) emptied (stuck j m x);
    }
      where
        pending : (m : TimerNode) → Pending m w → Pending m (add_nodes (w.t k i) emptied)
        pending m (s, live, x) = elim (emptied-In m s x) [
          | inl e ↦ moved-Pending m (rw (ap (slot_list w) e) at x)
          | inr y ↦ (s, live, add_nodes-In (w.t k i) m s emptied y)
        ]

        stuck : (j : ℕ) (m : TimerNode) → In m (w.t j 0) → In m (set_level w.t k i [] j 0)
        stuck j m x = rw (set_level_ne w.t k i j 0 [] (inr h.moved)) x

  -- The shift moves the list whose time has come, so that every waiting node still waits in a list
  -- where it is due; list 0 of a level keeps what it has.
  pub timer_shift-Ticked : w.time + 1 < u32_mod → Ticked (timer_shift w)
  timer_shift-Ticked u = elim (timer_shift-Shifted w u) [
    | inl (e, z) ↦ rw e (still-Ticked z)
    | inr (k, i, l, h, e) ↦ rw e (move_list-Ticked k i l h)
  ]

-- add_node, and with it the shift, leaves the logs and the marks alone.
abbrev pub Quiet : Wheel → Wheel → Type 0
Quiet w w' = (w'.fired ≡ w.fired) × (w'.freed ≡ w.freed) × (w'.cancel ≡ w.cancel)

link-Quiet : (s : Slot) (n : TimerNode) (w : Wheel) → Quiet w (link s n w)
unfolding link
link-Quiet (near_slot i) n w = (refl, refl, refl)
link-Quiet (level_slot k i) n w = (refl, refl, refl)

pub add_node-Quiet : (n : TimerNode) (w : Wheel) → Quiet w (add_node n w)
unfolding add_node
add_node-Quiet n w = link-Quiet (slot_of w.time n.expire) n w

add_nodes-Quiet : (ns : List TimerNode) (w : Wheel) → Quiet w (add_nodes ns w)
unfolding add_nodes
add_nodes-Quiet [] w = (refl, refl, refl)
add_nodes-Quiet (n ∷ ns) w =
    let (a, b, c) = add_nodes-Quiet ns (add_node n w) in
    let (a', b', c') = add_node-Quiet n w in (a ∙ a', b ∙ b', c ∙ c')

pub timer_shift-Quiet : (w : Wheel) → w.time + 1 < u32_mod → Quiet w (timer_shift w)
unfolding move_list
timer_shift-Quiet w u = elim (timer_shift-Shifted w u) [
  | inl (e, z) ↦ rw e (refl, refl, refl)
  | inr (k, i, l, h, e) ↦
      rw e (add_nodes-Quiet (w.t k i) (record w { time = w.time + 1; t = set_level w.t k i [] }))
]
