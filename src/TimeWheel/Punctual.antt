-- ===== src/TimeWheel/Punctual.antt =====
-- Each timer that waits where a shift reaches it runs at its tick; the others never do.
use basic_component_design.Common.{
  ℕ, zero, suc, ◌+◌, ◌%◌, ◌≤◌, ◌<◌, ◌≡◌, ◌⊎◌, inl, inr, ap, sym, ◌∙◌, arith, u32_mod, In, All-In,
}
use native.Mathlib.Decide.{ℕ_discrete}
use basic_component_design.TimeWheel.{
  TimerNode, Wheel, near_slot, level_slot, timer_shift, timer_execute, timer_update, timer_updates,
}
use basic_component_design.TimeWheel.Slots.{LevelOk}
use basic_component_design.TimeWheel.Placed.{Placed, Pending}
use basic_component_design.TimeWheel.Tick.{timer_shift-Ticked, timer_shift-Quiet}
use basic_component_design.TimeWheel.Handlers.{Settled, Handlers, Spared}
use basic_component_design.TimeWheel.Execute.{timer_execute-Executed, loop-empty}

LevelOk-due : (time k i expire : ℕ) → k < 4 → LevelOk time k i expire → time < expire
LevelOk-due time zero i expire l h = omega (arith, h.due)
LevelOk-due time (suc zero) i expire l h = omega (arith, h.due)
LevelOk-due time (suc (suc zero)) i expire l h = omega (arith, h.due)
LevelOk-due time (suc (suc (suc zero))) i expire l h = omega (arith, h.due)
LevelOk-due time (suc (suc (suc (suc k)))) i expire l h = absurd (omega arith)

-- What waits in a settled wheel is due later.
Pending-due : (w : Wheel) (m : TimerNode) → Settled w → Pending m w → w.time < m.expire
Pending-due w m s (near_slot j, live, x) =
    let (q, u) = All-In (Placed w.time (near_slot j)) (w.near j) (s.ready.ok (near_slot j)) x tt in
    elim (ℕ_discrete (w.time % 256) j) [
      | yes e ↦ absurd (rw (s.ready.done) at (rw (← e) at x))
      | no e ↦ omega (arith, q.at, q.due)
    ]
Pending-due w m s (level_slot k j, live, x) =
    let ((l, q), u) =
      All-In (Placed w.time (level_slot k j)) (w.t k j) (s.ready.ok (level_slot k j)) x live in
    LevelOk-due w.time k j m.expire l q

module _ (run : TimerNode → Wheel → Wheel) (h : Handlers run) where
  -- The wheel `k` ticks later.
  pub record Later (k : ℕ) (w w' : Wheel) : Type 0 where
    pub settled : Settled w'
    pub time : w'.time ≡ w.time + k
    pub pending :
        (m : TimerNode)
        → Pending m w
        → Pending m w'
          ⊎ ((m.expire ≤ w.time + k)
              × In m w'.freed
              × (Spared run m.ptr → w.cancel m.ptr ≡ 0 → In (m, m.expire) w'.fired))
    pub stuck : (j : ℕ) (m : TimerNode) → In m (w.t j 0) → In m (w'.t j 0)
    pub freed : (m : TimerNode) → In m w.freed → In m w'.freed
    pub fired : (x : TimerNode × ℕ) → In x w.fired → In x w'.fired
    pub spared : (p : ℕ) → Spared run p → w.cancel p ≡ 0 → w'.cancel p ≡ 0

  timer_update-Later :
      (fuel : ℕ) (w : Wheel)
      → Settled w
      → w.time + 1 < u32_mod
      → Later 1 w (timer_update run (suc fuel) w)
  unfolding timer_update timer_execute
  timer_update-Later fuel w s u =
      let first : timer_execute run (suc fuel) w ≡ w =
        loop-empty run h (suc fuel) (w.time % 256) w s.ready.done in
      let w1 = timer_shift w in
      let t = timer_shift-Ticked w s.ready u in
      let (qf, qr, qc) = timer_shift-Quiet w u in
      let x = timer_execute-Executed run h w1 t.ok (rw qf (s.on_time)) fuel in
      rw first (record {
        settled = x.settled;
        time = x.time ∙ t.time;
        pending = λ m p. elim (x.pending m (t.pending m p)) [
          | inl q ↦ inl q
          | inr v ↦ inr (
            omega (arith, v.due, t.time),
            v.gone,
            λ sp z.
                rw (ap (λ e. In (m, e) (timer_execute run (suc fuel) w1).fired) (sym v.due)) at
                  (v.ran sp (rw (ap (λ c. c m.ptr) qc) z)),
          )
        ];
        stuck = λ j m y. x.stuck j m (t.stuck j m y);
        freed = λ m y. x.freed m (rw qr y);
        fired = λ y z. x.fired y (rw qf z);
        spared = λ p sp z. x.spared p sp (rw (ap (λ c. c p) qc) z);
      })

  -- In `k` ticks of a settled wheel, before the clock wraps, every timer that waits where a shift
  -- reaches it and is due by then has been dispatched and freed, its callback run at its own time
  -- unless it was cancelled; the others still wait, and no callback ran at another time.
  pub timer_updates-Later :
      (fuel k : ℕ) (w : Wheel)
      → Settled w
      → w.time + k < u32_mod
      → Later k w (timer_updates run (suc fuel) k w)
  unfolding timer_updates
  timer_updates-Later fuel zero w s u = record {
    settled = s;
    time = omega arith;
    pending = λ m p. inl p;
    stuck = λ j m y. y;
    freed = λ m y. y;
    fired = λ y z. z;
    spared = λ p sp z. z;
  }
  timer_updates-Later fuel (suc k) w s u =
      let w1 = timer_update run (suc fuel) w in
      let a = timer_update-Later fuel w s (omega arith) in
      let b = timer_updates-Later fuel k w1 a.settled (omega (arith, a.time)) in
      record {
        settled = b.settled;
        time = omega (arith, a.time, b.time);
        pending = λ m p. elim (a.pending m p) [
          | inl q ↦ elim (b.pending m q) [
            | inl r ↦ inl r
            | inr (l, g, r) ↦ inr (omega (arith, l, a.time), g, λ sp z. r sp (a.spared m.ptr sp z))
          ]
          | inr (l, g, r) ↦
              inr (omega (arith, l), b.freed m g, λ sp z. b.fired (m, m.expire) (r sp z))
        ];
        stuck = λ j m y. b.stuck j m (a.stuck j m y);
        freed = λ m y. b.freed m (a.freed m y);
        fired = λ y z. b.fired y (a.fired y z);
        spared = λ p sp z. b.spared p sp (a.spared p sp z);
      }

  -- A waiting timer that nobody cancels: after `k` ticks it still waits, if it expires later, and
  -- else it was freed after its callback ran at its own time. No callback ran at another time.
  pub timer_updates-on_time :
      (fuel k : ℕ) (w : Wheel) (m : TimerNode)
      → Settled w
      → w.time + k < u32_mod
      → Pending m w
      → w.cancel m.ptr ≡ 0
      → Spared run m.ptr
      → (let w' = timer_updates run (suc fuel) k w in
          (((w.time + k < m.expire) × Pending m w')
            ⊎ ((m.expire ≤ w.time + k) × In m w'.freed × In (m, m.expire) w'.fired))
          × (w'.time ≡ w.time + k)
          × Settled w')
  timer_updates-on_time fuel k w m s u p z sp =
      let l = timer_updates-Later fuel k w s u in
      (
        elim (l.pending m p) [
          | inl q ↦ inl (omega (arith, Pending-due _ m l.settled q, l.time), q)
          | inr (e, g, r) ↦ inr (e, g, r sp z)
        ],
        l.time,
        l.settled,
      )

  -- A timer in list 0 of a level below the last stays there however many ticks follow.
  pub timer_updates-stuck :
      (fuel k level : ℕ) (w : Wheel) (m : TimerNode)
      → Settled w
      → w.time + k < u32_mod
      → In m (w.t level 0)
      → In m ((timer_updates run (suc fuel) k w).t level 0)
  timer_updates-stuck fuel k level w m s u x = (timer_updates-Later fuel k w s u).stuck level m x
