-- ===== src/TimeWheel/Execute.antt =====
-- timer_execute runs all that is due, and ends.
use basic_component_design.Common.{
  ℕ, zero, suc, ◌%◌, ◌≡◌, ◌⊎◌, inl, inr, refl, ap, sym, ◌∙◌, List, [], ◌∷◌, arith, update,
  update_self, update_ne, All, In, List-cases,
}
use native.Mathlib.Decide.{ℕ_discrete}
use basic_component_design.TimeWheel.{
  TimerNode, Wheel, Slot, near_slot, level_slot, dispatch, dispatch_list, execute_loop,
  timer_execute,
}
use basic_component_design.TimeWheel.Placed.{slot_list, Placed, WheelOk, Pending}
use basic_component_design.TimeWheel.Handlers.{
  OnTime, Settled, Keeps, Keeps-refl, Keeps-trans, Handlers, Spared, dispatch-Dispatched,
}

-- A node that was dispatched at `time`.
pub record Served (run : TimerNode → Wheel → Wheel) (time : ℕ) (w w' : Wheel) (m : TimerNode)
    : Type 0 where
  pub due : m.expire ≡ time
  pub gone : In m w'.freed
  pub ran : Spared run m.ptr → w.cancel m.ptr ≡ 0 → In (m, time) w'.fired

module _ (run : TimerNode → Wheel → Wheel) (h : Handlers run) where
  record Listed (ns : List TimerNode) (w w' : Wheel) : Type 0 where
    settled : Settled w'
    keeps : Keeps w w'
    served : (m : TimerNode) → In m ns → Served run w.time w w' m
    spared : (p : ℕ) → Spared run p → w.cancel p ≡ 0 → w'.cancel p ≡ 0

  dispatch_list-Listed :
      (ns : List TimerNode) (w : Wheel)
      → Settled w
      → All (λ n. w.time ≡ n.expire) ns
      → Listed ns w (dispatch_list run ns w)
  unfolding dispatch_list
  dispatch_list-Listed [] w s a = record {
    settled = s;
    keeps = Keeps-refl w;
    served = λ m x. absurd x;
    spared = λ p q x. x;
  }
  dispatch_list-Listed (n ∷ ns) w s (e, a) =
      let w1 = dispatch run n w in
      let d = dispatch-Dispatched run h n w s e in
      let l = dispatch_list-Listed ns w1 d.settled (rw (d.keeps.time) a) in
      record {
        settled = l.settled;
        keeps = Keeps-trans w w1 _ d.keeps l.keeps;
        served = λ m x. elim x [
          | inl q ↦ rw q (record {
            due = sym e;
            gone = l.keeps.freed n d.gone;
            ran = λ _ z. l.keeps.fired (n, w.time) (d.ran z);
          })
          | inr y ↦
              let v = l.served m y in
              record {
                due = v.due ∙ d.keeps.time;
                gone = v.gone;
                ran = λ p z.
                    rw (ap (λ at. In (m, at) (dispatch_list run ns w1).fired) (d.keeps.time)) at
                      (v.ran p (d.spared m.ptr p z));
              }
        ];
        spared = λ p q x. l.spared p q (d.spared p q x);
      }

  -- All nodes of the current list are due now.
  near-due :
      (ns : List TimerNode) (time : ℕ)
      → All (Placed time (near_slot (time % 256))) ns
      → All (λ n. time ≡ n.expire) ns
  near-due [] time a = tt
  near-due (n ∷ ns) time (p, a) =
      let (q, u) = p tt in (omega (arith, q.at, q.due, q.soon), near-due ns time a)

  pub record Executed (w w' : Wheel) : Type 0 where
    pub settled : Settled w'
    pub time : w'.time ≡ w.time
    pub pending : (m : TimerNode) → Pending m w → Pending m w' ⊎ Served run w.time w w' m
    pub stuck : (k : ℕ) (m : TimerNode) → In m (w.t k 0) → In m (w'.t k 0)
    pub freed : (m : TimerNode) → In m w.freed → In m w'.freed
    pub fired : (x : TimerNode × ℕ) → In x w.fired → In x w'.fired
    pub spared : (p : ℕ) → Spared run p → w.cancel p ≡ 0 → w'.cancel p ≡ 0

  pub loop-empty : (fuel idx : ℕ) (w : Wheel) → w.near idx ≡ [] → execute_loop run fuel idx w ≡ w
  unfolding execute_loop
  loop-empty zero idx w e = refl
  loop-empty (suc fuel) idx w e = rw (e, execute_loop) refl

  loop-list :
      (fuel idx : ℕ) (w : Wheel) (n : TimerNode) (ns : List TimerNode)
      → w.near idx ≡ n ∷ ns
      → execute_loop run (suc fuel) idx w
        ≡ execute_loop run fuel idx
            (dispatch_list run (n ∷ ns) (record w { near = update w.near idx [] }))
  unfolding execute_loop
  loop-list fuel idx w n ns e = rw (e, execute_loop) refl

  empty-Executed :
      (w : Wheel) → WheelOk w → All OnTime w.fired → w.near (w.time % 256) ≡ [] → Executed w w
  empty-Executed w ok t e = record {
    settled = record { ready = record { ok = ok; done = e }; on_time = t };
    time = refl;
    pending = λ m p. inl p;
    stuck = λ k m x. x;
    freed = λ m x. x;
    fired = λ x y. y;
    spared = λ p q x. x;
  }

  module _ (w : Wheel) (ok : WheelOk w) (t : All OnTime w.fired) where
    abbrev idx : ℕ
    idx = w.time % 256

    abbrev cleared : Wheel
    cleared = record w { near = update w.near idx [] }

    cleared-Settled : Settled cleared
    cleared-Settled = record {
      ready = record { ok = kept; done = update_self w.near idx [] };
      on_time = t;
    }
      where
        kept : (s : Slot) → All (Placed w.time s) (slot_list cleared s)
        kept (near_slot j) = elim (ℕ_discrete idx j) [
          | yes e ↦
              let f : update w.near idx [] j ≡ [] = rw (← e) (update_self w.near idx []) in rw f tt
          | no e ↦ rw (update_ne w.near idx [] j e) (ok (near_slot j))
        ]
        kept (level_slot k j) = ok (level_slot k j)

    cleared-Pending : (m : TimerNode) → Pending m w → In m (w.near idx) ⊎ Pending m cleared
    cleared-Pending m (near_slot j, live, x) = elim (ℕ_discrete idx j) [
      | yes e ↦ inl (rw e x)
      | no e ↦ inr (near_slot j, live, rw (update_ne w.near idx [] j e) x)
    ]
    cleared-Pending m (level_slot k j, live, x) = inr (level_slot k j, live, x)

    list-Executed :
        (fuel : ℕ) (n : TimerNode) (ns : List TimerNode)
        → w.near idx ≡ n ∷ ns
        → Executed w (execute_loop run (suc fuel) idx w)
    list-Executed fuel n ns e =
        let w' = dispatch_list run (n ∷ ns) cleared in
        let a : All (λ m. w.time ≡ m.expire) (n ∷ ns) =
          near-due (n ∷ ns) w.time (rw e at (ok (near_slot idx))) in
        let l = dispatch_list-Listed (n ∷ ns) cleared cleared-Settled a in
        let q : w'.near idx ≡ [] =
          rw (ap (λ x. w'.near (x % 256)) (l.keeps.time)) at (l.settled.ready.done) in
        let g : execute_loop run (suc fuel) idx w ≡ w' =
          loop-list fuel idx w n ns e ∙ loop-empty fuel idx w' q in
        rw g (record {
          settled = l.settled;
          time = l.keeps.time;
          pending = λ m p. elim (cleared-Pending m p) [
            | inl x ↦
                let v = l.served m (rw (ap (In m) e) at x) in
                inr (record { due = v.due; gone = v.gone; ran = v.ran })
            | inr y ↦ inl (l.keeps.pending m y)
          ];
          stuck = l.keeps.stuck;
          freed = l.keeps.freed;
          fired = l.keeps.fired;
          spared = l.spared;
        })

    -- It ends: once the list is run nothing puts a node into it before the next tick.
    pub timer_execute-Executed : (fuel : ℕ) → Executed w (timer_execute run (suc fuel) w)
    unfolding timer_execute
    timer_execute-Executed fuel = elim (List-cases (w.near idx)) [
      | inl e ↦ rw (loop-empty (suc fuel) idx w e) (empty-Executed w ok t e)
      | inr (n, ns, e) ↦ list-Executed fuel n ns e
    ]
