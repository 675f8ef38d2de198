-- ===== src/TimeWheel/Handlers.antt =====
-- What the callbacks may do to the wheel, and dispatch_list and timer_execute with such callbacks.
use basic_component_design.Common.{
  ℕ, ◌≡◌, ◌≢◌, inl, inr, refl, ◌∙◌, ◌==◌, true, false, ◌∷◌, arith, All, In,
}
use native.Mathlib.Decide.{ℕ_discrete}
use basic_component_design.TimeWheel.{TimerNode, Wheel, dispatch}
use basic_component_design.TimeWheel.Placed.{Pending}
use basic_component_design.TimeWheel.Tick.{Ready}

-- A callback ran at the time at which its node expires.
abbrev pub OnTime : TimerNode × ℕ → Type 0
OnTime (n, at) = at ≡ n.expire

-- The wheel between two ticks, with the log of callbacks right.
pub record Settled (w : Wheel) : Type 0 where
  pub ready : Ready w
  pub on_time : All OnTime w.fired

-- What a step of dispatch_list keeps of the wheel.
pub record Keeps (w w' : Wheel) : Type 0 where
  pub time : w'.time ≡ w.time
  pub pending : (m : TimerNode) → Pending m w → Pending m w'
  pub stuck : (k : ℕ) (m : TimerNode) → In m (w.t k 0) → In m (w'.t k 0)
  pub freed : (m : TimerNode) → In m w.freed → In m w'.freed
  pub fired : (x : TimerNode × ℕ) → In x w.fired → In x w'.fired

pub Keeps-refl : (w : Wheel) → Keeps w w
Keeps-refl w = record {
  time = refl;
  pending = λ m p. p;
  stuck = λ k m h. h;
  freed = λ m h. h;
  fired = λ x h. h;
}

pub Keeps-trans : (w w' w'' : Wheel) → Keeps w w' → Keeps w' w'' → Keeps w w''
Keeps-trans w w' w'' a b = record {
  time = b.time ∙ a.time;
  pending = λ m p. b.pending m (a.pending m p);
  stuck = λ k m h. b.stuck k m (a.stuck k m h);
  freed = λ m h. b.freed m (a.freed m h);
  fired = λ x h. b.fired x (a.fired x h);
}

-- The callbacks leave the wheel settled; they may add timers and cancel some.
pub record Handlers (run : TimerNode → Wheel → Wheel) : Type 0 where
  pub settled : (n : TimerNode) (w : Wheel) → Settled w → Settled (run n w)
  pub keeps : (n : TimerNode) (w : Wheel) → Settled w → Keeps w (run n w)

-- No callback cancels the node at `p`.
abbrev pub Spared : (TimerNode → Wheel → Wheel) → ℕ → Type 0
Spared run p = (n : TimerNode) (w : Wheel) → w.cancel p ≡ 0 → (run n w).cancel p ≡ 0

module _ (run : TimerNode → Wheel → Wheel) (h : Handlers run) where
  dispatch-on :
      (n : TimerNode) (w : Wheel)
      → w.cancel n.ptr ≡ 0
      → dispatch run n w ≡ (
          let w' = run n (record w { fired = (n, w.time) ∷ w.fired }) in
          record w' { freed = n ∷ w'.freed })
  unfolding dispatch
  dispatch-on n w e = let t : (w.cancel n.ptr == 0) ≡ true = ground arith in rw (t, dispatch) refl

  dispatch-off :
      (n : TimerNode) (w : Wheel)
      → w.cancel n.ptr ≢ 0
      → dispatch run n w ≡ record w { freed = n ∷ w.freed }
  unfolding dispatch
  dispatch-off n w e = let t : (w.cancel n.ptr == 0) ≡ false = ground arith in rw (t, dispatch) refl

  pub record Dispatched (n : TimerNode) (w w' : Wheel) : Type 0 where
    pub settled : Settled w'
    pub keeps : Keeps w w'
    pub gone : In n w'.freed
    pub ran : w.cancel n.ptr ≡ 0 → In (n, w.time) w'.fired
    pub spared : (p : ℕ) → Spared run p → w.cancel p ≡ 0 → w'.cancel p ≡ 0

  pub dispatch-Dispatched :
      (n : TimerNode) (w : Wheel)
      → Settled w
      → w.time ≡ n.expire
      → Dispatched n w (dispatch run n w)
  dispatch-Dispatched n w s e = elim (ℕ_discrete (w.cancel n.ptr) 0) [
    | yes z ↦
        let w1 = record w { fired = (n, w.time) ∷ w.fired } in
        let s1 : Settled w1 = record {
          ready = record { ok = s.ready.ok; done = s.ready.done };
          on_time = (e, s.on_time);
        } in
        let s2 = h.settled n w1 s1 in
        let k = h.keeps n w1 s1 in
        rw (dispatch-on n w z) (record {
          settled = record {
            ready = record { ok = s2.ready.ok; done = s2.ready.done };
            on_time = s2.on_time;
          };
          keeps = record {
            time = k.time;
            pending = λ m p. k.pending m p;
            stuck = k.stuck;
            freed = λ m x. inr (k.freed m x);
            fired = λ x y. k.fired x (inr y);
          };
          gone = inl refl;
          ran = λ _. k.fired (n, w.time) (inl refl);
          spared = λ p q x. q n w1 x;
        })
    | no z ↦ rw (dispatch-off n w z) (record {
      settled = record {
        ready = record { ok = s.ready.ok; done = s.ready.done };
        on_time = s.on_time;
      };
      keeps = record {
        time = refl;
        pending = λ m p. p;
        stuck = λ k m x. x;
        freed = λ m x. inr x;
        fired = λ x y. y;
      };
      gone = inl refl;
      ran = λ x. absurd (z x);
      spared = λ p q x. x;
    })
  ]
