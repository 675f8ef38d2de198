-- ===== src/RedisPool/Traced.antt =====
-- What a connection may do with contexts and replies, and when it may connect.
use basic_component_design.Common.{
  ℕ, suc, ◌≤◌, ◌<◌, ◌≡◌, ap, inl, inr, List, [], ◌∷◌, Option, none, some, arith, Option-cases,
  length,
}
use basic_component_design.RedisPool.{
  Reply, Request, Event, connects, opens, frees_context, sends, replies, frees_reply, Server, State,
  two_64, redis_command,
}

abbrev pub IsOpen : Option ℕ → Type 0
IsOpen none = ⊥
IsOpen (some c) = Unit

-- What may happen: the context that is open, and how many replies are not freed.
pub data Trace : List Event → Option ℕ → ℕ → Type 0 where
  begins : Trace [] none 0
  tries : (t : ℕ) {l : List Event} {n : ℕ} → Trace l none n → Trace (connects t ∷ l) none n
  opened : (c : ℕ) {l : List Event} {n : ℕ} → Trace l none n → Trace (opens c ∷ l) (some c) n
  closed :
      {o : Option ℕ} {l : List Event} {n : ℕ}
      → IsOpen o
      → Trace l o n
      → Trace (frees_context o ∷ l) none n
  sent :
      (r : Request) {o : Option ℕ} {l : List Event} {n : ℕ}
      → IsOpen o
      → Trace l o n
      → Trace (sends o r ∷ l) o n
  replied :
      {o : Option ℕ} {l : List Event} {n : ℕ}
      → IsOpen o
      → Trace l o n
      → Trace (replies ∷ l) o (suc n)
  freed : {o : Option ℕ} {l : List Event} {n : ℕ} → Trace l o (suc n) → Trace (frees_reply ∷ l) o n

-- The times of the attempts to connect, the last first.
abbrev pub times : List Event → List ℕ
times [] = []
times (connects t ∷ l) = t ∷ times l
times (opens c ∷ l) = times l
times (frees_context c ∷ l) = times l
times (sends c r ∷ l) = times l
times (replies ∷ l) = times l
times (frees_reply ∷ l) = times l

-- Each is below the bound and the one in front of it.
abbrev pub Falls : ℕ → List ℕ → Type 0
Falls bound [] = Unit
Falls bound (t ∷ ts) = (t < bound) × Falls t ts

pub Falls-mono : (a b : ℕ) (ts : List ℕ) → a ≤ b → Falls a ts → Falls b ts
Falls-mono a b [] le f = tt
Falls-mono a b (t ∷ ts) le f = (omega arith, f.1)

-- What a part of an operation keeps, with at most `k` replies that are not freed after it.
pub record Kept (k : ℕ) (s t : State) : Type 0 where
  pub outstanding : ℕ
  pub trace : Trace t.log t.context outstanding
  pub few : outstanding ≤ k
  pub same_times : times t.log ≡ times s.log
  pub same_last : t.last_connect_time ≡ s.last_connect_time

-- The state after a command without a reply, and with one.
abbrev pub unanswered : Request → State → State
unanswered request s = record s { calls = suc s.calls; log = sends s.context request ∷ s.log }

abbrev pub answered : Request → State → State
answered request s = record s {
  calls = suc s.calls;
  log = replies ∷ sends s.context request ∷ s.log;
}

module _ (server : Server) where
  pub redis_command-cases {ℓ} :
      (P : State × Option Reply → Type ℓ) (request : Request) (s : State)
      → P (unanswered request s, none)
      → ((r : Reply) → P (answered request s, some r))
      → P (redis_command server request s)
  unfolding redis_command
  redis_command-cases P request s h k = elim (Option-cases (server.command s.calls request)) [
    | inl e ↦ rw (redis_command, e) h
    | inr (r, e) ↦ rw (redis_command, e) (k r)
  ]

-- What holds between two operations: at most one reply for each attempt to connect is not freed.
pub record Sound (s : State) : Type 0 where
  pub outstanding : ℕ
  pub trace : Trace s.log s.context outstanding
  pub few : outstanding ≤ length (times s.log)
  pub falls : Falls (suc s.last_connect_time) (times s.log)
  pub small : suc s.last_connect_time < two_64

pub Kept-Sound :
    (k : ℕ) (s t : State)
    → Kept k s t
    → k ≤ length (times s.log)
    → Falls (suc s.last_connect_time) (times s.log)
    → suc s.last_connect_time < two_64
    → Sound t
Kept-Sound k s t h le falls small = record {
  outstanding = h.outstanding;
  trace = h.trace;
  few = omega (arith, h.few, le, ap length h.same_times);
  falls = rw (h.same_times, h.same_last) falls;
  small = omega (arith, small, h.same_last);
}

pub asked-Sound : (s : State) → Sound s → Sound (record s { calls = suc s.calls })
asked-Sound s h = record {
  outstanding = h.outstanding;
  trace = h.trace;
  few = h.few;
  falls = h.falls;
  small = h.small;
}
