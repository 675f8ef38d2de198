-- ===== src/TimeWheel/Slots.antt =====
-- Which nodes belong in which list of the wheel, and that add_node and the shift keep to it.
use basic_component_design.Common.{
  ℕ, zero, suc, ◌+◌, ◌-◌, ◌/◌, ◌%◌, ◌≤◌, ◌<◌, ◌≡◌, ◌≢◌, ◌⊎◌, inl, inr, arith, u32_mod, sub_u32,
}
use native.Mathlib.Decide.{ℕ_discrete}
use basic_component_design.TimeWheel.{span, Slot, near_slot, level_slot, slot_of}

-- A node that fires within the next 256 ticks.
pub record NearOk (time i expire : ℕ) : Type 0 where
  pub at : expire % 256 ≡ i
  pub due : time ≤ expire
  pub soon : expire < time + 256

-- A node that a later shift takes out of list `i` of level `k`.
pub record LevelOk (time k i expire : ℕ) : Type 0 where
  pub at : expire / span k % 64 ≡ i
  pub due : time / span k < expire / span k
  pub soon : expire / span k ≤ time / span k + 64

abbrev pub SlotOk : ℕ → Slot → ℕ → Type 0
SlotOk time (near_slot i) expire = NearOk time i expire
SlotOk time (level_slot k i) expire = (k < 4) × LevelOk time k i expire

pub slot_of-SlotOk :
    (time expire : ℕ) → time ≤ expire → expire < u32_mod → SlotOk time (slot_of time expire) expire
unfolding slot_of
slot_of-SlotOk time expire h u =
    let e : sub_u32 expire time ≡ expire - time = omega arith in rw e (ground arith)

-- List `i` of level `k` is what the shift to the time `ct` moves.
pub record Hits (ct k i : ℕ) : Type 0 where
  pub whole : ct % span k ≡ 0
  pub index : ct / span k % 64 ≡ i
  pub moved : i ≢ 0

-- Below the level that moves, the shift is at index 0.
Hits-below : (ct k j i : ℕ) → k < 4 → j < k → Hits ct k i → ct / span j % 64 ≡ 0
Hits-below ct (suc zero) zero i l m h = omega (arith, h.whole)
Hits-below ct (suc (suc zero)) zero i l m h = omega (arith, h.whole)
Hits-below ct (suc (suc zero)) (suc zero) i l m h = omega (arith, h.whole)
Hits-below ct (suc (suc (suc zero))) zero i l m h = omega (arith, h.whole)
Hits-below ct (suc (suc (suc zero))) (suc zero) i l m h = omega (arith, h.whole)
Hits-below ct (suc (suc (suc zero))) (suc (suc zero)) i l m h = omega (arith, h.whole)
Hits-below ct zero j i l m h = absurd (omega arith)
Hits-below ct (suc (suc (suc (suc k)))) j i l m h = absurd (omega arith)
Hits-below ct (suc zero) (suc j) i l m h = absurd (omega arith)
Hits-below ct (suc (suc zero)) (suc (suc j)) i l m h = absurd (omega arith)
Hits-below ct (suc (suc (suc zero))) (suc (suc (suc j))) i l m h = absurd (omega arith)

Nat-cases : (k j : ℕ) → (k < j) ⊎ (j ≤ k)
Nat-cases k j = ground arith

-- One list at most is moved.
pub Hits-unique : (ct k j i l : ℕ) → k < 4 → j < 4 → Hits ct k i → Hits ct j l → (k ≡ j) × (i ≡ l)
Hits-unique ct k j i l hk hj a b = elim (ℕ_discrete k j) [
  | yes e ↦ let b' : Hits ct k l = rw e b in (e, omega (arith, a.index, b'.index))
  | no n ↦ elim (Nat-cases k j) [
    | inl m ↦ absurd (a.moved (omega (arith, Hits-below ct j k l hj m b, a.index)))
    | inr m ↦ absurd (b.moved (omega (arith, Hits-below ct k j i hk (omega arith) a, b.index)))
  ]
]

-- At the next tick a node keeps to its list, but for a list that the shift moves.
pub LevelOk-next :
    (time k i expire : ℕ)
    → k < 4
    → LevelOk time k i expire
    → ¬ Hits (time + 1) k i
    → i ≢ 0
    → LevelOk (time + 1) k i expire
LevelOk-next time zero i expire l h n z =
    let m : ¬ (((time + 1) % span zero ≡ 0) × ((time + 1) / span zero % 64 ≡ i)) =
      λ b. n (record { whole = b.0; index = b.1; moved = z }) in
    record { at = h.at; due = ground (arith, h.at, h.due, h.soon); soon = omega (arith, h.soon) }
LevelOk-next time (suc zero) i expire l h n z =
    let m : ¬ (((time + 1) % span (suc zero) ≡ 0) × ((time + 1) / span (suc zero) % 64 ≡ i)) =
      λ b. n (record { whole = b.0; index = b.1; moved = z }) in
    record { at = h.at; due = ground (arith, h.at, h.due, h.soon); soon = omega (arith, h.soon) }
LevelOk-next time (suc (suc zero)) i expire l h n z =
    let m : ¬ (
        ((time + 1) % span (suc (suc zero)) ≡ 0) × ((time + 1) / span (suc (suc zero)) % 64 ≡ i)) =
      λ b. n (record { whole = b.0; index = b.1; moved = z }) in
    record { at = h.at; due = ground (arith, h.at, h.due, h.soon); soon = omega (arith, h.soon) }
LevelOk-next time (suc (suc (suc zero))) i expire l h n z =
    let m : ¬ (
        ((time + 1) % span (suc (suc (suc zero))) ≡ 0)
        × ((time + 1) / span (suc (suc (suc zero))) % 64 ≡ i)) =
      λ b. n (record { whole = b.0; index = b.1; moved = z }) in
    record { at = h.at; due = ground (arith, h.at, h.due, h.soon); soon = omega (arith, h.soon) }
LevelOk-next time (suc (suc (suc (suc k)))) i expire l h n z = absurd (omega arith)

-- The nodes that the shift moves fire before it moves the list after.
pub LevelOk-moved :
    (time k i expire : ℕ)
    → k < 4
    → LevelOk time k i expire
    → Hits (time + 1) k i
    → (time + 1 ≤ expire) × (expire < time + 1 + span k)
LevelOk-moved time zero i expire l h n = omega (arith, h.at, h.due, h.soon, n.whole, n.index)
LevelOk-moved time (suc zero) i expire l h n = omega (arith, h.at, h.due, h.soon, n.whole, n.index)
LevelOk-moved time (suc (suc zero)) i expire l h n =
    omega (arith, h.at, h.due, h.soon, n.whole, n.index)
LevelOk-moved time (suc (suc (suc zero))) i expire l h n =
    omega (arith, h.at, h.due, h.soon, n.whole, n.index)
LevelOk-moved time (suc (suc (suc (suc k)))) i expire l h n = absurd (omega arith)

-- The lists that a shift can reach: not list 0 of the levels.
abbrev pub IsLive : Slot → Type 0
IsLive (near_slot i) = Unit {0}
IsLive (level_slot k i) = (k < 4) × (i ≢ 0)

-- At the start of a list's time its nodes go to lists that a shift reaches.
pub slot_of-IsLive :
    (k ct expire : ℕ)
    → k < 4
    → ct % span k ≡ 0
    → ct ≤ expire
    → expire < ct + span k
    → expire < u32_mod
    → IsLive (slot_of ct expire)
unfolding slot_of
slot_of-IsLive zero ct expire l w a b u =
    let e : sub_u32 expire ct ≡ expire - ct = omega arith in rw e (ground arith)
slot_of-IsLive (suc zero) ct expire l w a b u =
    let e : sub_u32 expire ct ≡ expire - ct = omega arith in rw e (ground arith)
slot_of-IsLive (suc (suc zero)) ct expire l w a b u =
    let e : sub_u32 expire ct ≡ expire - ct = omega arith in rw e (ground arith)
slot_of-IsLive (suc (suc (suc zero))) ct expire l w a b u =
    let e : sub_u32 expire ct ≡ expire - ct = omega arith in rw e (ground arith)
slot_of-IsLive (suc (suc (suc (suc k)))) ct expire l w a b u = absurd (omega arith)
