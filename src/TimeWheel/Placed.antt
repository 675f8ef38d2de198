-- ===== src/TimeWheel/Placed.antt =====
-- The invariant of the wheel, kept by add_node and move_list.
use basic_component_design.Common.{
  ℕ, ◌≤◌, ◌<◌, ◌≡◌, ◌≢◌, ◌⊎◌, inl, inr, refl, ap, ◌∙◌, List, [], ◌∷◌, ◌++◌, arith, u32_mod, All,
  update_self, update_ne, All-append, In, In-append, append-In,
}
use native.Mathlib.Decide.{ℕ_discrete}
use basic_component_design.TimeWheel.{
  TimerNode, Wheel, Slot, near_slot, level_slot, slot_of, link, set_level, add_node, add_nodes,
}
use basic_component_design.TimeWheel.Slots.{SlotOk, slot_of-SlotOk, IsLive}

-- The list in a slot.
abbrev pub slot_list : Wheel → Slot → List TimerNode
slot_list w (near_slot i) = w.near i
slot_list w (level_slot k i) = w.t k i

abbrev pub Placed : ℕ → Slot → TimerNode → Type 0
Placed time s n = IsLive s → SlotOk time s n.expire × (n.expire < u32_mod)

-- Each node stands where it is due.
abbrev pub WheelOk : Wheel → Type 0
WheelOk w = (s : Slot) → All (Placed w.time s) (slot_list w s)

-- The node waits in a list that a shift reaches.
abbrev pub Pending : TimerNode → Wheel → Type 0
Pending m w = (s : Slot) × IsLive s × In m (slot_list w s)

pub set_level_self :
    (t : ℕ → ℕ → List TimerNode) (k i : ℕ) (v : List TimerNode) → set_level t k i v k i ≡ v
unfolding set_level
set_level_self t k i v = ground arith

pub set_level_ne :
    (t : ℕ → ℕ → List TimerNode) (k i j l : ℕ) (v : List TimerNode)
    → (k ≢ j) ⊎ (i ≢ l)
    → set_level t k i v j l ≡ t j l
unfolding set_level
set_level_ne t k i j l v h = ground arith

pub level-cases : (k i j l : ℕ) → ((k ≡ j) × (i ≡ l)) ⊎ ((k ≢ j) ⊎ (i ≢ l))
level-cases k i j l = elim (ℕ_discrete k j) [
  | yes e ↦ elim (ℕ_discrete i l) [ yes f ↦ inl (e, f) | no f ↦ inr (inr f) ]
  | no e ↦ inr (inl e)
]

link_self :
    (a : Slot) (n : TimerNode) (w : Wheel) → slot_list (link a n w) a ≡ slot_list w a ++ n ∷ []
unfolding link
link_self (near_slot i) n w = update_self w.near i (w.near i ++ n ∷ [])
link_self (level_slot k i) n w = set_level_self w.t k i (w.t k i ++ n ∷ [])

pub link-cases :
    (a b : Slot) (n : TimerNode) (w : Wheel) → (a ≡ b) ⊎ (slot_list (link a n w) b ≡ slot_list w b)
unfolding link
link-cases (near_slot i) (near_slot j) n w = elim (ℕ_discrete i j) [
  | yes e ↦ inl (ap near_slot e)
  | no e ↦ inr (update_ne w.near i (w.near i ++ n ∷ []) j e)
]
link-cases (near_slot i) (level_slot k j) n w = inr refl
link-cases (level_slot k i) (near_slot j) n w = inr refl
link-cases (level_slot k i) (level_slot j l) n w = elim (level-cases k i j l) [
  | inl (e, f) ↦ inl (rw (e, f) refl)
  | inr d ↦ inr (set_level_ne w.t k i j l (w.t k i ++ n ∷ []) d)
]

-- What holds of each node in its slot still does when one more is linked in.
link-All :
    (P : Slot → TimerNode → Type 0) (a b : Slot) (n : TimerNode) (w : Wheel)
    → All (P b) (slot_list w b)
    → P a n
    → All (P b) (slot_list (link a n w) b)
link-All P a b n w h p = elim (link-cases a b n w) [
  | inl e ↦
      let q : P b n = rw (← e) p in
      let f : slot_list (link a n w) b ≡ slot_list w b ++ n ∷ [] = rw (← e) (link_self a n w) in
      rw f (All-append (P b) (slot_list w b) (n ∷ []) h (q, tt))
  | inr e ↦ rw e h
]

link-In :
    (a b : Slot) (n m : TimerNode) (w : Wheel)
    → In m (slot_list w b)
    → In m (slot_list (link a n w) b)
link-In a b n m w h = elim (link-cases a b n w) [
  | inl e ↦
      let f : slot_list (link a n w) b ≡ slot_list w b ++ n ∷ [] = rw (← e) (link_self a n w) in
      rw f (In-append m (slot_list w b) (n ∷ []) h)
  | inr e ↦ rw e h
]

pub add_node-time : (n : TimerNode) (w : Wheel) → (add_node n w).time ≡ w.time
unfolding add_node link
add_node-time n w = link_time (slot_of w.time n.expire)
  where
    link_time : (s : Slot) → (link s n w).time ≡ w.time
    link_time (near_slot i) = refl
    link_time (level_slot k i) = refl

-- add_node keeps each node in its list.
pub add_node-In :
    (n m : TimerNode) (b : Slot) (w : Wheel)
    → In m (slot_list w b)
    → In m (slot_list (add_node n w) b)
unfolding add_node
add_node-In n m b w h = link-In (slot_of w.time n.expire) b n m w h

-- It puts the node where slot_of says.
pub add_node-slot :
    (n : TimerNode) (w : Wheel) → In n (slot_list (add_node n w) (slot_of w.time n.expire))
unfolding add_node
add_node-slot n w =
    let s = slot_of w.time n.expire in
    rw (link_self s n w) (append-In n (slot_list w s) (n ∷ []) (inl refl))

-- add_node keeps the invariant, for a node that is due now or later and before the clock wraps.
pub add_node-WheelOk :
    (n : TimerNode) (w : Wheel)
    → w.time ≤ n.expire
    → n.expire < u32_mod
    → WheelOk w
    → WheelOk (add_node n w)
unfolding add_node
add_node-WheelOk n w h u ok b =
    let s = slot_of w.time n.expire in
    let p : Placed w.time s n = λ _. (slot_of-SlotOk w.time n.expire h u, u) in
    let g : All (Placed w.time b) (slot_list (link s n w) b) =
      link-All (Placed w.time) s b n w (ok b) p in
    rw (add_node-time n w) g

pub add_nodes-time : (ns : List TimerNode) (w : Wheel) → (add_nodes ns w).time ≡ w.time
unfolding add_nodes
add_nodes-time [] w = refl
add_nodes-time (n ∷ ns) w = add_nodes-time ns (add_node n w) ∙ add_node-time n w

pub add_nodes-In :
    (ns : List TimerNode) (m : TimerNode) (b : Slot) (w : Wheel)
    → In m (slot_list w b)
    → In m (slot_list (add_nodes ns w) b)
unfolding add_nodes
add_nodes-In [] m b w h = h
add_nodes-In (n ∷ ns) m b w h = add_nodes-In ns m b (add_node n w) (add_node-In n m b w h)

pub add_nodes-slot :
    (ns : List TimerNode) (m : TimerNode) (w : Wheel) (time : ℕ)
    → w.time ≡ time
    → In m ns
    → In m (slot_list (add_nodes ns w) (slot_of time m.expire))
unfolding add_nodes
add_nodes-slot [] m w time q h = absurd h
add_nodes-slot (n ∷ ns) m w time q (inl e) =
    let g : In n (slot_list (add_node n w) (slot_of time n.expire)) =
      rw (← q) (add_node-slot n w) in
    rw e (add_nodes-In ns n (slot_of time n.expire) (add_node n w) g)
add_nodes-slot (n ∷ ns) m w time q (inr h) =
    add_nodes-slot ns m (add_node n w) time (add_node-time n w ∙ q) h

pub add_nodes-WheelOk :
    (ns : List TimerNode) (w : Wheel)
    → All (λ n. (w.time ≤ n.expire) × (n.expire < u32_mod)) ns
    → WheelOk w
    → WheelOk (add_nodes ns w)
unfolding add_nodes
add_nodes-WheelOk [] w a ok = ok
add_nodes-WheelOk (n ∷ ns) w a ok =
    add_nodes-WheelOk ns (add_node n w) (rw (add_node-time n w) a.1)
      (add_node-WheelOk n w a.0.0 a.0.1 ok)
