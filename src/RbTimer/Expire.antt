-- ===== src/RbTimer/Expire.antt =====
-- expire_timer over the tree: which entries it runs, and that it ends.
use basic_component_design.Common.{ℕ, ◌+◌, ◌<◌, ◌≤◌, ◌≡◌, ◌↔◌, ◌⊎◌, ◌∷◌, In}
use basic_component_design.RbTimer.{RbTree, Timers}

module _ {T : Type 0} (rb : RbTree T) (call : ℕ → Timers rb → Timers rb) (now : ℕ)
    (leaves : (x : ℕ) (s : Timers rb)
      → ((call x s).timer ≡ s.timer)
        × ((call x s).key ≡ s.key)
        × ((call x s).fired ≡ s.fired)
        × ((call x s).freed ≡ s.freed)) where
  open rb use {Holds, min, delete, size, min_none, min_holds, min_least, delete_holds, delete_size}

  -- The entries that are due have run and were freed, and the others are left.
  pub record Expired (s t : Timers rb) : Type 0 where
    pub key : t.key ≡ s.key
    pub left : (x : ℕ) → Holds t.key t.timer x ↔ (Holds s.key s.timer x × (now < s.key x))
    pub ran : (x : ℕ) → In x t.fired ↔ (In x s.fired ⊎ (Holds s.key s.timer x × (s.key x ≤ now)))
    pub gone : (x : ℕ) → In x t.freed ↔ (In x s.freed ⊎ (Holds s.key s.timer x × (s.key x ≤ now)))

  -- The keys in the tree are less than 2 ^ 31 apart.
  abbrev pub Near : Timers rb → Type 0
  Near s =
      (y z : ℕ) → Holds s.key s.timer y → Holds s.key s.timer z → s.key y < s.key z + 2147483648

  abbrev next : ℕ → Timers rb → Timers rb
  next x s =
      let s' = call x (record s { fired = x ∷ s.fired }) in
      record s' { timer = delete x s'.timer; freed = x ∷ s'.freed }
