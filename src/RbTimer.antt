-- ===== src/RbTimer.antt =====
-- The timers over a red-black tree: rbt-timer.h under
-- 3.2高性能组件/3.2.2定时器方案红黑树，时间轮，最小堆/timers_src/example/rbtree.
-- The tree is another project's: it is an argument, with what the timers rely on. An entry is known
-- by its address; its key and its handler are maps. What a handler does is an argument.
pub mod Expire
pub mod Tests
use basic_component_design.Common.{
  ℕ, zero, suc, ◌+◌, ◌-◌, ◌*◌, ◌/◌, ◌%◌, ◌≤◌, ◌<◌, ◌≡◌, ◌≢◌, ◌↔◌, Bool, true, false, Option, none,
  some, List, [], ◌∷◌, ltb, if◌then◌else◌, update, add_u32, sub_u32, u32_mod,
}

-- The operations of rbtree.h over nodes that lie in memory with their keys: `min` is `none` where
-- the root is the sentinel. The laws say that the
-- tree is a set of entries and how many there are, and that `min` finds one of the smallest key where
-- the keys are less than 2 ^ 31 apart: the tree compares two keys by their difference as an int.
pub record RbTree (T : Type 0) : Type 1 where
  pub init : T
  pub insert : (ℕ → ℕ) → ℕ → T → T
  pub delete : ℕ → T → T
  pub min : (ℕ → ℕ) → T → Option ℕ
  pub Holds : (ℕ → ℕ) → T → ℕ → Type 0
  pub size : T → ℕ
  pub min_none : (key : ℕ → ℕ) (t : T) (x : ℕ) → min key t ≡ none → ¬ Holds key t x
  pub min_holds : (key : ℕ → ℕ) (t : T) (x : ℕ) → min key t ≡ some x → Holds key t x
  pub min_least :
      (key : ℕ → ℕ) (t : T) (x y : ℕ)
      → ((y z : ℕ) → Holds key t y → Holds key t z → key y < key z + 2147483648)
      → min key t ≡ some x
      → Holds key t y
      → key x ≤ key y
  pub delete_holds :
      (key : ℕ → ℕ) (t : T) (x y : ℕ)
      → min key t ≡ some x
      → Holds key (delete x t) y ↔ (Holds key t y × (y ≢ x))
  pub delete_size : (key : ℕ → ℕ) (t : T) (x : ℕ) → min key t ≡ some x → size (delete x t) < size t

module _ {T : Type 0} (rb : RbTree T) where
  open rb use {init, insert, delete, min}

  pub record Timers : Type 0 where
    pub timer : T
    pub key : ℕ → ℕ
    pub handler : ℕ → ℕ
    pub fired : List ℕ
    pub freed : List ℕ

  unfoldable pub current_time : ℕ → ℕ → ℕ
  current_time tv_sec tv_usec = (tv_sec * 1000 % u32_mod + tv_usec / 1000) % u32_mod

  unfoldable pub init_timer : Timers
  init_timer = record { timer = init; key = λ _. 0; handler = λ _. 0; fired = []; freed = [] }

  -- `te` is the answer of malloc and `now` that of current_time.
  unfoldable pub add_timer : ℕ → ℕ → ℕ → ℕ → Timers → Timers
  add_timer te now msec func s =
      let key = update s.key te (add_u32 msec now) in
      record s { key = key; handler = update s.handler te func; timer = insert key te s.timer }

  unfoldable pub del_timer : ℕ → Timers → Timers
  del_timer te s = record s { timer = delete te s.timer; freed = te ∷ s.freed }

  -- `none` is -1. The difference is that of two ints, and at least 0 in what is returned.
  unfoldable pub find_nearest_expire_timer : ℕ → Timers → Option ℕ
  find_nearest_expire_timer now s = elim (min s.key s.timer) [
    | none ↦ none
    | some x ↦ let diff = sub_u32 (s.key x) now in some (if ltb diff 2147483648 then diff else 0)
  ]

  -- The loop of expire_timer; `none` is that the fuel ran out.
  unfoldable pub expire_loop : (ℕ → Timers → Timers) → ℕ → ℕ → Timers → Option Timers
  expire_loop call zero now s = none
  expire_loop call (suc fuel) now s = elim (min s.key s.timer) [
    | none ↦ some s
    | some x ↦
        let s' = call x (record s { fired = x ∷ s.fired }) in
        let rest =
          expire_loop call fuel now
            (record s' { timer = delete x s'.timer; freed = x ∷ s'.freed }) in
        if ltb now (s.key x) then some s else rest
  ]
