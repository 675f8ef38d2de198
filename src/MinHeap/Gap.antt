-- ===== src/MinHeap/Gap.antt =====
-- A heap with one free slot: the state between two moves of an entry.
use basic_component_design.Common.{ℕ, ◌+◌, ◌-◌, ◌/◌, ◌*◌, ◌≤◌, ◌<◌, ◌≡◌, ◌≢◌, arith}
use basic_component_design.MinHeap.{Shifting, parent, second_child}

-- Half the range of `unsigned`: below it 2 * (i + 1) does not wrap.
abbrev pub max_size : ℕ
max_size = 2147483648

pub parent_lem : (i : ℕ) → 0 < i → i < max_size → parent i ≡ (i - 1) / 2
unfolding parent
parent_lem i h k = omega arith

pub second_child_lem : (i : ℕ) → i + 1 < max_size → second_child i ≡ 2 * i + 2
unfolding second_child
second_child_lem i h = omega arith

-- `x` stands in a slot other than the free one, and knows which.
pub record Held (n : ℕ) (g : Shifting) (x : ℕ) : Type 0 where
  pub within : g.min_heap_idx x < n
  pub elsewhere : g.min_heap_idx x ≢ g.hole
  pub stands : g.p (g.min_heap_idx x) ≡ x

module _ (time : ℕ → ℕ) (n : ℕ) where
  abbrev pub time_at : Shifting → ℕ → ℕ
  time_at g i = time (g.p i)

  -- All slots but the free one are indexed and in heap order, also across the free slot.
  pub record IsGap (g : Shifting) : Type 0 where
    pub small : n < max_size
    pub within : g.hole < n
    pub indexed : (i : ℕ) → i < n → i ≢ g.hole → g.min_heap_idx (g.p i) ≡ i
    pub ordered :
        (i : ℕ)
        → 0 < i
        → i < n
        → i ≢ g.hole
        → parent i ≢ g.hole
        → time_at g (parent i) ≤ time_at g i
    pub across :
        (i : ℕ)
        → 0 < i
        → i < n
        → parent i ≡ g.hole
        → 0 < g.hole
        → time_at g (parent g.hole) ≤ time_at g i

  -- No slot is free: the heap between two operations.
  pub record IsHeap (p min_heap_idx : ℕ → ℕ) : Type 0 where
    pub indexed : (i : ℕ) → i < n → min_heap_idx (p i) ≡ i
    pub ordered : (i : ℕ) → 0 < i → i < n → time (p (parent i)) ≤ time (p i)

-- `x` stands in the heap, in the slot that its index names.
abbrev pub Stands : ℕ → (ℕ → ℕ) → (ℕ → ℕ) → ℕ → Type 0
Stands n p min_heap_idx x = (min_heap_idx x < n) × (p (min_heap_idx x) ≡ x)
