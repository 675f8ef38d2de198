-- ===== src/MemPool/Create.antt =====
-- The pool that mp_create_pool sets up.
use basic_component_design.Common.{ℕ, ◌+◌, ◌%◌, ◌≤◌, ◌<◌, ◌≡◌, [], arith}
use basic_component_design.MemPool.{new_pool, mp_align_ptr}
use basic_component_design.MemPool.Fit.{user_top}
use basic_component_design.MemPool.Grant.{aligned, unaligned}
use basic_component_design.MemPool.Safety.{PoolOk}

head_align : (q : ℕ) → q % 32 ≡ 0 → q + 56 < user_top → mp_align_ptr (q + 56) ≡ q + 64
unfolding mp_align_ptr
head_align q k v = omega arith

-- The pool that mp_create_pool sets up with a size from 8 on is well formed where head->next holds
-- null, for mp_nalloc and for mp_alloc.
pub new_pool-PoolOk :
    (size p : ℕ)
    → p % 32 ≡ 0
    → p + 56 + size < user_top
    → 8 ≤ size
    → PoolOk unaligned (new_pool size [] p) × PoolOk aligned (new_pool size [] p)
unfolding new_pool mp_align_ptr
new_pool-PoolOk size p h u z = (
  record {
    each =
        (record { room = omega arith; within = omega arith; low = omega arith; ending = tt }, tt);
    disjoint = (tt, tt);
    pointed = omega arith;
    roomy = ground arith;
  },
  record {
    each = (
      record {
        room = omega arith;
        within = omega arith;
        low = omega arith;
        ending = omega (arith, head_align p h (omega arith));
      },
      tt,
    );
    disjoint = (tt, tt);
    pointed = omega arith;
    roomy = ground arith;
  },
)
