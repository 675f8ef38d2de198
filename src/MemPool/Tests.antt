-- ===== src/MemPool/Tests.antt =====
-- The pool on concrete inputs: one created with 64 bytes at the address 4096.
use basic_component_design.Common.{
  ℕ, ◌+◌, ◌*◌, ◌≤◌, ◌<◌, ◌≡◌, ◌⊎◌, inl, refl, Option, none, some, [], ◌∷◌, arith, if◌then◌else◌,
  ◌==◌, count,
}
use basic_component_design.MemPool.{
  Memory, System, mp_align_ptr, new_pool, mp_create_pool, alloc_small, mp_alloc, scan, scan_from,
  fits, mp_alloc_block, with_block, new_node, block_start, count_failed, count_failed_from, psize,
  mp_alignment,
}
use basic_component_design.MemPool.Grant.{Contains, unaligned, aligned}
use basic_component_design.MemPool.Safety.{PoolOk, IsFresh, alloc_small-apart}
use basic_component_design.MemPool.Create.{new_pool-PoolOk}
use basic_component_design.MemPool.Depth.{mp_alloc-ends, mp_alloc-diverges}
use basic_component_design.MemPool.Release.{
  held, headed, mp_free, mp_destory_pool, mp_free-count, mp_destory_pool_lem,
}

-- The system hands out blocks of 4096 bytes, the one after the other.
abbrev sys : System
sys = record {
  posix_memalign = λ n a s. some (4096 + 4096 * n);
  malloc = λ n s. some (4096 + 4096 * n);
}

abbrev new_memory : ℕ → Memory
new_memory size = record { pool = new_pool size [] 4096; calls = 1; freed = []; cleared = [] }

create_lem : mp_create_pool sys 0 [] 64 ≡ some (new_memory 64)
unfolding mp_create_pool
create_lem = refl

-- A pool of 64 bytes from which mp_nalloc took 60: the rest does not fit 40 more, and a block is added.
abbrev used : Memory
used = record {
  pool = record {
    address = 4096;
    max = 64;
    current = 0;
    large = record { block = 4152; alloc = some 70000 } ∷ [];
    nodes = record { base = 4120; last = 4212; end = 4216; failed = 0 } ∷ [];
  };
  calls = 1;
  freed = [];
  cleared = [];
}

used-PoolOk : PoolOk unaligned (used.pool)
used-PoolOk = record {
  each = (record { room = omega arith; within = omega arith; low = omega arith; ending = tt }, tt);
  disjoint = (tt, tt);
  pointed = omega arith;
  roomy = omega arith;
}

abbrev after : Memory
after = (alloc_small sys (λ x. x) 40 used).1

used-answer : alloc_small sys (λ x. x) 40 used ≡ (some 8224, after)
unfolding alloc_small scan_from scan fits mp_alloc_block with_block new_node block_start
    mp_align_ptr count_failed_from count_failed
used-answer = refl

used-IsFresh :
    (m : ℕ)
    → sys.posix_memalign used.calls mp_alignment (psize used.pool) ≡ some m
    → IsFresh unaligned (psize used.pool) used.pool.nodes m
used-IsFresh m e =
    let q : 8192 ≡ m = cc e in
    record { even = omega arith; low = omega arith; apart = (inl (omega arith), tt) }

alloc_small-apart_example :
    PoolOk unaligned (after.pool)
    × Contains unaligned 8224 40 after.pool.nodes
    × Contains unaligned 4152 60 after.pool.nodes
    × ((8224 + 40 ≤ 4152) ⊎ (4152 + 60 ≤ 8224))
alloc_small-apart_example =
    alloc_small-apart unaligned sys 40 8224 used after used-PoolOk tt (omega arith) used-IsFresh
      used-answer 4152 60 (inl (omega arith, omega arith))

fresh-PoolOk : PoolOk unaligned (new_pool 64 [] 4096) × PoolOk aligned (new_pool 64 [] 4096)
fresh-PoolOk = new_pool-PoolOk 64 4096 (omega arith) (omega arith) (omega arith)

past_end : 4216 < mp_align_ptr 4212
unfolding mp_align_ptr
past_end = omega arith

mp_alloc-ends_example : (r : Option ℕ × Memory) × (mp_alloc sys 2 100 used ≡ some r)
mp_alloc-ends_example = mp_alloc-ends sys 0 100 used (omega arith)

small_pool : (8 ≡ (new_memory 8).pool.max) × ((new_memory 8).pool.large ≡ [])
unfolding new_pool
small_pool = (refl, refl)

mp_alloc-diverges_example : mp_alloc sys 1000 9 (new_memory 8) ≡ none
mp_alloc-diverges_example =
    mp_alloc-diverges sys 1000 9 (new_memory 8) (omega (arith, small_pool.0)) (small_pool.1)
      (omega (arith, small_pool.0)) (λ n k. (4096 + 4096 * n, refl))

mp_free-count_example :
    held 70000 (mp_free 70000 used).pool.large + count 70000 (mp_free 70000 used).freed
    ≡ held 70000 used.pool.large + count 70000 used.freed
mp_free-count_example = mp_free-count 70000 70000 used

mp_destory_pool_lem_example :
    count 70000 (mp_destory_pool used)
    ≡ (if 70000 == 4096 then 1 else 0)
      + headed 70000 []
      + held 70000 used.pool.large
      + count 70000 used.freed
mp_destory_pool_lem_example =
    mp_destory_pool_lem 70000 used (record { base = 4120; last = 4212; end = 4216; failed = 0 }) []
      refl
