-- ===== src/MemPool.antt =====
-- The memory pool: mmpool.c under 3.1池式组件/3.1.2内存池的实现与场景分析/src/example.
-- Addresses and sizes are numbers below 2 ^ 64. The chain of nodes from `head` on is a list, and
-- `current` an index into it; the chain of large blocks is a list too. What posix_memalign and
-- malloc answer is a parameter: a function of the number of the call and of what is asked for.
pub mod Fit
pub mod Grant
pub mod Block
pub mod Safety
pub mod Create
pub mod Depth
pub mod Release
pub mod Tests
use basic_component_design.Common.{
  ℕ, zero, suc, ◌+◌, ◌-◌, ◌*◌, ◌/◌, ◌%◌, Bool, true, false, Option, none, some, List, [], ◌∷◌, ◌++◌,
  map, ltb, leb, ◌==◌, if◌then◌else◌,
}

abbrev pub size_mod : ℕ
size_mod = 18446744073709551616

abbrev pub mp_alignment : ℕ
mp_alignment = 32

abbrev pub mp_max_alloc_from_pool : ℕ
mp_max_alloc_from_pool = 4095

abbrev pub sizeof_pool : ℕ
sizeof_pool = 24

abbrev pub sizeof_node : ℕ
sizeof_node = 32

abbrev pub sizeof_large : ℕ
sizeof_large = 16

-- mp_align_ptr at MP_ALIGNMENT: `& ~31` takes the last five bits off.
unfoldable pub mp_align_ptr : ℕ → ℕ
mp_align_ptr p = (p + 31) % size_mod / 32 * 32

-- `base` is the address of the node itself.
pub record Node : Type 0 where
  pub base : ℕ
  pub last : ℕ
  pub end : ℕ
  pub failed : ℕ

-- `block` is the address of the struct, and `none` in `alloc` the null pointer.
pub record Large : Type 0 where
  pub block : ℕ
  pub alloc : Option ℕ

-- `nodes` begins with the head, which is part of the pool's own block.
pub record Pool : Type 0 where
  pub address : ℕ
  pub max : ℕ
  pub current : ℕ
  pub large : List Large
  pub nodes : List Node

-- The pool and what happens round it: the number of allocating calls so far, the blocks given
-- back, the last first, and the ranges that memset has cleared.
pub record Memory : Type 0 where
  pub pool : Pool
  pub calls : ℕ
  pub freed : List ℕ
  pub cleared : List (ℕ × ℕ)

-- The allocator of the system; `none` is a failure.
pub record System : Type 0 where
  pub posix_memalign : ℕ → ℕ → ℕ → Option ℕ
  pub malloc : ℕ → ℕ → Option ℕ

-- The pool that mp_create_pool sets up at the address `p`. It leaves head->next unset: `unset` is
-- the chain that the word found there leads to.
unfoldable pub new_pool : ℕ → List Node → ℕ → Pool
new_pool size unset p =
    let last = p + sizeof_pool + sizeof_node in
    record {
      address = p;
      max = if ltb size mp_max_alloc_from_pool then size else mp_max_alloc_from_pool;
      current = 0;
      large = [];
      nodes = record { base = p + sizeof_pool; last = last; end = last + size; failed = 0 } ∷ unset;
    }

unfoldable pub mp_create_pool : System → ℕ → List Node → ℕ → Option Memory
unfolding new_pool
mp_create_pool sys calls unset size =
    elim (sys.posix_memalign calls mp_alignment (size + sizeof_pool + sizeof_node)) [
      | none ↦ none
      | some p ↦
          some
            (record { pool = new_pool size unset p; calls = suc calls; freed = []; cleared = [] })
    ]

-- (size_t)(p->end - m) >= size
unfoldable pub fits : Node → ℕ → ℕ → Bool
fits p m size = leb size ((p.end + size_mod - m) % size_mod)

-- The loop of mp_alloc and of mp_nalloc; `place` is where a piece may begin, given `last`.
unfoldable pub scan : (ℕ → ℕ) → ℕ → List Node → Option (ℕ × List Node)
scan place size [] = none
scan place size (p ∷ ps) =
    let m = place p.last in
    let rest = scan place size ps in
    if fits p m size
    then some (m, record p { last = m + size } ∷ ps)
    else elim rest [ none ↦ none | some (m', ps') ↦ some (m', p ∷ ps') ]

-- It starts at the node with the index `current`.
unfoldable pub scan_from : (ℕ → ℕ) → ℕ → ℕ → List Node → Option (ℕ × List Node)
scan_from place size zero ps = scan place size ps
scan_from place size (suc c) [] = none
scan_from place size (suc c) (p ∷ ps) = elim (scan_from place size c ps) [
  | none ↦ none
  | some (m, ps') ↦ some (m, p ∷ ps')
]

-- The loop of mp_alloc_block over the nodes from the index `i` on, with the `current` so far. The
-- last node is not counted.
unfoldable pub count_failed : ℕ → ℕ → List Node → List Node × ℕ
count_failed i current [] = ([], current)
count_failed i current (p ∷ []) = (p ∷ [], current)
count_failed i current (p ∷ q ∷ ps) =
    let (rest, c) = count_failed (suc i) (if ltb 4 p.failed then suc i else current) (q ∷ ps) in
    (record p { failed = p.failed + 1 } ∷ rest, c)

unfoldable pub count_failed_from : ℕ → ℕ → ℕ → List Node → List Node × ℕ
count_failed_from zero i current ps = count_failed i current ps
count_failed_from (suc c) i current [] = ([], current)
count_failed_from (suc c) i current (p ∷ ps) =
    let (rest, c') = count_failed_from c (suc i) current ps in (p ∷ rest, c')

-- The size of each further block is that of the head's part of the first. There is a head always.
abbrev pub head_room : List Node → ℕ
head_room [] = 0
head_room (h ∷ hs) = h.end - h.base

abbrev pub psize : Pool → ℕ
psize pool = head_room pool.nodes

-- Where mp_alloc_block lets the first piece of a block at `m` begin.
unfoldable pub block_start : ℕ → ℕ
block_start m = mp_align_ptr (m + sizeof_node)

unfoldable pub new_node : ℕ → ℕ → ℕ → Node
unfolding block_start
new_node psize size m = record {
  base = m;
  last = block_start m + size;
  end = m + psize;
  failed = 0;
}

unfoldable pub with_block : ℕ → ℕ → Pool → Pool
with_block size m pool =
    let (nodes, current) = count_failed_from pool.current 0 pool.current pool.nodes in
    record pool { nodes = nodes ++ new_node (psize pool) size m ∷ []; current = current }

-- The search of mp_alloc_large for a struct whose block was freed: it looks at five of them.
unfoldable pub reuse : ℕ → ℕ → List Large → Option (List Large)
reuse n p [] = none
reuse n p (l ∷ ls) =
    let rest = reuse (suc n) p ls in
    elim l.alloc [
      | none ↦ some (record l { alloc = some p } ∷ ls)
      | some _ ↦ if ltb 3 n then none else elim rest [ none ↦ none | some ls' ↦ some (l ∷ ls') ]
    ]

unfoldable pub free : ℕ → Memory → Memory
free p s = record s { freed = p ∷ s.freed }

module _ (sys : System) where
  unfoldable pub mp_alloc_block : ℕ → Memory → Option ℕ × Memory
  unfolding with_block
  mp_alloc_block size s =
      let s' = record s { calls = suc s.calls } in
      elim (sys.posix_memalign s.calls mp_alignment (psize s.pool)) [
        | none ↦ (none, s')
        | some m ↦ (some (block_start m), record s' { pool = with_block size m s.pool })
      ]

  -- The first branch of mp_alloc and of mp_nalloc: a piece of the pool.
  unfoldable pub alloc_small : (ℕ → ℕ) → ℕ → Memory → Option ℕ × Memory
  unfolding mp_alloc_block
  alloc_small place size s = elim (scan_from place size s.pool.current s.pool.nodes) [
    | none ↦ mp_alloc_block size s
    | some (m, nodes) ↦ (some m, record s { pool = record (s.pool) { nodes = nodes } })
  ]

  -- What follows in mp_alloc_large and mp_memalign once a block `p` is there: `answer` is that of
  -- mp_alloc for the struct.
  unfoldable pub attach : ℕ → Option ℕ × Memory → Option ℕ × Memory
  unfolding free
  attach p (none, s) = (none, free p s)
  attach p (some block, s) = (
    some p,
    record s {
      pool = record (s.pool) { large = record { block = block; alloc = some p } ∷ s.pool.large };
    },
  )

  -- mp_alloc_large, with `go` for the call of mp_alloc; `none` is passed on.
  unfoldable pub mp_alloc_large :
      (ℕ → Memory → Option (Option ℕ × Memory)) → ℕ → Memory → Option (Option ℕ × Memory)
  unfolding attach
  mp_alloc_large go size s =
      let s' = record s { calls = suc s.calls } in
      elim (sys.malloc s.calls size) [
        | none ↦ some (none, s')
        | some p ↦ elim (reuse 0 p s.pool.large) [
          | some large ↦ some (some p, record s' { pool = record (s.pool) { large = large } })
          | none ↦ elim (go sizeof_large s') [ none ↦ none | some r ↦ some (attach p r) ]
        ]
      ]

  -- mp_alloc and mp_alloc_large call one another; `none` means that the fuel ran out.
  unfoldable pub mp_alloc : ℕ → ℕ → Memory → Option (Option ℕ × Memory)
  mp_alloc zero size s = none
  mp_alloc (suc fuel) size s = elim (leb size s.pool.max) [
    | true ↦ some (alloc_small mp_align_ptr size s)
    | false ↦ mp_alloc_large (mp_alloc fuel) size s
  ]

  unfoldable pub mp_nalloc : ℕ → ℕ → Memory → Option (Option ℕ × Memory)
  mp_nalloc fuel size s = elim (leb size s.pool.max) [
    | true ↦ some (alloc_small (λ last. last) size s)
    | false ↦ mp_alloc_large (mp_alloc fuel) size s
  ]

  unfoldable pub mp_memalign : ℕ → ℕ → ℕ → Memory → Option (Option ℕ × Memory)
  mp_memalign fuel size alignment s =
      let s' = record s { calls = suc s.calls } in
      elim (sys.posix_memalign s.calls alignment size) [
        | none ↦ some (none, s')
        | some p ↦ elim (mp_alloc fuel sizeof_large s') [ none ↦ none | some r ↦ some (attach p r) ]
      ]

  unfoldable pub mp_calloc : ℕ → ℕ → Memory → Option (Option ℕ × Memory)
  mp_calloc fuel size s = elim (mp_alloc fuel size s) [
    | none ↦ none
    | some (none, s') ↦ some (none, s')
    | some (some p, s') ↦ some (some p, record s' { cleared = (p, size) ∷ s'.cleared })
  ]
