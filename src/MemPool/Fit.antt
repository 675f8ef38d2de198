-- ===== src/MemPool/Fit.antt =====
-- The test whether a piece fits into a node, and where it goes wrong.
use basic_component_design.Common.{
  ℕ, suc, ◌+◌, ◌-◌, ◌%◌, ◌≤◌, ◌<◌, ◌≡◌, refl, ap, ◌∙◌, true, some, List, ◌∷◌, arith, leb,
}
use basic_component_design.MemPool.{
  Node, Memory, System, size_mod, mp_align_ptr, fits, scan, scan_from, alloc_small, mp_alloc,
}

-- Half of the address space, which is what user addresses lie below.
abbrev pub user_top : ℕ
user_top = 9223372036854775808

-- mp_align_ptr moves an address up to the next multiple of 32.
pub mp_align_ptr_lem :
    (p : ℕ)
    → p < user_top
    → (mp_align_ptr p % 32 ≡ 0) × (p ≤ mp_align_ptr p) × (mp_align_ptr p < p + 32)
unfolding mp_align_ptr
mp_align_ptr_lem p h = omega arith

-- Where the piece begins inside the node the test compares with what is left.
pub fits-inside :
    (p : Node) (m size : ℕ) → m ≤ p.end → p.end < user_top → fits p m size ≡ leb size (p.end - m)
unfolding fits
fits-inside p m size h k =
    let e : (p.end + size_mod - m) % size_mod ≡ p.end - m = omega arith in rw e

-- Where it begins past the end, the difference wraps, and the test passes for every size.
pub fits-past :
    (p : Node) (m size : ℕ)
    → p.end < m
    → m < p.end + 32
    → m < user_top
    → size + 32 ≤ size_mod
    → fits p m size ≡ true
unfolding fits
fits-past p m size h k u z =
    let e : (p.end + size_mod - m) % size_mod ≡ p.end + size_mod - m = omega arith in
    rw e (ground arith)

scan-first :
    (place : ℕ → ℕ) (size : ℕ) (p : Node) (ps : List Node)
    → fits p (place p.last) size ≡ true
    → scan place size (p ∷ ps) ≡ some (place p.last, record p { last = place p.last + size } ∷ ps)
unfolding scan
scan-first place size p ps f = rw f refl

-- The branches of mp_alloc for small sizes.
pub mp_alloc-small :
    (sys : System) (fuel size : ℕ) (s : Memory)
    → size ≤ s.pool.max
    → mp_alloc sys (suc fuel) size s ≡ some (alloc_small sys mp_align_ptr size s)
unfolding mp_alloc
mp_alloc-small sys fuel size s h =
    let e : leb size s.pool.max ≡ true = ground arith in rw (e, mp_alloc) refl

pub alloc_small-found :
    (sys : System) (place : ℕ → ℕ) (size : ℕ) (s : Memory) {m : ℕ} {nodes : List Node}
    → scan_from place size s.pool.current s.pool.nodes ≡ some (m, nodes)
    → alloc_small sys place size s ≡ (some m, record s { pool = record (s.pool) { nodes = nodes } })
unfolding alloc_small
alloc_small-found sys place size s e = rw (e, alloc_small) refl

-- If rounding `last` up leads past the end of the current node, then mp_alloc takes the piece from
-- there all the same: what it returns lies outside the block, for every size that is not large.
mp_alloc-past :
    (sys : System) (fuel size : ℕ) (s : Memory) (p : Node) (ps : List Node)
    → s.pool.nodes ≡ p ∷ ps
    → s.pool.current ≡ 0
    → size ≤ s.pool.max
    → size + 32 ≤ size_mod
    → p.last ≤ p.end
    → p.end < mp_align_ptr p.last
    → p.end + 32 < user_top
    → (m : ℕ) × (s' : Memory) × (mp_alloc sys (suc fuel) size s ≡ some (some m, s')) × (p.end < m)
unfolding scan_from
mp_alloc-past sys fuel size s p ps n c le z w past top =
    let (_, _, b) = mp_align_ptr_lem p.last (omega arith) in
    let f = fits-past p (mp_align_ptr p.last) size past (omega arith) (omega arith) z in
    let q : scan_from mp_align_ptr size s.pool.current s.pool.nodes
        ≡ some (mp_align_ptr p.last, record p { last = mp_align_ptr p.last + size } ∷ ps) =
      rw (n, c) (scan-first mp_align_ptr size p ps f) in
    (
      mp_align_ptr p.last,
      _,
      mp_alloc-small sys fuel size s le ∙ ap some (alloc_small-found sys mp_align_ptr size s q),
      past,
    )
