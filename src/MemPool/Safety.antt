-- ===== src/MemPool/Safety.antt =====
-- What mp_alloc and mp_nalloc promise for small sizes: pieces that never overlap.
use basic_component_design.Common.{
  ℕ, suc, ◌+◌, ◌%◌, ◌≤◌, ◌<◌, ◌≡◌, ◌⊎◌, inl, inr, refl, sym, ◌∙◌, some, List, [], ◌∷◌, ◌++◌, arith,
  All, All-append, Option-cases, length, length-append,
}
use basic_component_design.MemPool.{
  mp_alignment, Node, Pool, Memory, System, sizeof_node, scan_from, count_failed_from, psize,
  head_room, block_start, new_node, with_block, mp_alloc_block, alloc_small, mp_align_ptr,
}
use basic_component_design.MemPool.Fit.{user_top}
use basic_component_design.MemPool.Grant.{
  Placement, IsNode, Apart, Separate, Disjoint, Granted, Contains, scan_from-Granted,
  Granted-IsNode, length-Granted, Granted-Disjoint, Granted-All-Apart, Granted-Contains, here,
  there,
}
use basic_component_design.MemPool.Block.{
  Same, count_failed_from-Same, count_failed_from-current, length-Same, head_room-Same, Same-IsNode,
  Same-Disjoint, Same-Contains,
}

module _ (pl : Placement) where
  open pl use {place, IsLast, IsSize, starts}

  -- A pool as the allocator keeps it, for pieces that begin where the placement says.
  pub record PoolOk (pool : Pool) : Type 0 where
    pub each : All (IsNode pl) pool.nodes
    pub disjoint : Disjoint pl pool.nodes
    pub pointed : pool.current < length pool.nodes
    pub roomy : pool.max + sizeof_node ≤ psize pool

  -- A block that the system may answer with: aligned, in user space, apart from all blocks in use.
  pub record IsFresh (size : ℕ) (nodes : List Node) (m : ℕ) : Type 0 where
    pub even : m % 32 ≡ 0
    pub low : m + size < user_top
    pub apart : All (λ p. (p.end ≤ m) ⊎ (m + size ≤ p.base)) nodes

  IsFresh-Separate :
      (size m : ℕ) (q : Node) (ps qs : List Node)
      → q.base ≡ m
      → q.end ≡ m + size
      → Same ps qs
      → All (λ p. (p.end ≤ m) ⊎ (m + size ≤ p.base)) ps
      → Disjoint pl qs
      → Disjoint pl (qs ++ q ∷ [])
  IsFresh-Separate size m q [] [] b e h a d = (tt, tt)
  IsFresh-Separate size m q [] (y ∷ qs) b e h a d = absurd h
  IsFresh-Separate size m q (x ∷ ps) [] b e h a d = absurd h
  IsFresh-Separate size m q (x ∷ ps) (y ∷ qs) b e (b', _, e', h) a d = (
    All-append (Separate pl y) qs (q ∷ []) d.0 (meet a.0, tt),
    IsFresh-Separate size m q ps qs b e h a.1 d.1,
  )
    where
      meet : (x.end ≤ m) ⊎ (m + size ≤ x.base) → Separate pl y q
      meet (inl k) = inl (omega arith)
      meet (inr k) = inr (omega arith)

  IsFresh-Apart :
      (size m n : ℕ) (ps : List Node)
      → n + sizeof_node ≤ size
      → All (IsNode pl) ps
      → All (λ p. (p.end ≤ m) ⊎ (m + size ≤ p.base)) ps
      → All (Apart pl (m + sizeof_node) n) ps
  IsFresh-Apart size m n [] l v a = tt
  IsFresh-Apart size m n (p ∷ ps) l v a = (apart a.0, IsFresh-Apart size m n ps l v.1 a.1)
    where
      apart : (p.end ≤ m) ⊎ (m + size ≤ p.base) → Apart pl (m + sizeof_node) n p
      apart (inl k) = inr (omega (arith, v.0.within))
      apart (inr k) = inl (omega arith)

  Contains-append : (m n : ℕ) (ps qs : List Node) → Contains pl m n ps → Contains pl m n (ps ++ qs)
  Contains-append m n [] qs c = absurd c
  Contains-append m n (p ∷ ps) qs (inl c) = inl c
  Contains-append m n (p ∷ ps) qs (inr c) = inr (Contains-append m n ps qs c)

  append-Contains : (m n : ℕ) (ps qs : List Node) → Contains pl m n qs → Contains pl m n (ps ++ qs)
  append-Contains m n [] qs c = c
  append-Contains m n (p ∷ ps) qs c = inr (append-Contains m n ps qs c)

  Granted-keeps :
      {m n : ℕ} {ps ps' : List Node}
      → Granted pl m n ps ps'
      → (b k : ℕ) → Contains pl b k ps
      → Contains pl b k ps'
  Granted-keeps (here p ps lo hi _) b k (inl c) = inl (c.0, omega (arith, c.1))
  Granted-keeps (here p ps lo hi _) b k (inr c) = inr c
  Granted-keeps (there p g) b k (inl c) = inl c
  Granted-keeps (there p g) b k (inr c) = inr (Granted-keeps g b k c)

  -- A piece apart from all that was handed out does not meet an earlier one.
  Apart-Contains :
      (a n b k : ℕ) (ps : List Node)
      → All (Apart pl a n) ps
      → Contains pl b k ps
      → (a + n ≤ b) ⊎ (b + k ≤ a)
  Apart-Contains a n b k [] h c = absurd c
  Apart-Contains a n b k (p ∷ ps) (inl h, _) (inl c) = inl (omega (arith, c.0))
  Apart-Contains a n b k (p ∷ ps) (inr h, _) (inl c) = inr (omega (arith, c.1))
  Apart-Contains a n b k (p ∷ ps) h (inr c) = Apart-Contains a n b k ps h.1 c

  head_room-Granted :
      {m n : ℕ} {ps ps' : List Node} → Granted pl m n ps ps' → head_room ps' ≡ head_room ps
  head_room-Granted (here p ps lo hi _) = refl
  head_room-Granted (there p g) = refl

  -- The state after a piece is handed out, and where the piece lies.
  pub record IsServed (n : ℕ) (s : Memory) (a : ℕ) (s' : Memory) : Type 0 where
    pub ok : PoolOk (s'.pool)
    pub apart : All (Apart pl a n) s.pool.nodes
    pub held : Contains pl a n s'.pool.nodes
    pub keeps : (b k : ℕ) → Contains pl b k s.pool.nodes → Contains pl b k s'.pool.nodes

  Granted-IsServed :
      (n a : ℕ) (s : Memory) (nodes : List Node)
      → PoolOk s.pool
      → IsSize n
      → Granted pl a n s.pool.nodes nodes
      → IsServed n s a (record s { pool = record (s.pool) { nodes = nodes } })
  Granted-IsServed n a s nodes ok z g =
      let e = head_room-Granted g in
      record {
        ok = record {
          each = Granted-IsNode pl z g ok.each;
          disjoint = Granted-Disjoint pl g ok.disjoint;
          pointed = rw (length-Granted pl g) ok.pointed;
          roomy = rw e ok.roomy;
        };
        apart = Granted-All-Apart pl g ok.each ok.disjoint;
        held = Granted-Contains pl g ok.each;
        keeps = Granted-keeps g;
      }

  block_start_lem : (m : ℕ) → m % 32 ≡ 0 → m + 32 < user_top → block_start m ≡ m + 32
  unfolding block_start mp_align_ptr
  block_start_lem m h u = omega arith

  with_block-IsServed :
      (n m : ℕ) (s : Memory)
      → PoolOk s.pool
      → IsSize n
      → n ≤ s.pool.max
      → IsFresh (psize s.pool) s.pool.nodes m
      → IsServed n s (m + 32) (record s { pool = with_block n m s.pool })
  unfolding with_block new_node
  with_block-IsServed n m s ok z l f =
      let ps = s.pool.nodes in
      let old = count_failed_from s.pool.current 0 s.pool.current ps in
      let same : Same ps old.0 = count_failed_from-Same s.pool.current 0 s.pool.current ps in
      let new = new_node (psize s.pool) n m in
      let b = block_start_lem m f.even (omega (arith, f.low, ok.roomy)) in
      let e = head_room-Same ps old.0 (new ∷ []) same (omega (arith, ok.pointed)) in
      let ending : IsLast (block_start m + n) (m + psize s.pool) =
        rw b (starts m (m + psize s.pool) n z f.even f.low (omega (arith, ok.roomy))) in
      let node : IsNode pl new = record {
        room = omega (arith, b);
        within = omega (arith, b, ok.roomy);
        low = f.low;
        ending = ending;
      } in
      record {
        ok = record {
          each =
              All-append (IsNode pl) old.0 (new ∷ []) (Same-IsNode pl ps old.0 same ok.each)
                (node, tt);
          disjoint =
              IsFresh-Separate (psize s.pool) m new ps old.0 refl refl same f.apart
                (Same-Disjoint pl ps old.0 same ok.disjoint);
          pointed = omega (
            arith,
            length-append old.0 (new ∷ []),
            length-Same ps old.0 same,
            count_failed_from-current s.pool.current 0 s.pool.current ps (omega (arith, ok.pointed))
                (omega arith),
          );
          roomy = rw e ok.roomy;
        };
        apart = IsFresh-Apart (psize s.pool) m n ps (omega (arith, ok.roomy)) ok.each f.apart;
        held = append-Contains (m + 32) n old.0 (new ∷ []) (inl (omega arith, omega (arith, b)));
        keeps =
            λ b k c. Contains-append b k old.0 (new ∷ []) (Same-Contains pl b k ps old.0 same c);
      }

  mp_alloc_block-IsServed :
      (sys : System) (n a : ℕ) (s s' : Memory)
      → PoolOk s.pool
      → IsSize n
      → n ≤ s.pool.max
      → ((m : ℕ)
          → sys.posix_memalign s.calls mp_alignment (psize s.pool) ≡ some m
          → IsFresh (psize s.pool) s.pool.nodes m)
      → mp_alloc_block sys n s ≡ (some a, s')
      → IsServed n s a s'
  unfolding mp_alloc_block
  mp_alloc_block-IsServed sys n a s s' ok z l f e =
      elim (Option-cases (sys.posix_memalign s.calls mp_alignment (psize s.pool))) [
        | inl q ↦ absurd (cc (rw (q, mp_alloc_block) at e))
        | inr (m, q) ↦
            let e' = rw (q, mp_alloc_block) at e in
            let fresh = f m q in
            let b = block_start_lem m fresh.even (omega (arith, fresh.low, ok.roomy)) in
            let i : m + 32 ≡ a = sym b ∙ cc e' in
            let j : record s { calls = suc s.calls; pool = with_block n m s.pool } ≡ s' = cc e' in
            let w = with_block-IsServed n m s ok z l fresh in
            rw (← j)
              (rw (← i) (record { ok = w.ok; apart = w.apart; held = w.held; keeps = w.keeps }))
      ]

  alloc_small-IsServed :
      (sys : System) (n a : ℕ) (s s' : Memory)
      → PoolOk s.pool
      → IsSize n
      → n ≤ s.pool.max
      → ((m : ℕ)
          → sys.posix_memalign s.calls mp_alignment (psize s.pool) ≡ some m
          → IsFresh (psize s.pool) s.pool.nodes m)
      → alloc_small sys place n s ≡ (some a, s')
      → IsServed n s a s'
  unfolding alloc_small
  alloc_small-IsServed sys n a s s' ok z l f e =
      elim (Option-cases (scan_from place n s.pool.current s.pool.nodes)) [
        | inl q ↦ mp_alloc_block-IsServed sys n a s s' ok z l f (rw (q, alloc_small) at e)
        | inr ((m, nodes), q) ↦
            let e' = rw (q, alloc_small) at e in
            let i : m ≡ a = cc e' in
            let j : record s { pool = record (s.pool) { nodes = nodes } } ≡ s' = cc e' in
            rw (← j) (
              rw (← i) (
                Granted-IsServed n m s nodes ok z
                  (scan_from-Granted pl n s.pool.current s.pool.nodes m nodes ok.each q)))
      ]

  -- In a pool whose nodes are well formed and apart, with answers of posix_memalign that are
  -- aligned and apart from them, mp_alloc (for sizes that are not large and multiples of 32) and
  -- mp_nalloc (for all sizes that are not large) hand out a piece that lies in a node, keep the pool well formed and each earlier piece in a node, and the
  -- new piece does not meet the earlier one.
  pub alloc_small-apart :
      (sys : System) (n a : ℕ) (s s' : Memory)
      → PoolOk s.pool
      → IsSize n
      → n ≤ s.pool.max
      → ((m : ℕ)
          → sys.posix_memalign s.calls mp_alignment (psize s.pool) ≡ some m
          → IsFresh (psize s.pool) s.pool.nodes m)
      → alloc_small sys place n s ≡ (some a, s')
      → (b k : ℕ) → Contains pl b k s.pool.nodes
      → PoolOk (s'.pool)
        × Contains pl a n s'.pool.nodes
        × Contains pl b k s'.pool.nodes
        × ((a + n ≤ b) ⊎ (b + k ≤ a))
  alloc_small-apart sys n a s s' ok z l f e b k c =
      let w = alloc_small-IsServed sys n a s s' ok z l f e in
      (w.ok, w.held, w.keeps b k c, Apart-Contains a n b k s.pool.nodes w.apart c)
