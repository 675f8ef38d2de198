-- ===== src/MemPool/Grant.antt =====
-- A piece that the scan of the nodes hands out lies in one node, behind all that was handed out.
use basic_component_design.Common.{
  ℕ, zero, suc, ◌+◌, ◌%◌, ◌≤◌, ◌<◌, ◌≡◌, ◌⊎◌, inl, inr, refl, ap, some, List, [], ◌∷◌, arith, All,
  length, Bool-cases, Option-cases,
}
use basic_component_design.MemPool.{Node, sizeof_node, fits, scan, scan_from, mp_align_ptr}
use basic_component_design.MemPool.Fit.{user_top, fits-inside, mp_align_ptr_lem}

-- Where pieces may begin, at which `last` that does not lead past the end, and which sizes of the
-- pieces keep it so, in a node and in a new block.
pub record Placement : Type 1 where
  pub place : ℕ → ℕ
  pub IsLast : ℕ → ℕ → Type 0
  pub IsSize : ℕ → Type 0
  pub placed : (x e : ℕ) → IsLast x e → x ≤ e → e < user_top → (x ≤ place x) × (place x ≤ e)
  pub stays :
      (x e n : ℕ) → IsSize n → x ≤ e → e < user_top → place x + n ≤ e → IsLast (place x + n) e
  pub starts :
      (m e n : ℕ) → IsSize n → m % 32 ≡ 0 → e < user_top → m + 32 + n ≤ e → IsLast (m + 32 + n) e

mp_align_ptr_id : (x : ℕ) → x % 32 ≡ 0 → x < user_top → mp_align_ptr x ≡ x
unfolding mp_align_ptr
mp_align_ptr_id x h u = omega arith

pub aligned_stays :
    (x e n : ℕ)
    → n % 32 ≡ 0
    → x ≤ e
    → e < user_top
    → mp_align_ptr x + n ≤ e
    → mp_align_ptr (mp_align_ptr x + n) ≤ e
aligned_stays x e n z h u k =
    let (a, b, c) = mp_align_ptr_lem x (omega arith) in
    omega (arith, mp_align_ptr_id (mp_align_ptr x + n) (omega arith) (omega arith))

pub aligned_starts :
    (m e n : ℕ)
    → n % 32 ≡ 0
    → m % 32 ≡ 0
    → e < user_top
    → m + 32 + n ≤ e
    → mp_align_ptr (m + 32 + n) ≤ e
aligned_starts m e n z h u k =
    omega (arith, mp_align_ptr_id (m + 32 + n) (omega arith) (omega arith))

-- mp_alloc rounds up, which stays inside for sizes that are multiples of 32.
abbrev pub aligned : Placement
aligned = record {
  place = mp_align_ptr;
  IsLast = λ x e. mp_align_ptr x ≤ e;
  IsSize = λ n. n % 32 ≡ 0;
  placed = λ x e l h u. ((mp_align_ptr_lem x (omega arith)).1, l);
  stays = aligned_stays;
  starts = aligned_starts;
}

-- mp_nalloc takes what is there, at any size.
abbrev pub unaligned : Placement
unaligned = record {
  place = λ x. x;
  IsLast = λ _ _. Unit {0};
  IsSize = λ _. Unit {0};
  placed = λ x e l h u. omega arith;
  stays = λ x e n z h u k. tt;
  starts = λ m e n z h u k. tt;
}

module _ (pl : Placement) where
  open pl use {place, IsLast, IsSize, placed, stays}

  pub record IsNode (p : Node) : Type 0 where
    pub room : p.base + sizeof_node ≤ p.last
    pub within : p.last ≤ p.end
    pub low : p.end < user_top
    pub ending : IsLast p.last p.end

  -- The bytes [m, m + size) do not meet what was handed out from `p`, nor its header.
  abbrev pub Apart : ℕ → ℕ → Node → Type 0
  Apart m size p = (m + size ≤ p.base) ⊎ (p.last ≤ m)

  -- The blocks of two nodes do not meet.
  abbrev pub Separate : Node → Node → Type 0
  Separate p q = (p.end ≤ q.base) ⊎ (q.end ≤ p.base)

  abbrev pub Disjoint : List Node → Type 0
  Disjoint [] = Unit {0}
  Disjoint (p ∷ ps) = All (Separate p) ps × Disjoint ps

  -- What a scan does: in one node `last` moves up, over the piece.
  pub data Granted (m size : ℕ) : List Node → List Node → Type 0 where
    here :
        (p : Node) (ps : List Node)
        → p.last ≤ m
        → m + size ≤ p.end
        → m ≡ place p.last
        → Granted m size (p ∷ ps) (record p { last = m + size } ∷ ps)
    there :
        (p : Node) {ps ps' : List Node} → Granted m size ps ps' → Granted m size (p ∷ ps) (p ∷ ps')

  scan-Granted :
      (size : ℕ) (ps : List Node) (m : ℕ) (ps' : List Node)
      → All IsNode ps
      → scan place size ps ≡ some (m, ps')
      → Granted m size ps ps'
  unfolding scan
  scan-Granted size [] m ps' a e = absurd (cc)
  scan-Granted size (p ∷ ps) m ps' a e =
      let (lo, hi) = placed p.last p.end a.0.ending a.0.within a.0.low in
      let f = fits-inside p (place p.last) size hi a.0.low in
      elim (Bool-cases (fits p (place p.last) size)) [
        | inl t ↦
            let e' = rw t at e in
            let q : place p.last ≡ m = cc e' in
            let q' : (record p { last = place p.last + size } ∷ ps) ≡ ps' = cc e' in
            rw (← q') (rw (← q) (here p ps lo (ground arith) refl))
        | inr t ↦ elim (Option-cases (scan place size ps)) [
          | inl n ↦ absurd (cc (rw (n, scan) at (rw (t, scan) at e)))
          | inr ((m', qs), n) ↦
              let e' = rw (n, scan) at (rw (t, scan) at e) in
              let q : m' ≡ m = cc e' in
              let q' : (p ∷ qs) ≡ ps' = cc e' in
              rw (← q') (rw (← q) (there p (scan-Granted size ps m' qs a.1 n)))
        ]
      ]

  pub scan_from-Granted :
      (size c : ℕ) (ps : List Node) (m : ℕ) (ps' : List Node)
      → All IsNode ps
      → scan_from place size c ps ≡ some (m, ps')
      → Granted m size ps ps'
  unfolding scan_from
  scan_from-Granted size zero ps m ps' a e = scan-Granted size ps m ps' a e
  scan_from-Granted size (suc c) [] m ps' a e = absurd (cc)
  scan_from-Granted size (suc c) (p ∷ ps) m ps' a e =
      elim (Option-cases (scan_from place size c ps)) [
        | inl n ↦ absurd (cc (rw (n, scan_from) at e))
        | inr ((m', qs), n) ↦
            let e' = rw (n, scan_from) at e in
            let q : m' ≡ m = cc e' in
            let q' : (p ∷ qs) ≡ ps' = cc e' in
            rw (← q') (rw (← q) (there p (scan_from-Granted size c ps m' qs a.1 n)))
      ]

  -- The nodes stay as they should be.
  pub Granted-IsNode :
      {m size : ℕ} {ps ps' : List Node}
      → IsSize size
      → Granted m size ps ps'
      → All IsNode ps
      → All IsNode ps'
  Granted-IsNode {m} {size} z (here p ps lo hi e) a =
      let k : place p.last + size ≤ p.end = rw (← e) hi in
      let l : IsLast (m + size) p.end = rw e (stays p.last p.end size z a.0.within a.0.low k) in
      (record { room = omega (arith, a.0.room); within = hi; low = a.0.low; ending = l }, a.1)
  Granted-IsNode z (there p g) a = (a.0, Granted-IsNode z g a.1)

  pub length-Granted :
      {m size : ℕ} {ps ps' : List Node} → Granted m size ps ps' → length ps' ≡ length ps
  length-Granted (here p ps lo hi _) = refl
  length-Granted (there p g) = ap suc (length-Granted g)

  Granted-Separate :
      (q : Node) {m size : ℕ} {ps ps' : List Node}
      → Granted m size ps ps'
      → All (Separate q) ps
      → All (Separate q) ps'
  Granted-Separate q (here p ps lo hi _) a = a
  Granted-Separate q (there p g) a = (a.0, Granted-Separate q g a.1)

  pub Granted-Disjoint :
      {m size : ℕ} {ps ps' : List Node} → Granted m size ps ps' → Disjoint ps → Disjoint ps'
  Granted-Disjoint (here p ps lo hi _) d = d
  Granted-Disjoint (there p g) d = (Granted-Separate p g d.0, Granted-Disjoint g d.1)

  inside-Apart :
      (p : Node) (m size : ℕ) (qs : List Node)
      → p.base ≤ m
      → m + size ≤ p.end
      → All (Separate p) qs
      → All IsNode qs
      → All (Apart m size) qs
  inside-Apart p m size [] lo hi a v = tt
  inside-Apart p m size (q ∷ qs) lo hi a v = (apart a.0, inside-Apart p m size qs lo hi a.1 v.1)
    where
      apart : Separate p q → Apart m size q
      apart (inl h) = inl (omega arith)
      apart (inr h) = inr (omega (arith, v.0.within))

  Granted-Apart :
      (q : Node) {m size : ℕ} {ps ps' : List Node}
      → Granted m size ps ps'
      → IsNode q
      → All IsNode ps
      → All (Separate q) ps
      → Apart m size q
  Granted-Apart q {m} {size} (here p ps lo hi _) w v a = apart a.0
    where
      apart : Separate q p → Apart m size q
      apart (inl h) = inr (omega (arith, w.within, v.0.room))
      apart (inr h) = inl (omega arith)
  Granted-Apart q (there p g) w v a = Granted-Apart q g w v.1 a.1

  -- The piece does not meet what was handed out before, from any node.
  pub Granted-All-Apart :
      {m size : ℕ} {ps ps' : List Node}
      → Granted m size ps ps'
      → All IsNode ps
      → Disjoint ps
      → All (Apart m size) ps
  Granted-All-Apart (here p ps lo hi _) v d =
      (inr lo, inside-Apart p _ _ ps (omega (arith, v.0.room)) hi d.0 v.1)
  Granted-All-Apart (there p g) v d = (Granted-Apart p g v.0 v.1 d.0, Granted-All-Apart g v.1 d.1)

  -- From now on the piece counts as handed out: it lies in a node, behind the header and below `last`.
  abbrev pub Contains : ℕ → ℕ → List Node → Type 0
  Contains m size [] = ⊥
  Contains m size (p ∷ ps) = ((p.base + sizeof_node ≤ m) × (m + size ≤ p.last)) ⊎ Contains m size ps

  pub Granted-Contains :
      {m size : ℕ} {ps ps' : List Node}
      → Granted m size ps ps'
      → All IsNode ps
      → Contains m size ps'
  Granted-Contains (here p ps lo hi _) v = inl (omega (arith, v.0.room), omega arith)
  Granted-Contains (there p g) v = inr (Granted-Contains g v.1)
