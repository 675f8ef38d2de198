-- ===== src/MinHeap/Operations.antt =====
-- The operations of minheap.c on a valid heap: each keeps it valid, and what stands in it is known.
use Prim.Native.Nat.{max}
use basic_component_design.Common.{
  ℕ, suc, ◌+◌, ◌-◌, ◌≤◌, ◌<◌, ◌≡◌, ◌≢◌, ◌↔◌, ◌⊎◌, inl, inr, refl, ap, arith, false, Bool, none,
  some, Bool-cases, ◌==◌, u32_max, u32_mod, if◌then◌else◌, ◌*◌, ◌%◌, add_u32, Option-cases, sub_u32,
  update,
}
use basic_component_design.MinHeap.{
  MinHeap, Shifting, shift_up, shift_down, hole_at, reserve, push, pop, erase, top, elem_init,
  filled,
}
use basic_component_design.MinHeap.Gap.{max_size, parent_lem, IsHeap, Stands}
use basic_component_design.MinHeap.Settles.{Settles}
use basic_component_design.MinHeap.ShiftUp.{shift_up-Settles}
use basic_component_design.MinHeap.Refill.{IsHeap-IsGap_end, IsHeap-first, refill, refill-Loses}

-- `x` is in the heap `s`.
abbrev pub In : MinHeap → ℕ → Type 0
In s x = Stands s.n s.p s.min_heap_idx x

pub record IsValid (time : ℕ → ℕ) (s : MinHeap) : Type 0 where
  pub small : s.n < max_size
  pub room : s.n ≤ s.a
  pub heap : IsHeap time s.n s.p s.min_heap_idx

-- What min_heap_reserve_ grants is room for `n`, and nothing else changes.
reserve_cases :
    (realloc : ℕ → Bool) (s : MinHeap) (n : ℕ)
    → (reserve realloc s n ≡ none)
      ⊎ ((a : ℕ) × (n ≤ a) × (reserve realloc s n ≡ some (record s { a = a })))
unfolding reserve
reserve_cases realloc s n = elim (Option-cases (reserve realloc s n)) [
  | inl e ↦ inl e
  | inr (r, e) ↦ inr (r.a, ground arith, ground arith)
]

-- It fails exactly where more slots are needed and memory is refused; the capacity asked for is
-- doubled, from 8 on, and never less than what is needed.
reserve_fails :
    (realloc : ℕ → Bool) (s : MinHeap) (n : ℕ)
    → (reserve realloc s n ≡ none)
      ↔ ((s.a < n) × (realloc (max n (if s.a == 0 then 8 else s.a * 2 % u32_mod)) ≡ false))
unfolding reserve
reserve_fails realloc s n = ground arith

module _ (time : ℕ → ℕ) where
  -- Without a top nothing is in the heap.
  pub not-In-top : (s : MinHeap) (x : ℕ) → top s ≡ none → ¬ In s x
  unfolding top
  not-In-top s x h m = ground arith

  -- The heap after a push for which there is room.
  abbrev pushed : MinHeap → ℕ → ℕ → MinHeap
  pushed s a e = filled (record s { n = s.n + 1; a = a }) (shift_up time e (hole_at s s.n))

  push-pushed :
      (realloc : ℕ → Bool) (s : MinHeap) (e : ℕ) {r : MinHeap}
      → s.n + 1 < max_size
      → push time realloc s e ≡ some r
      → (a : ℕ) × (s.n + 1 ≤ a) × (r ≡ pushed s a e)
  unfolding push
  push-pushed realloc s e {r} small h =
      let w : add_u32 s.n 1 ≡ s.n + 1 = omega arith in
      elim (reserve_cases realloc s (add_u32 s.n 1)) [
        | inl q ↦ absurd (cc (rw (q, push) at h))
        | inr (a, le, q) ↦ (a, omega arith, cc (rw w at (rw (q, push) at h)))
      ]

  -- Pushing an entry that is not in the heap keeps the heap valid, and adds just that entry.
  pub push_lem :
      (realloc : ℕ → Bool) (s r : MinHeap) (e : ℕ)
      → IsValid time s
      → s.n + 1 < max_size
      → ¬ In s e
      → push time realloc s e ≡ some r
      → IsValid time r × (r.n ≡ s.n + 1) × ((x : ℕ) → In r x ↔ ((x ≡ e) ⊎ In s x))
  push_lem realloc s r e v small fresh h =
      let (a, le, q) = push-pushed realloc s e small h in
      let t =
        shift_up-Settles time (s.n + 1) e (hole_at s s.n)
          (IsHeap-IsGap_end time s.n s.p s.min_heap_idx small v.heap)
          (λ h'. fresh (ground (arith, h'.within, h'.elsewhere, h'.stands)))
          (λ i pos lt h'. let q = parent_lem i pos (omega arith) in absurd (omega arith)) in
      rw q (record { small = small; room = le; heap = t.heap }, refl, t_joined t)
    where
      t_joined :
          {g : Shifting}
          → Settles time (s.n + 1) e (hole_at s s.n) g
          → (x : ℕ) → Stands (s.n + 1) g.p g.min_heap_idx x ↔ ((x ≡ e) ⊎ In s x)
      t_joined t x = (
        λ h'. elim ((t.joined x).0 h') [
          | inl q ↦ inl q
          | inr q ↦ inr (ground (arith, q.within, q.elsewhere), q.stands)
        ],
        λ h'. (t.joined x).1 (elim h' [
          | inl q ↦ inl q
          | inr q ↦ inr (record { within = ground arith; elsewhere = ground arith; stands = q.1 })
        ]),
      )

  pub top-In : (s : MinHeap) (e : ℕ) → IsValid time s → top s ≡ some e → In s e
  unfolding top
  top-In s e v h = ground (arith, v.heap.indexed 0)

  -- The entry that min_heap_top_ returns is in the heap, and no entry of the heap is earlier.
  pub top_lem :
      (s : MinHeap) (e : ℕ)
      → IsValid time s
      → top s ≡ some e
      → (x : ℕ) → In s x
      → In s e × (time e ≤ time x)
  unfolding top
  top_lem s e v h x m =
      let le =
        IsHeap-first time s.n s.p s.min_heap_idx (s.min_heap_idx x) (s.min_heap_idx x) v.small
          v.heap (omega arith) m.0 in
      (top-In s e v h, ground arith)

  -- `r` is the valid heap `s` without `e`, and `e` is marked as standing in no heap.
  pub record Takes (s : MinHeap) (e : ℕ) (r : MinHeap) : Type 0 where
    pub valid : IsValid time r
    pub count : r.n + 1 ≡ s.n
    pub marked : r.min_heap_idx e ≡ u32_max
    pub others : (x : ℕ) → In r x ↔ (In s x × (x ≢ e))

  abbrev taken : ℕ → MinHeap → ℕ → ℕ → MinHeap
  taken m s i e = elem_init (filled (record s { n = m }) (refill time m i s.p s.min_heap_idx)) e

  Takes_others :
      (s : MinHeap) (m : ℕ) (e x : ℕ) (g : Shifting)
      → s.n ≡ suc m
      → m < u32_max
      → (Stands m g.p g.min_heap_idx x ↔ (Stands (suc m) s.p s.min_heap_idx x × (x ≢ e)))
      → (Stands m g.p (update g.min_heap_idx e u32_max) x ↔ (In s x × (x ≢ e)))
  Takes_others s m e x g n lt o = (λ h. ground arith, λ h. ground (arith, o.1 (ground arith)))

  taken-Takes :
      (s : MinHeap) (m i e : ℕ)
      → s.n ≡ suc m
      → IsValid time s
      → i < suc m
      → s.p i ≡ e
      → Takes s e (taken m s i e)
  unfolding elem_init
  taken-Takes s m i e n v lt at =
      let heap : IsHeap time (suc m) s.p s.min_heap_idx = rw n at v.heap in
      let l =
        rw at at (refill-Loses time m s.p s.min_heap_idx (omega (arith, v.small)) heap i lt) in
      let g = refill time m i s.p s.min_heap_idx in
      let apart =
        λ (j : ℕ) (k : j < m). ((l.others (g.p j)).0 (ground (arith, l.heap.indexed j k))).1 in
      record {
        valid = record {
          small = omega (arith, v.small);
          room = omega (arith, v.room);
          heap = record {
            indexed = λ j k. ground (arith, l.heap.indexed j k, apart j k);
            ordered = l.heap.ordered;
          };
        };
        count = omega arith;
        marked = ground arith;
        others = λ x. Takes_others s m e x g n (omega (arith, v.small)) (l.others x);
      }

  pub pop-Takes :
      (s r : MinHeap) (e : ℕ)
      → IsValid time s
      → pop time s ≡ some (e, r)
      → (top s ≡ some e) × Takes s e r
  unfolding pop top
  pop-Takes s r e v h = elim (Bool-cases (s.n == 0)) [
    | inl z ↦ absurd (cc (rw z at h))
    | inr nz ↦
        let t = taken-Takes s (s.n - 1) 0 (s.p 0) (ground arith) v (omega arith) refl in
        let q = rw nz at h in
        let first : s.p 0 ≡ e = cc q in
        let rest : taken (s.n - 1) s 0 (s.p 0) ≡ r = cc q in
        (rw nz (ap some first), rw first at (rw rest at t))
  ]

  -- Where there is a top, a pop returns it.
  pub pop_total :
      (s : MinHeap) (e : ℕ) → top s ≡ some e → (r : MinHeap) × (pop time s ≡ some (e, r))
  unfolding pop top
  pop_total s e h = (
    elem_init
        (filled (record s { n = s.n - 1 })
          (shift_down time (s.n - 1) (s.p (s.n - 1)) (hole_at s 0)))
        e,
    ground arith,
  )

  -- Popping a valid heap that is not empty returns its top, keeps the heap valid, takes out just that
  -- entry and marks it as standing in no heap; the entry was in the heap, and none is earlier.
  pub pop_lem :
      (s : MinHeap)
      → IsValid time s
      → 0 < s.n
      → (e : ℕ) × (r : MinHeap) × (pop time s ≡ some (e, r))
        × (top s ≡ some e)
        × Takes s e r
        × In s e
        × ((x : ℕ) → In s x → time e ≤ time x)
  unfolding top
  pop_lem s v h =
      let t : top s ≡ some (s.p 0) = ground arith in
      let (r, q) = pop_total s (s.p 0) t in
      let (_, k) = pop-Takes s r (s.p 0) v q in
      (s.p 0, r, q, t, k, top-In s (s.p 0) v t, λ x m. (top_lem s (s.p 0) v t x m).1)

  -- Erasing an entry of the heap keeps the heap valid, takes out just that entry and marks it.
  pub erase_lem :
      (s : MinHeap) (e : ℕ)
      → IsValid time s
      → In s e
      → (r : MinHeap) × (erase time s e ≡ some r) × Takes s e r
  unfolding erase
  erase_lem s e v h =
      let w : sub_u32 s.n 1 ≡ s.n - 1 = omega (arith, v.small) in
      let nz : (s.min_heap_idx e == u32_max) ≡ false = ground (arith, v.small) in
      let t = taken-Takes s (s.n - 1) (s.min_heap_idx e) e (omega arith) v (omega arith) h.1 in
      (taken (s.n - 1) s (s.min_heap_idx e) e, rw nz (rw w refl), t)
