-- ===== src/MinHeapTimer/Expire.antt =====
-- `expire_timer`: which timers fire, in what order, and what is left.
use native.Mathlib.Decide.{ℕ_discrete}
use basic_component_design.Common.{
  ℕ, zero, suc, ◌≤◌, ◌<◌, ◌≡◌, ◌↔◌, ◌⊎◌, inl, inr, refl, ap, sym, ltb→lt, arith, some, List, [],
  ◌∷◌, All, ltb, Option-cases, Bool-cases,
}
use basic_component_design.MinHeap.{top}
use basic_component_design.MinHeap.Operations.{
  In, IsValid, Takes, pop-Takes, pop_total, top_lem, top-In, not-In-top,
}
use basic_component_design.MinHeapTimer.{Timers, drop_top, expire_loop, expire_timer}

abbrev pub Among : ℕ → List ℕ → Type 0
Among x [] = ⊥
Among x (y ∷ ys) = (x ≡ y) ⊎ Among x ys

abbrev pub Distinct : List ℕ → Type 0
Distinct [] = Unit {0}
Distinct (x ∷ xs) = (¬ Among x xs) × Distinct xs

-- No entry stands behind a later one.
abbrev pub Ascending : (ℕ → ℕ) → List ℕ → Type 0
Ascending time [] = Unit {0}
Ascending time (x ∷ xs) = All (λ y. time x ≤ time y) xs × Ascending time xs

All-Among : (P : ℕ → Type 0) (xs : List ℕ) → ((x : ℕ) → Among x xs → P x) → All P xs
All-Among P [] h = tt
All-Among P (x ∷ xs) h = (h x (inl refl), All-Among P xs (λ y m. h y (inr m)))

-- The timers of `s` that are due at `cur` have fired, each once and the earliest first, and the
-- others are left.
pub record Fires (time : ℕ → ℕ) (cur : ℕ) (s : Timers) (fired : List ℕ) (t : Timers) : Type 0 where
  pub valid : IsValid time t.heap
  pub same : t.time ≡ time
  pub left : (x : ℕ) → In t.heap x ↔ (In s.heap x × (cur < time x))
  pub due : (x : ℕ) → Among x fired ↔ (In s.heap x × (time x ≤ cur))
  pub once : Distinct fired
  pub in_order : Ascending time fired

-- Callbacks that leave the heap and the times of the entries as they are.
abbrev pub KeepsHeap : (ℕ → Timers → Timers) → Type 0
KeepsHeap call = (e : ℕ) (s : Timers) → ((call e s).heap ≡ s.heap) × ((call e s).time ≡ s.time)

module _ (call : ℕ → Timers → Timers) (keeps : KeepsHeap call) (time : ℕ → ℕ) (cur : ℕ) where
  drop_top-Takes :
      (s : Timers) (te : ℕ)
      → s.time ≡ time
      → IsValid time s.heap
      → top s.heap ≡ some te
      → ((drop_top te (call te s)).time ≡ time)
        × Takes time s.heap te (drop_top te (call te s)).heap
  unfolding drop_top
  drop_top-Takes s te e v h =
      let (r, p) = pop_total time s.heap te h in
      let (k, k') = keeps te s in
      rw k (rw k' (rw e (rw (p, drop_top) (refl, (pop-Takes time s.heap r te v p).1))))

  stops :
      (s : Timers)
      → s.time ≡ time
      → IsValid time s.heap
      → ((x : ℕ) → In s.heap x → cur < time x)
      → Fires time cur s [] s
  stops s e v late = record {
    valid = v;
    same = e;
    left = λ x. (λ h. (h, late x h), λ h. h.0);
    due = λ x. (λ h. absurd h, λ h. omega (arith, late x h.0));
    once = tt;
    in_order = tt;
  }

  Fires-cons :
      (s s' t : Timers) (te : ℕ) (fired : List ℕ)
      → IsValid time s.heap
      → top s.heap ≡ some te
      → time te ≤ cur
      → Takes time s.heap te s'.heap
      → Fires time cur s' fired t
      → Fires time cur s (te ∷ fired) t
  Fires-cons s s' t te fired v h le k f =
      let here = top-In time s.heap te v h in
      record {
        valid = f.valid;
        same = f.same;
        left = λ x. (
          λ m. let a = (f.left x).0 m in (((k.others x).0 a.0).0, a.1),
          λ m.
              (f.left x).1
                ((k.others x).1 (m.0, λ e. let q = ap time e in absurd (omega (arith, m.1))), m.1),
        );
        due = λ x. (
          λ m. elim m [
            | inl e ↦ rw e (here, le)
            | inr m' ↦ let a = (f.due x).0 m' in (((k.others x).0 a.0).0, a.1)
          ],
          λ m. elim (ℕ_discrete x te) [
            | yes e ↦ inl e
            | no ne ↦ inr ((f.due x).1 ((k.others x).1 (m.0, ne), m.1))
          ],
        );
        once = ((λ m. ((k.others te).0 ((f.due te).0 m).0).1 refl), f.once);
        in_order = (
          All-Among _ fired
              (λ x m. (top_lem time s.heap te v h x ((k.others x).0 ((f.due x).0 m).0).0).1),
          f.in_order,
        );
      }

  expire_loop-Fires :
      (fuel : ℕ) (s : Timers)
      → s.heap.n < fuel
      → s.time ≡ time
      → IsValid time s.heap
      → (fired : List ℕ) × (t : Timers) × (expire_loop call fuel cur s ≡ some (fired, t))
        × Fires time cur s fired t
  unfolding expire_loop
  expire_loop-Fires zero s lt e v = absurd (omega arith)
  expire_loop-Fires (suc fuel) s lt e v = elim (Option-cases (top s.heap)) [
    | inl h ↦ (
      [],
      s,
      rw (h, expire_loop) refl,
      stops s e v (λ x m. absurd (not-In-top time s.heap x h m)),
    )
    | inr (te, h) ↦ elim (Bool-cases (ltb cur (s.time te))) [
      | inl late ↦ (
        [],
        s,
        rw (h, expire_loop) (rw (late, expire_loop) refl),
        stops s e v (λ x m.
            let first = (top_lem time s.heap te v h x m).1 in
            let q : time te ≡ s.time te = ap (λ (f : ℕ → ℕ). f te) (sym e) in
            let c = ltb→lt _ _ late in omega arith),
      )
      | inr due ↦
          let s' = drop_top te (call te s) in
          let (same, k) = drop_top-Takes s te e v h in
          let (fired, t, q, f) = expire_loop-Fires fuel s' (omega (arith, k.count)) same k.valid in
          (
            te ∷ fired,
            t,
            rw (h, expire_loop) (rw (due, expire_loop) (rw (q, expire_loop) refl)),
            Fires-cons s s' t te fired v h
                (let q : time te ≡ s.time te = ap (λ (f : ℕ → ℕ). f te) (sym e) in ground arith) k
                f,
          )
    ]
  ]

-- Where the callbacks leave the heap alone, `expire_timer` ends, and it fires exactly the timers
-- that are due, each once and the earliest first.
pub expire_timer-Fires :
    (call : ℕ → Timers → Timers) (cur : ℕ) (s : Timers)
    → KeepsHeap call
    → IsValid s.time s.heap
    → (fired : List ℕ) × (t : Timers) × (expire_timer call cur s ≡ some (fired, t))
      × Fires s.time cur s fired t
unfolding expire_timer
expire_timer-Fires call cur s keeps v =
    expire_loop-Fires call keeps s.time cur (suc s.heap.n) s (omega arith) refl v
