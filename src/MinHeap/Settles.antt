-- ===== src/MinHeap/Settles.antt =====
-- What a loop of minheap.c ends with: a heap once the entry is placed in the gap.
use basic_component_design.Common.{ℕ, ◌≤◌, ◌<◌, ◌≡◌, ◌≢◌, ◌↔◌, ◌⊎◌, inl, inr, arith}
use native.Mathlib.Decide.{ℕ_discrete}
use basic_component_design.MinHeap.{Shifting, parent, move, place}
use basic_component_design.MinHeap.Gap.{Held, IsGap, IsHeap, Stands}

module _ (n : ℕ) (from : ℕ) (g : Shifting) where
  pub move-indexed :
      g.min_heap_idx (g.p from) ≡ from
      → (i : ℕ) → i ≢ from
      → (i ≢ g.hole → g.min_heap_idx (g.p i) ≡ i)
      → (move from g).min_heap_idx ((move from g).p i) ≡ i
  unfolding move
  move-indexed at i ne h = ground arith

  -- A move keeps what stands in the heap.
  pub Held-move :
      from < n
      → from ≢ g.hole
      → g.hole < n
      → g.min_heap_idx (g.p from) ≡ from
      → (x : ℕ) → Held n (move from g) x ↔ Held n g x
  unfolding move
  Held-move lt ne w at x = (
    λ h. ground (arith, h.within, h.elsewhere, h.stands),
    λ h. ground (arith, h.within, h.elsewhere, h.stands),
  )

module _ (time : ℕ → ℕ) (n : ℕ) where
  -- What the loops end with: a heap in which `e` has joined what stood round the gap.
  pub record Settles (e : ℕ) (g r : Shifting) : Type 0 where
    pub heap : IsHeap time n r.p r.min_heap_idx
    pub joined : (x : ℕ) → Stands n r.p r.min_heap_idx x ↔ ((x ≡ e) ⊎ Held n g x)

  abbrev pub Above : ℕ → Shifting → Type 0
  Above e g = (i : ℕ) → 0 < i → i < n → parent i ≡ g.hole → time e ≤ time (g.p i)

  abbrev pub Below : ℕ → Shifting → Type 0
  Below e g = 0 < g.hole → time (g.p (parent g.hole)) ≤ time e

  abbrev pub SameHeld : Shifting → Shifting → Type 0
  SameHeld g r = (x : ℕ) → Held n r x ↔ Held n g x

  pub place-Settles :
      (e : ℕ) (g : Shifting)
      → IsGap time n g
      → ¬ Held n g e
      → Above e g
      → Below e g
      → Settles e g (place e g)
  unfolding place
  place-Settles e g v fresh above below =
      let apart = λ (i : ℕ) (lt : i < n) (ne : i ≢ g.hole) (h : g.p i ≡ e). fresh (record {
        within = ground (arith, v.indexed i lt ne);
        elsewhere = ground (arith, v.indexed i lt ne);
        stands = ground (arith, v.indexed i lt ne);
      }) in
      record {
        heap = record {
          indexed = λ i lt. ground (arith, v.indexed i lt, apart i lt);
          ordered = λ i p lt. ground (arith, v.ordered i p lt, above i p lt, below);
        };
        joined = λ x. (
          λ h. elim (ℕ_discrete x e) [
            | yes h' ↦ inl h'
            | no ne ↦
                inr (record {
                  within = ground arith;
                  elsewhere = ground arith;
                  stands = ground arith;
                })
          ],
          λ h. elim h [
            | inl q ↦ ground (arith, v.within)
            | inr q ↦ ground (
              arith,
              q.within,
              q.elsewhere,
              q.stands,
              apart (g.min_heap_idx x) q.within q.elsewhere,
            )
          ],
        );
      }

  pub Settles-SameHeld :
      (e : ℕ) (g g' r : Shifting) → SameHeld g g' → Settles e g' r → Settles e g r
  Settles-SameHeld e g g' r same s = record {
    heap = s.heap;
    joined = λ x. ground (arith, s.joined x, same x);
  }
