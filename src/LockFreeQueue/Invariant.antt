-- ===== src/LockFreeQueue/Invariant.antt =====
-- What holds between any two turns, and that each kind of change keeps it.
use basic_component_design.Common.{
  ℕ, suc, ◌+◌, ◌≤◌, ◌<◌, ◌≡◌, ◌∙◌, ◌≢◌, ◌⊎◌, inl, inr, List, [], ◌∷◌, ◌++◌, Option, none, some,
  true, false, length, length-append, get_elem?, ◌==◌, update, arith,
}
use basic_component_design.LockFreeQueue.{
  Queue, count_to_index, Pc, enq_read, enq_cas, enq_store, enq_commit, deq_read, deq_load, deq_cas,
}
use basic_component_design.LockFreeQueue.Ring.{get_elem?-push, get_elem?-append}
use native.Mathlib.Decide.{ℕ_discrete}

-- The index that a thread in `enqueue` has reserved and not yet committed.
abbrev pub reserved : Pc → Option ℕ
reserved (enq_store a w) = some w
reserved (enq_commit w) = some w
reserved _ = none

-- What the locals of a thread say about the queue.
abbrev pub IsFresh : ℕ → List ℕ → Queue → Pc → Type 0
IsFresh size pushed q (enq_read a w) = w ≤ q.write_index
IsFresh size pushed q (enq_cas a w) =
    (w ≤ q.write_index) × ((w < q.write_index) ⊎ (w + 1 < q.read_index + size))
IsFresh size pushed q (enq_store a w) =
    (q.maximum_read_index ≤ w) × (w < q.write_index) × (get_elem? pushed w ≡ some a)
IsFresh size pushed q (enq_commit w) =
    (q.maximum_read_index ≤ w)
    × (w < q.write_index)
    × (get_elem? pushed w ≡ some (q.slots (count_to_index size w)))
IsFresh size pushed q (deq_read r) = r ≤ q.read_index
IsFresh size pushed q (deq_load r) =
    (r < q.read_index) ⊎ ((r ≡ q.read_index) × (r < q.maximum_read_index))
IsFresh size pushed q (deq_cas r v) =
    (r < q.read_index)
    ⊎ ((r ≡ q.read_index) × (r < q.maximum_read_index) × (get_elem? pushed r ≡ some v))
IsFresh size pushed q _ = Unit

-- The indices are in order and apart by less than `size`; the values between the first two are in
-- their slots; each index that is reserved is one thread's, and its locals fit.
pub record Inv (size : ℕ) (pushed : List ℕ) (q : Queue) (pc : ℕ → Pc) : Type 0 where
  pub read_le : q.read_index ≤ q.maximum_read_index
  pub maximum_le : q.maximum_read_index ≤ q.write_index
  pub window : q.write_index < q.read_index + size
  pub written : q.write_index ≡ length pushed
  pub stored :
      (i : ℕ)
      → q.read_index ≤ i
      → i < q.maximum_read_index
      → get_elem? pushed i ≡ some (q.slots (count_to_index size i))
  pub fresh : (t : ℕ) → IsFresh size pushed q (pc t)
  pub unique : (t u w : ℕ) → reserved (pc t) ≡ some w → reserved (pc u) ≡ some w → t ≡ u
  pub covered :
      (w : ℕ) → q.maximum_read_index ≤ w → w < q.write_index → (t : ℕ) × (reserved (pc t) ≡ some w)

module _ {size : ℕ} {pushed : List ℕ} {q : Queue} {pc : ℕ → Pc} (inv : Inv size pushed q pc)
    (t : ℕ) where
  open inv use {read_le, maximum_le, window, written, stored, fresh, unique, covered}

  pub moved :
      (P : Pc → Type 0) (p : Pc)
      → P p
      → ((u : ℕ) → t ≢ u → P (pc u))
      → (u : ℕ) → P (update pc t p u)
  moved P p here others u = elim (ℕ_discrete t u) [
    | yes e ↦ let k : (t == u) ≡ true = ground arith in rw k here
    | no n ↦ let k : (t == u) ≡ false = ground arith in rw k (others u n)
  ]

  pub reserved_between :
      (w : ℕ) (p : Pc)
      → IsFresh size pushed q p
      → reserved p ≡ some w
      → (q.maximum_read_index ≤ w) × (w < q.write_index)
  reserved_between w (enq_store a x) (ge, lt, g) e = ground arith
  reserved_between w (enq_commit x) (ge, lt, g) e = ground arith
  reserved_between w _ h e = absurd (ground arith)

  -- A turn that changes nothing that is shared, nor what the thread has reserved.
  pub still :
      (p : Pc)
      → IsFresh size pushed q p
      → reserved p ≡ reserved (pc t)
      → Inv size pushed q (update pc t p)
  still p f e = record {
    read_le = read_le;
    maximum_le = maximum_le;
    window = window;
    written = written;
    stored = stored;
    fresh = λ u. ground (arith, fresh u);
    unique = λ u v w eu ev. ground (arith, unique u v w);
    covered = λ w ge lt. let (u, eu) = covered w ge lt in (u, ground arith);
  }

  -- The winning CAS of `m_writeIndex`.
  grown-IsFresh :
      (a : ℕ) (p : Pc)
      → IsFresh size pushed q p
      → IsFresh size (pushed ++ (a ∷ [])) (record q { write_index = suc q.write_index }) p
  grown-IsFresh a (enq_read b w) h = omega arith
  grown-IsFresh a (enq_cas b w) h = (omega arith, inl (omega arith))
  grown-IsFresh a (enq_store b w) (ge, lt, e) =
      (ge, omega arith, get_elem?-append pushed (a ∷ []) w (omega arith) ∙ e)
  grown-IsFresh a (enq_commit w) (ge, lt, e) =
      (ge, omega arith, get_elem?-append pushed (a ∷ []) w (omega arith) ∙ e)
  grown-IsFresh a (deq_read r) h = h
  grown-IsFresh a (deq_load r) h = h
  grown-IsFresh a (deq_cas r v) (inl lt) = inl lt
  grown-IsFresh a (deq_cas r v) (inr (e, lt, g)) =
      inr (e, lt, get_elem?-append pushed (a ∷ []) r (omega arith) ∙ g)
  grown-IsFresh a _ h = tt

  pub reserve :
      (a : ℕ)
      → q.write_index + 1 < q.read_index + size
      → reserved (pc t) ≡ none
      → Inv size
          (pushed ++ (a ∷ []))
          (record q { write_index = suc q.write_index })
          (update pc t (enq_store a q.write_index))
  reserve a room e = record {
    read_le = read_le;
    maximum_le = omega arith;
    window = omega arith;
    written = omega (arith, length-append pushed (a ∷ []));
    stored = λ i ge lt. get_elem?-append pushed (a ∷ []) i (omega arith) ∙ stored i ge lt;
    fresh =
        moved (IsFresh size (pushed ++ (a ∷ [])) (record q { write_index = suc q.write_index }))
          (enq_store a q.write_index)
          (maximum_le, omega arith, rw written (get_elem?-push pushed a))
          (λ u n. grown-IsFresh a (pc u) (fresh u));
    unique = λ u v w eu ev. ground (
      arith,
      unique u v w,
      reserved_between w (pc u) (fresh u),
      reserved_between w (pc v) (fresh v),
    );
    covered = λ w ge lt. elim (ℕ_discrete w q.write_index) [
      | yes same ↦ (t, ground arith)
      | no other ↦ let (u, eu) = covered w ge (omega arith) in (u, ground arith)
    ];
  }
