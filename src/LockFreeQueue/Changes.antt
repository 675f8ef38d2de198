-- ===== src/LockFreeQueue/Changes.antt =====
-- The other changes of shared memory keep the invariant: the store, and the two other CASes.
use basic_component_design.Common.{
  ℕ, suc, ◌≤◌, ◌<◌, ◌≡◌, refl, sym, ap, ◌∙◌, ◌≢◌, inl, inr, List, none, some, update, update_self,
  update_ne, arith,
}
use basic_component_design.LockFreeQueue.{
  Queue, count_to_index, Pc, enq_read, enq_cas, enq_store, enq_commit, deq_read, deq_load, deq_cas,
}
use basic_component_design.LockFreeQueue.Ring.{ring_apart}
use basic_component_design.LockFreeQueue.Invariant.{reserved, IsFresh, Inv, moved}
use native.Mathlib.Decide.{dec_lt}

module _ {size : ℕ} {pushed : List ℕ} {q : Queue} {pc : ℕ → Pc} (inv : Inv size pushed q pc)
    (t : ℕ) where
  open inv use {read_le, maximum_le, window, written, stored, fresh, unique, covered}

  -- The store into the slot of the index that the thread has reserved.
  stored_apart :
      (i w : ℕ)
      → q.read_index ≤ i
      → i < q.write_index
      → q.read_index ≤ w
      → w < q.write_index
      → i ≢ w
      → count_to_index size i ≢ count_to_index size w
  stored_apart i w ge lt ge' lt' n = elim (dec_lt i w) [
    | yes less ↦ λ e. ring_apart size i w less (omega arith) (sym e)
    | no more ↦ ring_apart size w i (omega arith) (omega arith)
  ]

  filled-IsFresh :
      (a w : ℕ) (p : Pc)
      → q.maximum_read_index ≤ w
      → w < q.write_index
      → ((x : ℕ) → reserved p ≡ some x → x ≢ w)
      → IsFresh size pushed q p
      → IsFresh size pushed (record q { slots = update q.slots (count_to_index size w) a }) p
  filled-IsFresh a w (enq_commit x) ge lt other (ge', lt', g) =
      let n = stored_apart w x (omega arith) lt (omega arith) lt' (λ e. other x refl (sym e)) in
      (ge', lt', g ∙ ap some (sym (update_ne q.slots (count_to_index size w) a _ n)))
  filled-IsFresh a w (enq_read b x) ge lt other h = h
  filled-IsFresh a w (enq_cas b x) ge lt other h = h
  filled-IsFresh a w (enq_store b x) ge lt other h = h
  filled-IsFresh a w (deq_read r) ge lt other h = h
  filled-IsFresh a w (deq_load r) ge lt other h = h
  filled-IsFresh a w (deq_cas r v) ge lt other h = h
  filled-IsFresh a w _ ge lt other h = tt

  pub fill :
      (a w : ℕ)
      → pc t ≡ enq_store a w
      → Inv size pushed
          (record q { slots = update q.slots (count_to_index size w) a })
          (update pc t (enq_commit w))
  fill a w e =
      let (ge, lt, g) : IsFresh size pushed q (enq_store a w) = rw e at (fresh t) in
      let mine : reserved (pc t) ≡ some w = rw e refl in
      record {
        read_le = read_le;
        maximum_le = maximum_le;
        window = window;
        written = written;
        stored = λ i gi li.
            let n = stored_apart w i (omega arith) lt gi (omega arith) (omega arith) in
            stored i gi li ∙ ap some (sym (update_ne q.slots (count_to_index size w) a _ n));
        fresh =
            moved inv t
              (IsFresh size pushed (record q { slots = update q.slots (count_to_index size w) a }))
              (enq_commit w)
              (ge, lt, g ∙ ap some (sym (update_self q.slots (count_to_index size w) a)))
              (λ u n.
                filled-IsFresh a w (pc u) ge lt
                  (λ x ex same. n (unique t u w mine (ex ∙ ap some same))) (fresh u));
        unique = λ u v x eu ev. ground (arith, unique u v x);
        covered = λ x gx lx. let (u, eu) = covered x gx lx in (u, ground arith);
      }

  -- The winning CAS of `m_maximumReadIndex`.
  committed-IsFresh :
      (p : Pc)
      → ((x : ℕ) → reserved p ≡ some x → x ≢ q.maximum_read_index)
      → IsFresh size pushed q p
      → IsFresh size pushed (record q { maximum_read_index = suc q.maximum_read_index }) p
  committed-IsFresh (enq_store b x) other (ge, lt, g) = let n = other x refl in (omega arith, lt, g)
  committed-IsFresh (enq_commit x) other (ge, lt, g) = let n = other x refl in (omega arith, lt, g)
  committed-IsFresh (enq_read b x) other h = h
  committed-IsFresh (enq_cas b x) other h = h
  committed-IsFresh (deq_read r) other h = h
  committed-IsFresh (deq_load r) other (inl lt) = inl lt
  committed-IsFresh (deq_load r) other (inr (e, lt)) = inr (e, omega arith)
  committed-IsFresh (deq_cas r v) other (inl lt) = inl lt
  committed-IsFresh (deq_cas r v) other (inr (e, lt, g)) = inr (e, omega arith, g)
  committed-IsFresh _ other h = tt

  pub commit :
      (w : ℕ)
      → pc t ≡ enq_commit w
      → q.maximum_read_index ≡ w
      → Inv size pushed
          (record q { maximum_read_index = suc q.maximum_read_index })
          (update pc t Pc.enq_count)
  commit w e here =
      let (ge, lt, g) : IsFresh size pushed q (enq_commit w) = rw e at (fresh t) in
      let mine : reserved (pc t) ≡ some w = rw e refl in
      record {
        read_le = omega arith;
        maximum_le = omega arith;
        window = window;
        written = written;
        stored = λ i gi li. elim (dec_lt i q.maximum_read_index) [
          | yes old ↦ stored i gi old
          | no new ↦ let same : i ≡ w = omega arith in rw same g
        ];
        fresh =
            moved inv t
              (IsFresh size pushed (record q { maximum_read_index = suc q.maximum_read_index }))
              Pc.enq_count tt
              (λ u n.
                committed-IsFresh (pc u)
                  (λ x ex same. n (unique t u w mine (ex ∙ ap some (same ∙ here)))) (fresh u));
        unique = λ u v x eu ev. ground (arith, unique u v x);
        covered = λ x gx lx. let (u, eu) = covered x (omega arith) lx in (u, ground arith);
      }

  -- The winning CAS of `m_readIndex`.
  taken-IsFresh :
      (p : Pc)
      → IsFresh size pushed q p
      → IsFresh size pushed (record q { read_index = suc q.read_index }) p
  taken-IsFresh (enq_read b x) h = h
  taken-IsFresh (enq_cas b x) (le, inl lt) = (le, inl lt)
  taken-IsFresh (enq_cas b x) (le, inr room) = (le, inr (omega arith))
  taken-IsFresh (enq_store b x) h = h
  taken-IsFresh (enq_commit x) h = h
  taken-IsFresh (deq_read r) h = omega arith
  taken-IsFresh (deq_load r) (inl lt) = inl (omega arith)
  taken-IsFresh (deq_load r) (inr (e, lt)) = inl (omega arith)
  taken-IsFresh (deq_cas r v) (inl lt) = inl (omega arith)
  taken-IsFresh (deq_cas r v) (inr (e, lt, g)) = inl (omega arith)
  taken-IsFresh _ h = tt

  pub take :
      (v : ℕ)
      → q.read_index < q.maximum_read_index
      → reserved (pc t) ≡ none
      → Inv size pushed (record q { read_index = suc q.read_index }) (update pc t (Pc.deq_count v))
  take v lt e = record {
    read_le = omega arith;
    maximum_le = maximum_le;
    window = omega arith;
    written = written;
    stored = λ i gi li. stored i (omega arith) li;
    fresh =
        moved inv t (IsFresh size pushed (record q { read_index = suc q.read_index }))
          (Pc.deq_count v) tt (λ u n. taken-IsFresh (pc u) (fresh u));
    unique = λ u w x eu ev. ground (arith, unique u w x);
    covered = λ x gx lx. let (u, eu) = covered x gx lx in (u, ground arith);
  }

  counted-IsFresh :
      (n : ℕ) (p : Pc) → IsFresh size pushed q p → IsFresh size pushed (record q { count = n }) p
  counted-IsFresh n (enq_read b x) h = h
  counted-IsFresh n (enq_cas b x) h = h
  counted-IsFresh n (enq_store b x) h = h
  counted-IsFresh n (enq_commit x) h = h
  counted-IsFresh n (deq_read r) h = h
  counted-IsFresh n (deq_load r) h = h
  counted-IsFresh n (deq_cas r v) h = h
  counted-IsFresh n _ h = tt

  pub counted :
      (n : ℕ)
      → reserved (pc t) ≡ none
      → Inv size pushed (record q { count = n }) (update pc t Pc.idle)
  counted n e = record {
    read_le = read_le;
    maximum_le = maximum_le;
    window = window;
    written = written;
    stored = stored;
    fresh =
        moved inv t (IsFresh size pushed (record q { count = n })) Pc.idle tt
          (λ u m. counted-IsFresh n (pc u) (fresh u));
    unique = λ u w x eu ev. ground (arith, unique u w x);
    covered = λ x gx lx. let (u, eu) = covered x gx lx in (u, ground arith);
  }
