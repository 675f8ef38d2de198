-- ===== src/LockFreeQueue/Turns.antt =====
-- Every turn keeps the invariant, and that what is popped is a first part of what was pushed.
use basic_component_design.Common.{
  ℕ, suc, ◌+◌, ◌-◌, ◌%◌, ◌≤◌, ◌<◌, ◌≡◌, refl, sym, ap, ◌∙◌, ◌≢◌, ◌⊎◌, inl, inr, List, [], ◌∷◌, ◌++◌,
  some, Bool, true, false, length, length-append, get_elem?, ◌==◌, if◌then◌else◌, update, arith,
}
use basic_component_design.LockFreeQueue.{
  u64_mod, next, Queue, count_to_index, Pc, idle, enq_start, enq_read, enq_cas, enq_store,
  enq_commit, enq_count, deq_start, deq_read, deq_load, deq_cas, deq_count, size_start, size_read,
  access, pushed_by, popped_by,
}
use basic_component_design.LockFreeQueue.Ring.{split_at}
use basic_component_design.LockFreeQueue.Invariant.{reserved, IsFresh, Inv, still, reserve}
use basic_component_design.LockFreeQueue.Changes.{fill, commit, take, counted}
use mathlib.Core.List.{append-nil, append_assoc}
use mathlib.Core.Path.{subst}
use native.Mathlib.Nat.{add-mod_right}
use native.Mathlib.Decide.{ℕ_discrete}

module _ {size : ℕ} {pushed : List ℕ} {q : Queue} {pc : ℕ → Pc} (inv : Inv size pushed q pc) (t : ℕ)
    (few : length pushed + 1 < u64_mod) where
  -- Nothing is pushed.
  quiet : {r : Queue} {pc' : ℕ → Pc} → Inv size pushed r pc' → Inv size (pushed ++ []) r pc'
  quiet {r} {pc'} i = subst (λ ps. Inv size ps r pc') (sym (append-nil pushed)) i

  -- Behind the test for a full queue there is room, if nothing else has been reserved meanwhile.
  room_left :
      (w : ℕ)
      → w ≤ q.write_index
      → count_to_index size (next w) ≢ count_to_index size q.read_index
      → (w < q.write_index) ⊎ (w + 1 < q.read_index + size)
  room_left w le n = elim (ℕ_discrete (w + 1) (q.read_index + size)) [
    | yes full ↦
        let k : next w ≡ q.read_index + size = omega (arith, inv.written, full) in
        absurd (n (ap (λ (x : ℕ). x % size) k ∙ add-mod_right q.read_index size))
    | no less ↦ inr (omega (arith, inv.window))
  ]

  -- Behind the test for an empty queue there is an item, if nothing has been taken meanwhile.
  item_left :
      (r : ℕ)
      → r ≤ q.read_index
      → count_to_index size r ≢ count_to_index size q.maximum_read_index
      → IsFresh size pushed q (deq_load r)
  item_left r le n = elim (ℕ_discrete r q.read_index) [
    | yes same ↦
        let m : r ≢ q.maximum_read_index = λ k. n (ap (λ (x : ℕ). x % size) k) in
        inr (same, omega (arith, inv.read_le))
    | no less ↦ inl (omega arith)
  ]

  loaded :
      (r : ℕ)
      → IsFresh size pushed q (deq_load r)
      → IsFresh size pushed q (deq_cas r (q.slots (count_to_index size r)))
  loaded r (inl lt) = inl lt
  loaded r (inr (e, lt)) = inr (e, lt, inv.stored r (omega arith) lt)

  -- The two branches of a test.
  either :
      (b : Bool) (x y : Queue × Pc) (ps qs : List ℕ)
      → (b ≡ true → Inv size (pushed ++ ps) x.0 (update pc t x.1))
      → (b ≡ false → Inv size (pushed ++ qs) y.0 (update pc t y.1))
      → Inv size
          (pushed ++ (if b then ps else qs))
          (if b then x else y).0
          (update pc t (if b then x else y).1)
  either true x y ps qs yes_case no_case = yes_case refl
  either false x y ps qs yes_case no_case = no_case refl

  either_quiet :
      (b : Bool) (x y : Queue × Pc)
      → (b ≡ true → Inv size pushed x.0 (update pc t x.1))
      → (b ≡ false → Inv size pushed y.0 (update pc t y.1))
      → Inv size (pushed ++ []) (if b then x else y).0 (update pc t (if b then x else y).1)
  either_quiet true x y yes_case no_case = quiet (yes_case refl)
  either_quiet false x y yes_case no_case = quiet (no_case refl)

  either_pc :
      (b : Bool) (x y : Pc)
      → (b ≡ true → Inv size pushed q (update pc t x))
      → (b ≡ false → Inv size pushed q (update pc t y))
      → Inv size (pushed ++ []) q (update pc t (if b then x else y))
  either_pc true x y yes_case no_case = quiet (yes_case refl)
  either_pc false x y yes_case no_case = quiet (no_case refl)

  won_write :
      (a w : ℕ)
      → pc t ≡ enq_cas a w
      → q.write_index ≡ w
      → Inv size
          (pushed ++ (a ∷ []))
          (record q { write_index = next w })
          (update pc t (enq_store a w))
  won_write a w e same =
      let f : IsFresh size pushed q (enq_cas a w) = rw e at (inv.fresh t) in
      let k : next w ≡ suc q.write_index = omega (arith, inv.written, same) in
      let room : q.write_index + 1 < q.read_index + size = ground (arith, f) in
      subst
        (λ n.
          Inv size (pushed ++ (a ∷ [])) (record q { write_index = n })
            (update pc t (enq_store a w)))
        (sym k)
        (subst
          (λ n.
            Inv size (pushed ++ (a ∷ [])) (record q { write_index = suc q.write_index })
              (update pc t (enq_store a n)))
          same (reserve inv t a room (ap reserved e)))

  won_commit :
      (w : ℕ)
      → pc t ≡ enq_commit w
      → q.maximum_read_index ≡ w
      → Inv size pushed (record q { maximum_read_index = next w }) (update pc t enq_count)
  won_commit w e same =
      let f : IsFresh size pushed q (enq_commit w) = rw e at (inv.fresh t) in
      let k : next w ≡ suc q.maximum_read_index = omega (arith, inv.written, same, f) in
      subst (λ n. Inv size pushed (record q { maximum_read_index = n }) (update pc t enq_count))
        (sym k) (commit inv t w e same)

  taken_at :
      (r v : ℕ)
      → pc t ≡ deq_cas r v
      → q.read_index ≡ r
      → (r < q.maximum_read_index) × (get_elem? pushed r ≡ some v)
  taken_at r v e same =
      let f : IsFresh size pushed q (deq_cas r v) = rw e at (inv.fresh t) in ground (arith, f)

  won_read :
      (r v : ℕ)
      → pc t ≡ deq_cas r v
      → q.read_index ≡ r
      → Inv size pushed (record q { read_index = next r }) (update pc t (deq_count v))
  won_read r v e same =
      let (lt, g) = taken_at r v e same in
      let k : next r ≡ suc q.read_index = omega (arith, inv.written, inv.maximum_le, lt, same) in
      subst (λ n. Inv size pushed (record q { read_index = n }) (update pc t (deq_count v))) (sym k)
        (take inv t v (omega arith) (ap reserved e))

  pub access-Inv :
      (p : Pc)
      → pc t ≡ p
      → Inv size (pushed ++ pushed_by q p) (access size q p).0 (update pc t (access size q p).1)
  unfolding access
  access-Inv idle e = quiet (still inv t idle tt (ap reserved (sym e)))
  access-Inv (enq_start a) e =
      quiet (still inv t (enq_read a q.write_index) (omega arith) (ap reserved (sym e)))
  access-Inv (enq_read a w) e =
      let f : IsFresh size pushed q (enq_read a w) = rw e at (inv.fresh t) in
      either_pc _ idle (enq_cas a w) (λ full. still inv t idle tt (ap reserved (sym e)))
        (λ room. still inv t (enq_cas a w) (f, room_left w f (ground arith)) (ap reserved (sym e)))
  access-Inv (enq_cas a w) e =
      either (q.write_index == w) (record q { write_index = next w }, enq_store a w)
        (q, enq_start a) (a ∷ []) [] (λ won. won_write a w e (ground arith))
        (λ lost. quiet (still inv t (enq_start a) tt (ap reserved (sym e))))
  access-Inv (enq_store a w) e = quiet (fill inv t a w e)
  access-Inv (enq_commit w) e =
      either_quiet (q.maximum_read_index == w) (record q { maximum_read_index = next w }, enq_count)
        (q, enq_commit w) (λ won. won_commit w e (ground arith))
        (λ lost. still inv t (enq_commit w) (rw e at (inv.fresh t)) (ap reserved (sym e)))
  access-Inv enq_count e = quiet (counted inv t ((q.count + 1) % u64_mod) (ap reserved e))
  access-Inv deq_start e =
      quiet (still inv t (deq_read q.read_index) (omega arith) (ap reserved (sym e)))
  access-Inv (deq_read r) e =
      let f : IsFresh size pushed q (deq_read r) = rw e at (inv.fresh t) in
      either_pc _ idle (deq_load r) (λ none_left. still inv t idle tt (ap reserved (sym e)))
        (λ some_left. still inv t (deq_load r) (item_left r f (ground arith)) (ap reserved (sym e)))
  access-Inv (deq_load r) e =
      let f : IsFresh size pushed q (deq_load r) = rw e at (inv.fresh t) in
      quiet (
        still inv t (deq_cas r (q.slots (count_to_index size r))) (loaded r f)
          (ap reserved (sym e)))
  access-Inv (deq_cas r v) e =
      either_quiet (q.read_index == r) (record q { read_index = next r }, deq_count v)
        (q, deq_start) (λ won. won_read r v e (ground arith))
        (λ lost. still inv t deq_start tt (ap reserved (sym e)))
  access-Inv (deq_count v) e =
      quiet (counted inv t ((q.count + u64_mod - 1) % u64_mod) (ap reserved e))
  access-Inv size_start e = quiet (still inv t (size_read q.write_index) tt (ap reserved (sym e)))
  access-Inv (size_read w) e = quiet (still inv t idle tt (ap reserved (sym e)))

  -- The values popped so far are a first part of those pushed.
  abbrev pub IsPrefix : List ℕ → ℕ → List ℕ → Type 0
  IsPrefix ps n popped = ((rest : List ℕ) × (ps ≡ popped ++ rest)) × (n ≡ length popped)

  kept_prefix :
      (popped more : List ℕ) (r : ℕ)
      → r ≡ q.read_index
      → IsPrefix pushed q.read_index popped
      → IsPrefix (pushed ++ more) r (popped ++ [])
  kept_prefix popped more r same ((rest, e), n) = (
    (
      rest ++ more,
      ap (λ (ps : List ℕ). ps ++ more) e
          ∙ append_assoc popped rest more
          ∙ ap (λ (ps : List ℕ). ps ++ (rest ++ more)) (sym (append-nil popped)),
    ),
    omega (arith, n, same, length-append popped []),
  )

  popped_prefix :
      (popped : List ℕ) (r v : ℕ)
      → pc t ≡ deq_cas r v
      → q.read_index ≡ r
      → IsPrefix pushed q.read_index popped
      → IsPrefix (pushed ++ []) (next r) (popped ++ (v ∷ []))
  popped_prefix popped r v e same ((rest, split), n) =
      let (lt, g) = taken_at r v e same in
      let at_end : length popped ≡ r = sym n ∙ same in
      let g' : get_elem? (popped ++ rest) (length popped) ≡ some v = rw (sym split, at_end) g in
      let (rest', cut) = split_at popped rest g' in
      (
        (
          rest',
          append-nil pushed
              ∙ split
              ∙ ap (λ (ps : List ℕ). popped ++ ps) cut
              ∙ sym (append_assoc popped (v ∷ []) rest'),
        ),
        omega (arith, n, same, inv.written, inv.maximum_le, lt, length-append popped (v ∷ [])),
      )

  pub access-IsPrefix :
      (popped : List ℕ) (p : Pc)
      → pc t ≡ p
      → IsPrefix pushed q.read_index popped
      → IsPrefix (pushed ++ pushed_by q p) (access size q p).0.read_index (popped ++ popped_by q p)
  unfolding access
  access-IsPrefix popped (deq_cas r v) e h = elim (ℕ_discrete q.read_index r) [
    | yes same ↦
        let k : (q.read_index == r) ≡ true = ground arith in
        rw k (popped_prefix popped r v e same h)
    | no other ↦
        let k : (q.read_index == r) ≡ false = ground arith in
        rw k (kept_prefix popped [] q.read_index refl h)
  ]
  access-IsPrefix popped (enq_cas a w) e h = kept_prefix popped _ _ (ground arith) h
  access-IsPrefix popped (enq_commit w) e h = kept_prefix popped _ _ (ground arith) h
  access-IsPrefix popped _ e h = kept_prefix popped _ _ refl h
