-- ===== src/Deadlock/Locks/Owner.antt =====
-- The lock list knows who holds a lock, and the graph who waits for whom.
use native.Mathlib.Decide.{ℕ_discrete}
use basic_component_design.Common.{
  ℕ, zero, suc, ◌+◌, ◌≤◌, ◌<◌, ◌≡◌, ◌≢◌, inl, inr, true, none, some, arith, ◌==◌, Option-cases,
  Bool-cases,
}
use basic_component_design.Deadlock.Graph.{SourceType, add_vertex, verify_edge}
use basic_component_design.Deadlock.Graph.Edges.{
  Linked, verify_edge-Linked, Linked-add_vertex, Linked-add_edge, add_edge-Linked,
}
use basic_component_design.Deadlock.Locks.{
  TaskGraph, thread, search_lock_from, search_lock, search_empty_lock, wait_for, lock_before_from,
  lock_before, take_slot, change_hands, lock_after,
}

-- What a search of the slots from `i` on returns is the first slot that holds the lock.
pub search_lock_from_lem :
    (m : ℕ → SourceType) (a n i j : ℕ)
    → search_lock_from m a n i ≡ some j
    → (i ≤ j) × (j < i + n) × ((m j).lock_id ≡ a) × ((k : ℕ) → i ≤ k → k < j → (m k).lock_id ≢ a)
unfolding search_lock_from
search_lock_from_lem m a zero i j e = absurd (cc)
search_lock_from_lem m a (suc n) i j e = elim (Bool-cases ((m i).lock_id == a)) [
  | inl h ↦
      let q : i ≡ j = ground arith in
      (omega arith, omega arith, rw (← q) (ground arith), λ k le lt. absurd (omega arith))
  | inr h ↦
      let (b, c, d, f) = search_lock_from_lem m a n (suc i) j (ground arith) in
      (
        omega arith,
        omega arith,
        d,
        λ k le lt. elim (ℕ_discrete k i) [
          | yes q ↦ rw q (ground arith)
          | no ne ↦ f k (omega arith) lt
        ],
      )
]

pub search_lock_from-none :
    (m : ℕ → SourceType) (a n i : ℕ)
    → search_lock_from m a n i ≡ none
    → (k : ℕ) → i ≤ k
    → k < i + n
    → (m k).lock_id ≢ a
unfolding search_lock_from
search_lock_from-none m a zero i e k le lt = absurd (omega arith)
search_lock_from-none m a (suc n) i e k le lt = elim (Bool-cases ((m i).lock_id == a)) [
  | inl h ↦ absurd (ground arith)
  | inr h ↦ elim (ℕ_discrete k i) [
    | yes q ↦ rw q (ground arith)
    | no ne ↦ search_lock_from-none m a n (suc i) (ground arith) k (omega arith) (omega arith)
  ]
]

-- The first slot that holds the lock is what a search returns.
pub search_lock_from_first :
    (m : ℕ → SourceType) (a n i j : ℕ)
    → i ≤ j
    → j < i + n
    → (m j).lock_id ≡ a
    → ((k : ℕ) → i ≤ k → k < j → (m k).lock_id ≢ a)
    → search_lock_from m a n i ≡ some j
unfolding search_lock_from
search_lock_from_first m a zero i j le lt e f = absurd (omega arith)
search_lock_from_first m a (suc n) i j le lt e f = elim (ℕ_discrete i j) [
  | yes q ↦ rw q (ground arith)
  | no ne ↦ ground (
    arith,
    f i,
    search_lock_from_first m a n (suc i) j (omega arith) (omega arith) e (λ k l. f k (omega arith)),
  )
]

-- The slot that a lock without one takes: one of the list, or the next, and none before holds 0.
search_empty_lock-le : (tg : TaskGraph) → search_empty_lock tg ≤ tg.lockidx
unfolding search_empty_lock
search_empty_lock-le tg = elim (Option-cases (search_lock_from tg.locklist 0 tg.lockidx 0)) [
  | inl e ↦ rw (e, search_empty_lock) (omega arith)
  | inr (j, e) ↦
      rw (e, search_empty_lock)
        (omega (arith, (search_lock_from_lem tg.locklist 0 tg.lockidx 0 j e).1))
]

pub take_slot-owner :
    (t a : ℕ) (tg : TaskGraph)
    → search_lock tg a ≡ none
    → (i : ℕ) × (search_lock (take_slot t a tg) a ≡ some i)
      × (((take_slot t a tg).locklist i).id ≡ t)
unfolding take_slot search_lock
take_slot-owner t a tg e =
    let le = search_empty_lock-le tg in
    (
      search_empty_lock tg,
      search_lock_from_first _ a (tg.lockidx + 1) 0 (search_empty_lock tg) (omega arith)
          (omega arith) (ground arith)
          (λ k l lt.
            ground (arith, search_lock_from-none tg.locklist a tg.lockidx 0 e k l (omega arith))),
      ground arith,
    )

change_hands-owner :
    (t a i : ℕ) (tg : TaskGraph)
    → search_lock tg a ≡ some i
    → (search_lock (change_hands t i tg) a ≡ some i) × (((change_hands t i tg).locklist i).id ≡ t)
unfolding change_hands search_lock
change_hands-owner t a i tg e =
    let (b, c, d, f) = search_lock_from_lem tg.locklist a tg.lockidx 0 i e in
    (
      search_lock_from_first _ a tg.lockidx 0 i b c (ground arith)
          (λ k l lt. ground (arith, f k l lt)),
      ground arith,
    )

-- After lock_after the search for the lock finds a slot, and it names the thread that has the lock.
lock_after-owner :
    (t a : ℕ) (tg : TaskGraph)
    → (i : ℕ) × (search_lock (lock_after t a tg) a ≡ some i)
      × (((lock_after t a tg).locklist i).id ≡ t)
unfolding lock_after
lock_after-owner t a tg = elim (Option-cases (search_lock tg a)) [
  | inl e ↦ rw (e, lock_after) (take_slot-owner t a tg e)
  | inr (i, e) ↦ rw (e, lock_after) (let (s, o) = change_hands-owner t a i tg e in (i, s, o))
]

-- What a round of lock_before adds: the edge from the thread to the owner of the slot.
wait_for-Linked :
    (t i : ℕ) (tg : TaskGraph) → Linked (wait_for t i tg).list (thread t) (tg.locklist i).id
unfolding wait_for
wait_for-Linked t i tg =
    let to = thread (tg.locklist i).id in
    let l = add_vertex (add_vertex tg.list (thread t)) to in
    elim (Bool-cases (verify_edge l (thread t) to)) [
      | inl e ↦ rw e ((verify_edge-Linked l (thread t) to).0 e)
      | inr e ↦ rw e (add_edge-Linked l (thread t) to)
    ]

wait_for-keeps :
    (t i x : ℕ) (s : SourceType) (tg : TaskGraph)
    → Linked tg.list s x
    → Linked (wait_for t i tg).list s x
unfolding wait_for
wait_for-keeps t i x s tg k =
    let to = thread (tg.locklist i).id in
    let l1 = add_vertex tg.list (thread t) in
    let l = add_vertex l1 to in
    let k' = Linked-add_vertex l1 to s x (Linked-add_vertex tg.list (thread t) s x k) in
    elim (Bool-cases (verify_edge l (thread t) to)) [
      | inl e ↦ rw e k'
      | inr e ↦ rw e (Linked-add_edge l (thread t) to s x k')
    ]

-- The owners and the locks in the slots are not changed by a round.
wait_for-slots :
    (t i j : ℕ) (tg : TaskGraph)
    → (((wait_for t i tg).locklist j).id ≡ (tg.locklist j).id)
      × (((wait_for t i tg).locklist j).lock_id ≡ (tg.locklist j).lock_id)
unfolding wait_for
wait_for-slots t i j tg = ground arith

lock_before_from-keeps :
    (t a n i x : ℕ) (s : SourceType) (tg : TaskGraph)
    → Linked tg.list s x
    → Linked (lock_before_from t a n i tg).list s x
unfolding lock_before_from
lock_before_from-keeps t a zero i x s tg k = k
lock_before_from-keeps t a (suc n) i x s tg k = elim (Bool-cases ((tg.locklist i).lock_id == a)) [
  | inl e ↦
      rw (e, lock_before_from)
        (lock_before_from-keeps t a n (suc i) x s (wait_for t i tg) (wait_for-keeps t i x s tg k))
  | inr e ↦ rw (e, lock_before_from) (lock_before_from-keeps t a n (suc i) x s tg k)
]

lock_before_from-Linked :
    (t a n i j : ℕ) (tg : TaskGraph)
    → i ≤ j
    → j < i + n
    → (tg.locklist j).lock_id ≡ a
    → Linked (lock_before_from t a n i tg).list (thread t) (tg.locklist j).id
unfolding lock_before_from
lock_before_from-Linked t a zero i j tg le lt h = absurd (omega arith)
lock_before_from-Linked t a (suc n) i j tg le lt h = elim (ℕ_discrete i j) [
  | yes q ↦
      let e : ((tg.locklist i).lock_id == a) ≡ true = ground arith in
      rw (e, lock_before_from)
        (lock_before_from-keeps t a n (suc i) (tg.locklist j).id (thread t) (wait_for t i tg)
          (rw (← q) (wait_for-Linked t i tg)))
  | no ne ↦ elim (Bool-cases ((tg.locklist i).lock_id == a)) [
    | inl e ↦
        let (s, s') = wait_for-slots t i j tg in
        rw (e, lock_before_from)
          (rw s at (
            lock_before_from-Linked t a n (suc i) j (wait_for t i tg) (omega arith) (omega arith)
              (rw s' h)))
    | inr e ↦
        rw (e, lock_before_from)
          (lock_before_from-Linked t a n (suc i) j tg (omega arith) (omega arith) h)
  ]
]

-- After lock_before the graph has an edge from the thread to the owner of every slot that holds
-- the lock, unless the owner is the thread itself.
lock_before-waits :
    (t a j : ℕ) (tg : TaskGraph)
    → j < tg.lockidx
    → (tg.locklist j).lock_id ≡ a
    → verify_edge (lock_before t a tg).list (thread t) (thread (tg.locklist j).id) ≡ true
unfolding lock_before
lock_before-waits t a j tg lt h =
    (verify_edge-Linked _ (thread t) (thread (tg.locklist j).id)).1
      (lock_before_from-Linked t a tg.lockidx 0 j tg (omega arith) (omega arith) h)
