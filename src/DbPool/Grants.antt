-- ===== src/DbPool/Grants.antt =====
-- What GetDBConn hands out.
use basic_component_design.Common.{
  ℕ, ◌+◌, ◌≡◌, ◌≢◌, ◌⊎◌, inl, inr, refl, ap, Bool, true, false, List, [], ◌∷◌, ◌≤◌, ◌<◌, leb, ◌==◌,
  if◌then◌else◌, length, count, length-append, List-cases, Bool-cases, arith,
}
use basic_component_design.DbPool.{
  CdbPool, Outcome, got, null, waits, undefined, take_front, new_conn, get_db_conn, after_wait,
  PoolTurn, get, wake, release, delete_pool, Reach,
}
use basic_component_design.DbPool.Accounts.{
  Accounts, count-append, added-Accounts, Reach-Keeps, PoolTurn-Accounts,
}

-- The outcome, with the list of the connections in use before and after.
abbrev pub Grants : Outcome → List ℕ → List ℕ → Type 0
Grants (got c) before after = (count c before ≡ 0) × (count c after ≡ 1)
Grants null before after = Unit
Grants waits before after = Unit
Grants undefined before after = ⊥

abbrev Granted : CdbPool → CdbPool × Outcome → Type 0
Granted p x = Grants x.1 p.used_list x.0.used_list

either-Granted :
    (p : CdbPool) (b : Bool) (x y : CdbPool × Outcome)
    → Granted p x
    → (b ≡ false → Granted p y)
    → Granted p (if b then x else y)
either-Granted p true x y hx hy = hx
either-Granted p false x y hx hy = hy refl

count_head : (c : ℕ) (cs : List ℕ) → count c (c ∷ cs) ≡ 1 + count c cs
count_head c cs = ground arith

module _ {m : ℕ} where
  take_front-Grants : (p : CdbPool) → Accounts m p → p.free_list ≢ [] → Granted p (take_front p)
  unfolding take_front
  take_front-Grants p a some_free = elim (List-cases p.free_list) [
    | inl h ↦ absurd (some_free h)
    | inr (c, cs, h) ↦
        let unused : count c p.used_list ≡ 0 =
          omega (arith, a.once c, ap (count c) h, count_head c cs) in
        rw (take_front, h)
          (unused, omega (arith, unused, count-append c p.used_list (c ∷ []), count_head c []))
  ]

  new_conn-Grants :
      (c ret : ℕ) (p : CdbPool)
      → count c p.free_list + count c p.used_list ≡ 0
      → p.db_cur_conn_cnt < p.db_max_conn_cnt
      → Accounts m p
      → Granted p (new_conn c ret p)
  unfolding new_conn
  new_conn-Grants c ret p fresh lt a = elim (Bool-cases (ret == 0)) [
    | inl t ↦
        rw (new_conn, t)
          (take_front-Grants _ (added-Accounts p c fresh lt a)
            (λ e. omega (arith, ap length e, length-append p.free_list (c ∷ []))))
    | inr f ↦ rw (new_conn, f) tt
  ]

  get_db_conn-Grants :
      (c ret : ℕ) (p : CdbPool)
      → count c p.free_list + count c p.used_list ≡ 0
      → Accounts m p
      → Granted p (get_db_conn c ret p)
  unfolding get_db_conn
  get_db_conn-Grants c ret p fresh a =
      either-Granted p p.abort_request (p, null) _ tt
        (λ live. elim (List-cases p.free_list) [
          | inr (d, ds, h) ↦
              rw h (take_front-Grants p a (λ e. omega (arith, ap length e, ap length h)))
          | inl h ↦ elim (Bool-cases (leb p.db_max_conn_cnt p.db_cur_conn_cnt)) [
            | inl full ↦ rw (h, full) tt
            | inr room ↦ rw (h, room) (new_conn-Grants c ret p fresh (ground arith) a)
          ]
        ])

  after_wait-Grants :
      (timed : Bool) (p : CdbPool)
      → (timed ≡ true) ⊎ (p.abort_request ≡ true) ⊎ (p.free_list ≢ [])
      → Accounts m p
      → Granted p (after_wait timed p)
  unfolding after_wait
  after_wait-Grants true p ended a = elim (List-cases p.free_list) [
    | inl h ↦ rw (after_wait, h) tt
    | inr (c, cs, h) ↦
        rw (after_wait, h)
          (either-Granted p p.abort_request (p, null) (take_front p) tt
            (λ live. take_front-Grants p a (λ e. omega (arith, ap length e, ap length h))))
  ]
  after_wait-Grants false p ended a =
      either-Granted p p.abort_request (p, null) (take_front p) tt
        (λ live. take_front-Grants p a (elim ended [
          | inl not_timed ↦ absurd (ground arith)
          | inr (inl aborted) ↦ absurd (ground arith)
          | inr (inr some_free) ↦ some_free
        ]))

  PoolTurn-Grants :
      {p q : CdbPool} {o : Outcome}
      → PoolTurn p q o
      → Accounts m p
      → Grants o p.used_list q.used_list
  PoolTurn-Grants (get c ret {p} fresh) a = get_db_conn-Grants c ret p fresh a
  PoolTurn-Grants (wake timed {p} h) a = after_wait-Grants timed p h a
  PoolTurn-Grants (release c {p} owned) a = tt
  PoolTurn-Grants (delete_pool {p}) a = tt

  -- From any pool that threads come to in any order of their turns, with a maximum of at least one
  -- connection, and whichever turn comes next: when it is GetDBConn that returns a connection, the
  -- connection was not in the pool's m_used_list before and is there exactly once after; GetDBConn
  -- never takes the front of an empty list; and after the turn m_free_list and m_used_list together
  -- have no more than the maximum, no connection twice. A thread gives back only connections of the
  -- pool, but it may give back one that another thread uses.
  pub Reach-exclusive :
      {p q : CdbPool} {o : Outcome}
      → 0 < m
      → Reach m p
      → PoolTurn p q o
      → Grants o p.used_list q.used_list
        × (length q.free_list + length q.used_list ≤ m)
        × ((c : ℕ) → count c q.free_list + count c q.used_list ≤ 1)
  Reach-exclusive positive r s =
      let a = Reach-Keeps r in
      let b = PoolTurn-Accounts s a in
      (PoolTurn-Grants s a, omega (arith, b.total, b.bounded), b.once)
