-- ===== src/DbPool/Accounts.antt =====
-- Every connection is in one place, and there are never more than allowed.
use basic_component_design.Common.{
  ℕ, ◌+◌, ◌≡◌, ◌⊎◌, inl, inr, refl, ap, Bool, true, false, List, [], ◌∷◌, ◌++◌, ◌≤◌, ◌<◌, leb, ◌==◌,
  if◌then◌else◌, length, count, length-append, List-cases, Bool-cases, arith, ==_iff,
}
use basic_component_design.DbPool.{
  CdbPool, new_cdb_pool, init, init_loop, destroy, Outcome, null, take_front, new_conn, get_db_conn,
  after_wait, remove, found, rel_db_conn, PoolTurn, get, wake, release, delete_pool, Reach, start,
  turn,
}

pub count-append : (c : ℕ) (xs ys : List ℕ) → count c (xs ++ ys) ≡ count c xs + count c ys
count-append c [] ys = omega arith
count-append c (x ∷ xs) ys = omega (arith, count-append c xs ys)

count-remove_self : (c : ℕ) (xs : List ℕ) → count c (remove c xs) ≡ 0
unfolding remove
count-remove_self c [] = refl
count-remove_self c (x ∷ xs) = let ih = count-remove_self c xs in ground arith

count-remove : (c d : ℕ) (xs : List ℕ) → count d (remove c xs) ≤ count d xs
unfolding remove
count-remove c d [] = omega arith
count-remove c d (x ∷ xs) = let ih = count-remove c d xs in ground arith

length-remove : (c : ℕ) (xs : List ℕ) → length (remove c xs) + count c xs ≡ length xs
unfolding remove
length-remove c [] = refl
length-remove c (x ∷ xs) = let ih = length-remove c xs in ground arith

found-count : (c : ℕ) (xs : List ℕ) → found c xs ≡ false → count c xs ≡ 0
unfolding found
found-count c [] h = refl
found-count c (x ∷ xs) h = let ih = found-count c xs in ground arith

-- What holds of the pool between two turns.
pub record Accounts (max_conn_cnt : ℕ) (p : CdbPool) : Type 0 where
  pub max_same : p.db_max_conn_cnt ≡ max_conn_cnt
  pub once : (c : ℕ) → count c p.free_list + count c p.used_list ≤ 1
  pub total : length p.free_list + length p.used_list ≤ p.db_cur_conn_cnt
  pub bounded : (p.db_cur_conn_cnt ≤ 1) ⊎ (p.db_cur_conn_cnt ≤ max_conn_cnt)

module _ {m : ℕ} where
  taken-Accounts :
      (p : CdbPool) (c : ℕ) (cs : List ℕ)
      → p.free_list ≡ c ∷ cs
      → Accounts m p
      → Accounts m (record p { free_list = cs; used_list = p.used_list ++ (c ∷ []) })
  taken-Accounts p c cs h a = record {
    max_same = a.max_same;
    once = λ d. omega (arith, a.once d, ap (count d) h, count-append d p.used_list (c ∷ []));
    total = omega (arith, a.total, ap length h, length-append p.used_list (c ∷ []));
    bounded = a.bounded;
  }

  take_front-Accounts : (p : CdbPool) → Accounts m p → Accounts m (take_front p).0
  unfolding take_front
  take_front-Accounts p a = elim (List-cases p.free_list) [
    | inl h ↦ rw (take_front, h) a
    | inr (c, cs, h) ↦ rw (take_front, h) (taken-Accounts p c cs h a)
  ]

  pub added-Accounts :
      (p : CdbPool) (c : ℕ)
      → count c p.free_list + count c p.used_list ≡ 0
      → p.db_cur_conn_cnt < p.db_max_conn_cnt
      → Accounts m p
      → Accounts m (record p {
        free_list = p.free_list ++ (c ∷ []);
        db_cur_conn_cnt = p.db_cur_conn_cnt + 1;
      })
  added-Accounts p c fresh lt a = record {
    max_same = a.max_same;
    once = λ d.
        let i = a.once d in
        let j = count-append d p.free_list (c ∷ []) in
        elim (Bool-cases (d == c)) [
          | inl t ↦ omega (
            arith,
            j,
            ap {B = ℕ} (λ b. if b then 1 else 0) t,
            fresh,
            ap (λ x. count x p.free_list + count x p.used_list) ((==_iff d c).0 t),
          )
          | inr f ↦ omega (arith, i, j, ap {B = ℕ} (λ b. if b then 1 else 0) f)
        ];
    total = omega (arith, a.total, length-append p.free_list (c ∷ []));
    bounded = inr (omega (arith, a.max_same));
  }

  destroy-Accounts : (p : CdbPool) → Accounts m p → Accounts m (destroy p)
  unfolding destroy
  destroy-Accounts p a = record {
    max_same = a.max_same;
    once = λ d. omega (arith, a.once d);
    total = omega (arith, a.total);
    bounded = a.bounded;
  }

  either_way :
      (b : Bool) (x y : CdbPool × Outcome)
      → Accounts m x.0
      → Accounts m y.0
      → Accounts m (if b then x else y).0
  either_way true x y hx hy = hx
  either_way false x y hx hy = hy

  after_wait-Accounts :
      (timed : Bool) (p : CdbPool) → Accounts m p → Accounts m (after_wait timed p).0
  unfolding after_wait
  after_wait-Accounts false p a =
      either_way p.abort_request (p, null) (take_front p) a (take_front-Accounts p a)
  after_wait-Accounts true p a = elim (List-cases p.free_list) [
    | inl h ↦ rw (after_wait, h) a
    | inr (c, cs, h) ↦
        rw (after_wait, h)
          (either_way p.abort_request (p, null) (take_front p) a (take_front-Accounts p a))
  ]

  new_conn-Accounts :
      (c ret : ℕ) (p : CdbPool)
      → count c p.free_list + count c p.used_list ≡ 0
      → p.db_cur_conn_cnt < p.db_max_conn_cnt
      → Accounts m p
      → Accounts m (new_conn c ret p).0
  unfolding new_conn
  new_conn-Accounts c ret p fresh lt a = elim (Bool-cases (ret == 0)) [
    | inl t ↦ rw (new_conn, t) (take_front-Accounts _ (added-Accounts p c fresh lt a))
    | inr f ↦ rw (new_conn, f) a
  ]

  get_db_conn-Accounts :
      (c ret : ℕ) (p : CdbPool)
      → count c p.free_list + count c p.used_list ≡ 0
      → Accounts m p
      → Accounts m (get_db_conn c ret p).0
  unfolding get_db_conn
  get_db_conn-Accounts c ret p fresh a =
      either_way p.abort_request (p, null) _ a
        (elim (List-cases p.free_list) [
          | inr (d, ds, h) ↦ rw (h) (take_front-Accounts p a)
          | inl h ↦ elim (Bool-cases (leb p.db_max_conn_cnt p.db_cur_conn_cnt)) [
            | inl full ↦ rw (h, full) a
            | inr room ↦ rw (h, room) (new_conn-Accounts c ret p fresh (ground arith) a)
          ]
        ])

  released-Accounts :
      (c : ℕ) (p : CdbPool)
      → 0 < count c p.free_list + count c p.used_list
      → count c p.free_list ≡ 0
      → Accounts m p
      → Accounts m
          (record p { used_list = remove c p.used_list; free_list = p.free_list ++ (c ∷ []) })
  released-Accounts c p owned out a = record {
    max_same = a.max_same;
    once = λ d.
        let i = a.once d in
        let j = count-append d p.free_list (c ∷ []) in
        elim (Bool-cases (d == c)) [
          | inl t ↦
              let e = (==_iff d c).0 t in
              omega (
                arith,
                j,
                ap {B = ℕ} (λ b. if b then 1 else 0) t,
                ap (λ x. count x p.free_list) e,
                ap (λ x. count x (remove c p.used_list)) e,
                out,
                count-remove_self c p.used_list,
              )
          | inr f ↦
              omega
                (arith, i, j, count-remove c d p.used_list, ap {B = ℕ} (λ b. if b then 1 else 0) f)
        ];
    total = omega (
      arith,
      a.total,
      a.once c,
      owned,
      out,
      length-append p.free_list (c ∷ []),
      length-remove c p.used_list,
    );
    bounded = a.bounded;
  }

  rel_db_conn-Accounts :
      (c : ℕ) (p : CdbPool)
      → 0 < count c p.free_list + count c p.used_list
      → Accounts m p
      → Accounts m (rel_db_conn c p)
  unfolding rel_db_conn
  rel_db_conn-Accounts c p owned a = elim (Bool-cases (found c p.free_list)) [
    | inl t ↦ rw (rel_db_conn, t) a
    | inr f ↦ rw (rel_db_conn, f) (released-Accounts c p owned (found-count c p.free_list f) a)
  ]

  init-Accounts : (make : ℕ → ℕ × ℕ) → Accounts m (init make (new_cdb_pool m)).0
  unfolding init init_loop new_cdb_pool
  init-Accounts make = elim (Bool-cases ((make 0).1 == 0)) [
    | inl t ↦ rw t (record {
      max_same = refl;
      once = λ d. ground arith;
      total = omega arith;
      bounded = inl (omega arith);
    })
    | inr f ↦ rw f (record {
      max_same = refl;
      once = λ d. omega arith;
      total = omega arith;
      bounded = inl (omega arith);
    })
  ]

  pub PoolTurn-Accounts :
      {p q : CdbPool} {o : Outcome} → PoolTurn p q o → Accounts m p → Accounts m q
  PoolTurn-Accounts (get c ret {p} fresh) a = get_db_conn-Accounts c ret p fresh a
  PoolTurn-Accounts (wake timed {p} h) a = after_wait-Accounts timed p a
  PoolTurn-Accounts (release c {p} owned) a = rel_db_conn-Accounts c p owned a
  PoolTurn-Accounts (delete_pool {p}) a = destroy-Accounts p a

  pub Reach-Keeps : {p : CdbPool} → Reach m p → Accounts m p
  Reach-Keeps (start make) = init-Accounts make
  Reach-Keeps (turn r s) = PoolTurn-Accounts s (Reach-Keeps r)
