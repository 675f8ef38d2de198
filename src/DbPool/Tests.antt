-- ===== src/DbPool/Tests.antt =====
-- Runs of the pool.
use basic_component_design.Common.{ℕ, ◌+◌, ◌≡◌, refl, true, false, [], ◌∷◌, ◌≤◌, count, arith}
use basic_component_design.DbPool.{
  CdbPool, new_cdb_pool, init, init_loop, destroy, got, null, waits, take_front, new_conn,
  get_db_conn, after_wait, remove, found, rel_db_conn, get,
}
use basic_component_design.DbPool.Loans.{Loans, begins, lends, Loans-exclusive}

abbrev connects : ℕ → ℕ × ℕ
connects n = (50, 0)

abbrev fresh_pool : CdbPool
fresh_pool = record {
  db_cur_conn_cnt = 1;
  db_max_conn_cnt = 2;
  free_list = 50 ∷ [];
  used_list = [];
  abort_request = false;
}

-- One connection is in use; then a second is made.
abbrev one_used : CdbPool
one_used = record fresh_pool { free_list = []; used_list = 50 ∷ [] }

abbrev two_used : CdbPool
two_used = record one_used { db_cur_conn_cnt = 2; used_list = 50 ∷ 60 ∷ [] }

one_lent : Loans 2 one_used (50 ∷ [])
unfolding init init_loop new_cdb_pool get_db_conn take_front
one_lent = lends (begins connects) (get 0 0 refl)

Loans-exclusive_example :
    ((c : ℕ) → count c (50 ∷ []) + count c [] ≤ 1) × (count 60 (50 ∷ []) ≡ 0) × (2 ≤ 2)
unfolding get_db_conn new_conn take_front
Loans-exclusive_example =
    Loans-exclusive {p = one_used} {q = two_used} {o = got 60} (omega arith) one_lent
      (get 60 0 refl)

-- A third thread waits; when one is given back, even twice, it takes that one.
third_waits : (get_db_conn 70 0 two_used).1 ≡ waits
unfolding get_db_conn
third_waits = refl

given_back_twice :
    after_wait false (rel_db_conn 50 (rel_db_conn 50 two_used))
    ≡ (record two_used { free_list = []; used_list = 60 ∷ 50 ∷ [] }, got 50)
unfolding rel_db_conn found remove after_wait take_front
given_back_twice = refl

timed_out : (after_wait true two_used).1 ≡ null
unfolding after_wait
timed_out = refl

deleted : (after_wait false (destroy two_used)).1 ≡ null
unfolding after_wait destroy
deleted = refl

-- The count is 1 before Init has connected: when it has failed, and the maximum is 1, every call of
-- GetDBConn waits, with no connection to wait for.
waits_for_nothing : (get_db_conn 70 0 (init (λ n. (50, 3)) (new_cdb_pool 1)).0).1 ≡ waits
unfolding init init_loop new_cdb_pool get_db_conn
waits_for_nothing = refl

-- A connection that the pool does not know is taken in.
foreign_taken_in : (rel_db_conn 99 two_used).free_list ≡ 99 ∷ []
unfolding rel_db_conn found remove
foreign_taken_in = refl
