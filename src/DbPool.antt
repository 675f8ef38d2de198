-- ===== src/DbPool.antt =====
-- The pool of database connections, CDBPool of DBPool.cpp under
-- 3.1池式组件/3.1.4mysql连接池的实现/src/mysql_pool. A connection is the address of its CDBConn; what `new`
-- gives and what the Init of a connection, which enters the MySQL client, returns are arguments.
-- The mutex is held but while a thread waits, so that GetDBConn has two parts: up to the wait, and
-- from it on.
pub mod Accounts
pub mod Grants
pub mod Loans
mod Tests
use basic_component_design.Common.{
  ℕ, zero, suc, ◌+◌, ◌≡◌, ◌≢◌, ◌⊎◌, Bool, true, false, List, [], ◌∷◌, ◌++◌, ◌≤◌, ◌<◌, leb, ◌==◌,
  if◌then◌else◌, count,
}

abbrev pub min_db_conn_cnt : ℕ
min_db_conn_cnt = 1

-- The members of `CDBPool` that its operations read and write.
pub record CdbPool : Type 0 where
  pub db_cur_conn_cnt : ℕ
  pub db_max_conn_cnt : ℕ
  pub free_list : List ℕ
  pub used_list : List ℕ
  pub abort_request : Bool

unfoldable pub new_cdb_pool : ℕ → CdbPool
new_cdb_pool max_conn_cnt = record {
  db_cur_conn_cnt = min_db_conn_cnt;
  db_max_conn_cnt = max_conn_cnt;
  free_list = [];
  used_list = [];
  abort_request = false;
}

-- `n` more turns of the loop of Init; each has the address and the result of its connection.
unfoldable pub init_loop : ℕ → (ℕ → ℕ × ℕ) → CdbPool → CdbPool × ℕ
init_loop zero make p = (p, 0)
init_loop (suc n) make p =
    let c = make n in
    let rest = init_loop n make (record p { free_list = p.free_list ++ (c.0 ∷ []) }) in
    if c.1 == 0 then rest else (p, c.1)

unfoldable pub init : (ℕ → ℕ × ℕ) → CdbPool → CdbPool × ℕ
unfolding init_loop
init make p = init_loop p.db_cur_conn_cnt make p

-- The free connections are deleted.
unfoldable pub destroy : CdbPool → CdbPool
destroy p = record p { abort_request = true; free_list = [] }

-- What GetDBConn comes to: it returns the connection or NULL, or waits; `undefined` where it takes
-- the front of an empty list.
pub data Outcome : Type 0 where
  got : ℕ → Outcome
  null : Outcome
  waits : Outcome
  undefined : Outcome

unfoldable pub take_front : CdbPool → CdbPool × Outcome
take_front p = elim p.free_list [
  | [] ↦ (p, undefined)
  | c ∷ cs ↦ (record p { free_list = cs; used_list = p.used_list ++ (c ∷ []) }, got c)
]

-- With the list empty and room for one more: a new connection, at `c`, whose Init returns `ret`.
unfoldable pub new_conn : ℕ → ℕ → CdbPool → CdbPool × Outcome
unfolding take_front
new_conn c ret p =
    if ret == 0
    then take_front
        (record p { free_list = p.free_list ++ (c ∷ []); db_cur_conn_cnt = p.db_cur_conn_cnt + 1 })
    else (p, null)

-- GetDBConn until it returns or waits.
unfoldable pub get_db_conn : ℕ → ℕ → CdbPool → CdbPool × Outcome
unfolding take_front new_conn
get_db_conn c ret p = if p.abort_request then (p, null) else elim p.free_list [
  | [] ↦ if leb p.db_max_conn_cnt p.db_cur_conn_cnt then (p, waits) else new_conn c ret p
  | d ∷ ds ↦ take_front p
]

-- GetDBConn from the end of its wait on; is `timeout_ms` above 0?
unfoldable pub after_wait : Bool → CdbPool → CdbPool × Outcome
unfolding take_front
after_wait timed p =
    let rest = if p.abort_request then (p, null) else take_front p in
    if timed then elim p.free_list [ [] ↦ (p, null) | c ∷ cs ↦ rest ] else rest

-- `m_used_list.remove`
unfoldable pub remove : ℕ → List ℕ → List ℕ
remove c [] = []
remove c (d ∷ ds) = if d == c then remove c ds else d ∷ remove c ds

-- Is the connection in the list?
unfoldable pub found : ℕ → List ℕ → Bool
found c [] = false
found c (d ∷ ds) = if d == c then true else found c ds

unfoldable pub rel_db_conn : ℕ → CdbPool → CdbPool
unfolding remove found
rel_db_conn c p =
    if found c p.free_list
    then p
    else record p { used_list = remove c p.used_list; free_list = p.free_list ++ (c ∷ []) }

-- One turn of a thread that holds the mutex, with what GetDBConn comes to. The wait without a time
-- ends only when its condition holds, the other at any time; `new` gives an address that no
-- connection of the pool has; only a connection of the pool is given back, as often as one likes.
pub data PoolTurn : CdbPool → CdbPool → Outcome → Type 0 where
  get :
      (c ret : ℕ) {p : CdbPool}
      → count c p.free_list + count c p.used_list ≡ 0
      → PoolTurn p (get_db_conn c ret p).0 (get_db_conn c ret p).1
  wake :
      (timed : Bool) {p : CdbPool}
      → (timed ≡ true) ⊎ (p.abort_request ≡ true) ⊎ (p.free_list ≢ [])
      → PoolTurn p (after_wait timed p).0 (after_wait timed p).1
  release :
      (c : ℕ) {p : CdbPool}
      → 0 < count c p.free_list + count c p.used_list
      → PoolTurn p (rel_db_conn c p) null
  delete_pool : {p : CdbPool} → PoolTurn p (destroy p) null

-- The pools that threads come to, in any order of their turns.
pub data Reach (max_conn_cnt : ℕ) : CdbPool → Type 0 where
  start : (make : ℕ → ℕ × ℕ) → Reach max_conn_cnt (init make (new_cdb_pool max_conn_cnt)).0
  turn :
      {p q : CdbPool} {o : Outcome} → Reach max_conn_cnt p → PoolTurn p q o → Reach max_conn_cnt q
