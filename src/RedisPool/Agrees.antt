-- ===== src/RedisPool/Agrees.antt =====
-- The pool of Redis connections against the pool of database connections.
use basic_component_design.Common.{
  ℕ, ◌+◌, ◌≡◌, refl, ap, ◌∙◌, inl, inr, false, List, [], ◌∷◌, ◌++◌, leb, ◌==◌, Bool-cases,
}
use basic_component_design.DbPool.{
  CdbPool, Outcome, waits, after_wait, take_front, new_conn, get_db_conn, found, remove,
  rel_db_conn,
}
use basic_component_design.RedisPool.Pool.{CachePool, get_loop, get_cache_conn, rel_cache_conn}

-- A pool of databases that is not shut down, with these connections free and in use.
abbrev pub cdb_pool : ℕ → ℕ → List ℕ → List ℕ → CdbPool
cdb_pool cur max free used = record {
  db_cur_conn_cnt = cur;
  db_max_conn_cnt = max;
  free_list = free;
  used_list = used;
  abort_request = false;
}

abbrev pub cache_pool : ℕ → ℕ → List ℕ → CachePool
cache_pool cur max free = record { cur_conn_cnt = cur; max_conn_cnt = max; free_list = free }

-- The same connections are free, and the counts are the same.
pub data Agree : CachePool → CdbPool → Type 0 where
  agree :
      (cur max : ℕ) (free used : List ℕ)
      → Agree (cache_pool cur max free) (cdb_pool cur max free used)

abbrev Alike : CachePool × Outcome → CdbPool × Outcome → Type 0
Alike r q = Agree r.0 q.0 × (r.1 ≡ q.1)

get-Alike :
    (c ret cur max : ℕ) (free used : List ℕ)
    → Alike
        (get_cache_conn c ret (cache_pool cur max free))
        (get_db_conn c ret (cdb_pool cur max free used))
unfolding get_cache_conn get_loop get_db_conn take_front new_conn
get-Alike c ret cur max (d ∷ ds) used = (agree cur max ds (used ++ (d ∷ [])), refl)
get-Alike c ret cur max [] used = elim (Bool-cases (leb max cur)) [
  | inl full ↦ rw (full) (agree cur max [] used, refl)
  | inr room ↦ elim (Bool-cases (ret == 0)) [
    | inl made ↦ rw (room, made) (agree (cur + 1) max [] (used ++ (c ∷ [])), refl)
    | inr failed ↦ rw (room, failed) (agree cur max [] used, refl)
  ]
]

rel-Agree :
    (c cur max : ℕ) (free used : List ℕ)
    → Agree
        (rel_cache_conn c (cache_pool cur max free))
        (rel_db_conn c (cdb_pool cur max free used))
unfolding rel_cache_conn rel_db_conn
rel-Agree c cur max free used = elim (Bool-cases (found c free)) [
  | inl t ↦ rw (t) (agree cur max free used)
  | inr f ↦ rw (f) (agree cur max (free ++ (c ∷ [])) (remove c used))
]

-- A call of GetCacheConn or GetDBConn, with what a new connection would be, until it returns or waits
-- without a timeout; a call of RelCacheConn or RelDBConn; or a wake-up of a thread that waits.
pub data Call : Type 0 where
  gets_conn : ℕ → ℕ → Call
  releases_conn : ℕ → Call
  wakes : ℕ → ℕ → Call

-- GetDBConn without a timeout, from its wait on: the wait ends when a connection is free.
unfoldable pub db_wakes : CdbPool → CdbPool × Outcome
unfolding after_wait
db_wakes q = elim q.free_list [ [] ↦ (q, waits) | c ∷ cs ↦ after_wait false q ]

-- GetCacheConn from its wait on, when a connection is free: its loop goes on from the test.
unfoldable pub cache_wakes : ℕ → ℕ → CachePool → CachePool × Outcome
unfolding get_cache_conn
cache_wakes c ret p = elim p.free_list [ [] ↦ (p, waits) | d ∷ ds ↦ get_cache_conn c ret p ]

-- What the calls come to, one after the other.
unfoldable pub cache_run : List Call → CachePool → List Outcome
cache_run [] p = []
cache_run (gets_conn c ret ∷ calls) p = let r = get_cache_conn c ret p in r.1 ∷ cache_run calls r.0
cache_run (releases_conn c ∷ calls) p = cache_run calls (rel_cache_conn c p)
cache_run (wakes c ret ∷ calls) p = let r = cache_wakes c ret p in r.1 ∷ cache_run calls r.0

unfoldable pub db_run : List Call → CdbPool → List Outcome
db_run [] q = []
db_run (gets_conn c ret ∷ calls) q = let r = get_db_conn c ret q in r.1 ∷ db_run calls r.0
db_run (releases_conn c ∷ calls) q = db_run calls (rel_db_conn c q)
db_run (wakes c ret ∷ calls) q = let r = db_wakes q in r.1 ∷ db_run calls r.0

wakes-Alike :
    (c ret cur max : ℕ) (free used : List ℕ)
    → Alike (cache_wakes c ret (cache_pool cur max free)) (db_wakes (cdb_pool cur max free used))
unfolding cache_wakes db_wakes get_cache_conn get_loop after_wait take_front
wakes-Alike c ret cur max [] used = (agree cur max [] used, refl)
wakes-Alike c ret cur max (d ∷ ds) used = (agree cur max ds (used ++ (d ∷ [])), refl)

-- From pools with the same counts and free connections, of which the one of databases is not shut
-- down, and without timeouts, which the pool of Redis does not have: calls that get connections, and
-- wait where none is to be had, wake-ups of threads that wait, and calls that give connections back,
-- in any order, come to the same in the pool of Redis, on fuel for two turns of its loop, and in the
-- pool of databases.
pub cache_run-db_run :
    (calls : List Call) (p : CachePool) (q : CdbPool)
    → Agree p q
    → cache_run calls p ≡ db_run calls q
unfolding cache_run db_run
cache_run-db_run [] p q a = refl
cache_run-db_run (gets_conn c ret ∷ calls) p q (agree cur max free used) =
    let (a, e) = get-Alike c ret cur max free used in
    ap (λ (o : Outcome). o ∷ cache_run calls (get_cache_conn c ret p).0) e
    ∙ ap (λ os. (get_db_conn c ret q).1 ∷ os) (cache_run-db_run calls _ _ a)
cache_run-db_run (releases_conn c ∷ calls) p q (agree cur max free used) =
    cache_run-db_run calls _ _ (rel-Agree c cur max free used)
cache_run-db_run (wakes c ret ∷ calls) p q (agree cur max free used) =
    let (a, e) = wakes-Alike c ret cur max free used in
    ap (λ (o : Outcome). o ∷ cache_run calls (cache_wakes c ret p).0) e
    ∙ ap (λ os. (db_wakes q).1 ∷ os) (cache_run-db_run calls _ _ a)
