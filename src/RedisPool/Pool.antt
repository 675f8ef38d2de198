-- ===== src/RedisPool/Pool.antt =====
-- The pool of connections to Redis, CachePool of CachePool.cpp. A connection is the address of its
-- CacheConn; what `new` gives and what the Init of the connection returns are arguments. What a
-- call comes to is the pool of databases' `Outcome`.
use basic_component_design.Common.{ℕ, zero, suc, ◌+◌, List, [], ◌∷◌, ◌++◌, leb, ◌==◌, if◌then◌else◌}
use basic_component_design.DbPool.{Outcome, got, null, waits, undefined, found}

abbrev pub min_cache_conn_cnt : ℕ
min_cache_conn_cnt = 2

pub record CachePool : Type 0 where
  pub cur_conn_cnt : ℕ
  pub max_conn_cnt : ℕ
  pub free_list : List ℕ

unfoldable pub new_cache_pool : ℕ → CachePool
new_cache_pool max_conn_cnt = record {
  cur_conn_cnt = min_cache_conn_cnt;
  max_conn_cnt = max_conn_cnt;
  free_list = [];
}

-- `n` more turns of the loop of Init.
unfoldable pub make_conns : ℕ → (ℕ → ℕ × ℕ) → CachePool → CachePool × ℕ
make_conns zero make p = (p, 0)
make_conns (suc n) make p =
    let c = make n in
    let rest = make_conns n make (record p { free_list = p.free_list ++ (c.0 ∷ []) }) in
    if c.1 == 0 then rest else (p, 1)

unfoldable pub init_cache_pool : (ℕ → ℕ × ℕ) → CachePool → CachePool × ℕ
unfolding make_conns
init_cache_pool make p = make_conns p.cur_conn_cnt make p

-- The destructor.
unfoldable pub delete_cache_pool : CachePool → CachePool
delete_cache_pool p = record p { cur_conn_cnt = 0; free_list = [] }

-- Turns of the loop of GetCacheConn until it returns or waits; after a wait it goes on from the
-- test again. Without fuel it comes to `undefined`.
unfoldable pub get_loop : ℕ → ℕ → ℕ → CachePool → CachePool × Outcome
get_loop zero c ret p = (p, undefined)
get_loop (suc n) c ret p =
    let again =
      get_loop n c ret
        (record p { free_list = p.free_list ++ (c ∷ []); cur_conn_cnt = p.cur_conn_cnt + 1 }) in
    elim p.free_list [
      | d ∷ ds ↦ (record p { free_list = ds }, got d)
      | [] ↦
          if leb p.max_conn_cnt p.cur_conn_cnt
          then (p, waits)
          else if ret == 0
          then again
          else (p, null)
    ]

unfoldable pub get_cache_conn : ℕ → ℕ → CachePool → CachePool × Outcome
unfolding get_loop
get_cache_conn c ret p = get_loop 2 c ret p

unfoldable pub rel_cache_conn : ℕ → CachePool → CachePool
rel_cache_conn c p =
    if found c p.free_list then p else record p { free_list = p.free_list ++ (c ∷ []) }
