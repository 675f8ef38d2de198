-- ===== src/RedisPool/Tests.antt =====
-- Runs of a connection and of the pool.
use basic_component_design.Common.{
  ℕ, suc, ◌+◌, ◌≡◌, ◌<◌, ◌≤◌, ◌==◌, if◌then◌else◌, refl, true, false, List, [], ◌∷◌, none, some,
  length, codes, pos, TextMap, arith,
}
use basic_component_design.DbPool.{got, waits, found}
use basic_component_design.RedisPool.{
  string, array, status, error, Reply, formatted, text, Server, State, two_64, cache_conn,
  drop_context, free_reply, de_init, begins_ok, redis_command, selected, select_db, authenticated,
  authenticate, connect_at, init,
}
use basic_component_design.RedisPool.Commands.{
  with_conn, read_reply, request_reply, ask, take_values, join_keys, flatten, get, hget_all, hmset,
  flushdb,
}
use basic_component_design.RedisPool.Ops.{Op, gets, closes, perform, perform_all}
use basic_component_design.RedisPool.Traced.{Trace, times, Falls}
use basic_component_design.RedisPool.Sound.{perform_all-Trace, perform_all-Falls}
use basic_component_design.RedisPool.Maps.{ArePlain, hget_all-hmset, sent_back, last_request}
use basic_component_design.RedisPool.Pool.{
  get_loop, get_cache_conn, rel_cache_conn, new_cache_pool, init_cache_pool, make_conns,
  delete_cache_pool,
}
use basic_component_design.RedisPool.Agrees.{
  Call, gets_conn, releases_conn, wakes, cache_wakes, agree, cache_pool, cdb_pool, cache_run,
  db_run, cache_run-db_run,
}

abbrev ok_reply : Reply
ok_reply = record { kind = status; integer = pos 0; str = codes "OK"; element = [] }

-- The clock says 7 at first and 8 from then on; each command is answered "OK".
abbrev friendly : Server
friendly = record {
  now = λ n. if n == 0 then 7 else 8;
  connect = λ n. some (5, false);
  command = λ n r. some ok_reply;
}

friendly_clock : (n : ℕ) → suc (friendly.now n) < two_64
friendly_clock n = ground arith

abbrev get_twice : List Op
get_twice = gets (codes "a") ∷ closes ∷ gets (codes "a") ∷ []

abbrev after_gets : State
after_gets = perform_all friendly [] get_twice cache_conn

perform_all-Trace_example :
    (n : ℕ) × Trace after_gets.log after_gets.context n × (n ≤ length (times after_gets.log))
perform_all-Trace_example = perform_all-Trace friendly friendly_clock [] get_twice

perform_all-Falls_example : Falls two_64 (times after_gets.log)
perform_all-Falls_example = perform_all-Falls friendly friendly_clock [] get_twice

two_attempts : times after_gets.log ≡ 8 ∷ 7 ∷ []
unfolding perform_all perform get de_init ask with_conn init connect_at authenticate select_db
    selected redis_command request_reply read_reply drop_context free_reply begins_ok cache_conn
two_attempts = refl

abbrev user : TextMap
user = (codes "name", codes "ann") ∷ (codes "age", codes "30") ∷ []

abbrev user_reply : Reply
user_reply = record { kind = array; integer = pos 0; str = []; element = sent_back (flatten user) }

abbrev storing : Server
storing = record { now = λ n. 9; connect = λ n. none; command = λ n r. some user_reply }

abbrev connected : State
connected = record { context = some 5; last_connect_time = 7; calls = 3; log = [] }

user-ArePlain : ArePlain user
user-ArePlain = (
  (omega arith, (omega arith, (omega arith, (omega arith, tt)))),
  (omega arith, (omega arith, (omega arith, tt))),
  ((omega arith, (omega arith, (omega arith, tt))), (omega arith, (omega arith, tt)), tt),
)

-- hmset cuts a value at a NUL.
cut_value : flatten ((codes "k", 120 ∷ 0 ∷ 121 ∷ []) ∷ []) ≡ codes "k" ∷ (120 ∷ []) ∷ []
unfolding flatten
cut_value = refl

hget_all-hmset_example : (hget_all storing [] (codes "u") [] connected).1 ≡ (true, user)
unfolding flatten hmset ask with_conn init request_reply read_reply redis_command free_reply
hget_all-hmset_example =
    hget_all-hmset storing [] (codes "u") user connected connected 5 5 user_reply
      ((refl, tt), (tt, tt)) user-ArePlain refl refl refl refl refl

abbrev some_calls : List Call
some_calls =
    gets_conn 50 0
    ∷ gets_conn 60 0
    ∷ gets_conn 70 0
    ∷ releases_conn 60
    ∷ wakes 70 0
    ∷ gets_conn 80 0
    ∷ []

cache_run-db_run_example :
    cache_run some_calls (cache_pool 0 2 []) ≡ db_run some_calls (cdb_pool 0 2 [] [])
cache_run-db_run_example =
    cache_run-db_run some_calls (cache_pool 0 2 []) (cdb_pool 0 2 [] []) (agree 0 2 [] [])

calls_come_to :
    cache_run some_calls (cache_pool 0 2 []) ≡ got 50 ∷ got 60 ∷ waits ∷ got 60 ∷ waits ∷ []
unfolding cache_run cache_wakes get_cache_conn get_loop rel_cache_conn found
calls_come_to = refl

-- The password is refused; the next command is sent all the same.
abbrev refusing : Server
refusing = record {
  now = λ n. 7;
  connect = λ n. some (5, false);
  command = λ n r. some (record ok_reply { kind = error; str = codes "ERR" });
}

sent_unauthenticated :
    last_request
      (perform_all refusing (codes "x") (gets (codes "a") ∷ gets (codes "b") ∷ []) cache_conn).log
    ≡ some (formatted (codes "GET %s") (text (codes "b") ∷ []))
unfolding perform_all perform get ask with_conn init connect_at authenticate authenticated select_db
    selected redis_command request_reply read_reply drop_context free_reply begins_ok cache_conn
sent_unauthenticated = refl

-- FLUSHDB is answered with a status, which the code does not look for.
flush_fails : (flushdb friendly [] connected).1 ≡ false
unfolding flushdb ask with_conn init request_reply read_reply redis_command free_reply begins_ok
flush_fails = refl

-- A value is cut at a NUL; an element behind the last key that is no string is passed over.
mget_values :
    take_values
      (codes "a" ∷ [])
      ((record { kind = string; str = 120 ∷ 0 ∷ 121 ∷ [] })
        ∷ (record { kind = array; str = [] })
        ∷ [])
      []
    ≡ some ((codes "a", 120 ∷ []) ∷ [])
unfolding take_values
mget_values = refl

mget_past_end : take_values (codes "a" ∷ []) (sent_back (codes "x" ∷ codes "y" ∷ [])) [] ≡ none
unfolding take_values
mget_past_end = refl

joined : join_keys (codes "a" ∷ codes "b c" ∷ []) ≡ codes "a b c"
unfolding join_keys
joined = refl

-- A connection that is given back twice, the second time after it went to another thread, is handed
-- to a third.
shared_twice :
    cache_run
      (gets_conn 50 0 ∷ releases_conn 50 ∷ gets_conn 60 0 ∷ releases_conn 50 ∷ gets_conn 70 0 ∷ [])
      (cache_pool 0 2 [])
    ≡ got 50 ∷ got 50 ∷ got 50 ∷ []
unfolding cache_run get_cache_conn get_loop rel_cache_conn found
shared_twice = refl

set_up :
    (delete_cache_pool (init_cache_pool (λ n. (50 + n, 0)) (new_cache_pool 9)).0).free_list ≡ []
unfolding delete_cache_pool init_cache_pool make_conns new_cache_pool
set_up = refl
