-- ===== src/RedisPool.antt =====
-- A connection to Redis, CacheConn of CachePool.cpp under
-- 3.1池式组件/3.1.4mysql连接池的实现/src/redis_pool: how it connects, and what it does with a reply.
-- The server, hiredis and the clock are a parameter, which answers by the number of the call.
pub mod Commands
pub mod Ops
pub mod Traced
pub mod Connects
pub mod Sound
pub mod Maps
pub mod Pool
pub mod Agrees
mod Tests
use basic_component_design.Common.{
  ℕ, suc, ◌+◌, ◌%◌, Bool, true, false, ◌&&◌, List, [], ◌∷◌, Option, none, some, ltb, ◌==◌,
  if◌then◌else◌, Text, codes, ℤ, pos, negsuc, is_zero,
}

-- The types of a reply that the code asks for; `other` is any other one.
pub data Kind : Type 0 where
  string : Kind
  array : Kind
  status : Kind
  error : Kind
  other : Kind

abbrev pub is_string : Kind → Bool
is_string string = true
is_string _ = false

abbrev pub is_array : Kind → Bool
is_array array = true
is_array _ = false

abbrev pub is_status : Kind → Bool
is_status status = true
is_status _ = false

abbrev pub is_error : Kind → Bool
is_error error = true
is_error _ = false

-- What the code reads of an element of a reply, and of a reply; a null `str` is the empty text.
pub record Child : Type 0 where
  pub kind : Kind
  pub str : Text

pub record Reply : Type 0 where
  pub kind : Kind
  pub integer : ℤ
  pub str : Text
  pub element : List Child

pub data Arg : Type 0 where
  text : Text → Arg
  number : ℤ → Arg

-- What a function reads that is given `c_str()` and no length, or `str` as a C string: the bytes up to
-- the first NUL.
abbrev pub c_str : Text → Text
c_str [] = []
c_str (b ∷ bs) = if b == 0 then [] else b ∷ c_str bs

-- redisCommand, with its format and arguments, and redisCommandArgv.
pub data Request : Type 0 where
  formatted : Text → List Arg → Request
  arguments : List Text → Request

-- What the calls did, a context being its address and the null pointer `none`.
pub data Event : Type 0 where
  connects : ℕ → Event  -- at this time
  opens : ℕ → Event
  frees_context : Option ℕ → Event
  sends : Option ℕ → Request → Event
  replies : Event
  frees_reply : Event

-- The time; the context that redisConnectWithTimeout returns, and whether its `err` is set; the
-- reply to a command.
pub record Server : Type 0 where
  pub now : ℕ → ℕ
  pub connect : ℕ → Option (ℕ × Bool)
  pub command : ℕ → Request → Option Reply

-- A connection, with the number of the calls so far and what they did, the last first.
pub record State : Type 0 where
  pub context : Option ℕ
  pub last_connect_time : ℕ
  pub calls : ℕ
  pub log : List Event

abbrev pub two_64 : ℕ
two_64 = 18446744073709551616

unfoldable pub cache_conn : State
cache_conn = record { context = none; last_connect_time = 0; calls = 0; log = [] }

-- `redisFree(m_pContext); m_pContext = NULL;`
unfoldable pub drop_context : State → State
drop_context s = record s { context = none; log = frees_context s.context ∷ s.log }

-- The destructor and DeInit.
unfoldable pub de_init : State → State
unfolding drop_context
de_init s = elim s.context [ none ↦ s | some c ↦ drop_context s ]

unfoldable pub free_reply : State → State
free_reply s = record s { log = frees_reply ∷ s.log }

-- `strncmp(str, "OK", 2) == 0`
unfoldable pub begins_ok : Text → Bool
begins_ok [] = false
begins_ok (a ∷ []) = false
begins_ok (a ∷ b ∷ _) = (a == b'O') && (b == b'K')

-- What Init does with the reply to SELECT: one that is not right is not freed.
unfoldable pub selected : State × Option Reply → State × ℤ
unfolding begins_ok free_reply
selected (s, none) = (s, pos 2)
selected (s, some reply) =
    if is_status reply.kind && begins_ok reply.str then (free_reply s, pos 0) else (s, pos 2)

module _ (server : Server) where
  unfoldable pub redis_command : Request → State → State × Option Reply
  redis_command request s =
      let log = sends s.context request ∷ s.log in
      elim (server.command s.calls request) [
        | none ↦ (record s { calls = suc s.calls; log = log }, none)
        | some r ↦ (record s { calls = suc s.calls; log = replies ∷ log }, some r)
      ]

  unfoldable pub select_db : State → State × ℤ
  unfolding redis_command selected
  select_db s = selected (redis_command (formatted (codes "SELECT %d") (number (pos 0) ∷ [])) s)

  -- With the reply to AUTH.
  unfoldable pub authenticated : State × Option Reply → State × ℤ
  unfolding select_db free_reply
  authenticated (s, none) = (s, negsuc 0)
  authenticated (s, some reply) =
      if is_error reply.kind then (free_reply s, negsuc 0) else select_db (free_reply s)

  unfoldable pub authenticate : Text → State → State × ℤ
  unfolding redis_command select_db authenticated
  authenticate [] s = select_db s
  authenticate (b ∷ bs) s =
      authenticated (redis_command (formatted (codes "AUTH %s") (text (c_str (b ∷ bs)) ∷ [])) s)

  -- redisConnectWithTimeout and what follows.
  unfoldable pub connect_at : Text → ℕ → State → State × ℤ
  unfolding drop_context authenticate
  connect_at password time s =
      let tried = record s {
        last_connect_time = time;
        calls = suc s.calls;
        log = connects time ∷ s.log;
      } in
      elim (server.connect s.calls) [
        | none ↦ (tried, pos 1)
        | some (c, err) ↦
            let opened = record tried { context = some c; log = opens c ∷ tried.log } in
            if err then (drop_context opened, pos 1) else authenticate password opened
      ]

  unfoldable pub init : Text → State → State × ℤ
  unfolding connect_at
  init password s =
      let time = server.now s.calls in
      let asked = record s { calls = suc s.calls } in
      elim s.context [
        | some c ↦ (s, pos 0)
        | none ↦
            if ltb time ((s.last_connect_time + 1) % two_64)
            then (asked, pos 1)
            else connect_at password time asked
      ]
