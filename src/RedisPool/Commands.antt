-- ===== src/RedisPool/Commands.antt =====
-- The commands of CacheConn. All but mget have the shape of `ask`: they connect, send a request,
-- drop the context where there is no reply, and else read the reply and free it.
use basic_component_design.Common.{
  Bool, true, false, not, ◌&&◌, List, [], ◌∷◌, ◌++◌, Option, none, some, ◌==◌, ◌%◌, map, length,
  if◌then◌else◌, Text, codes, ℤ, pos, negsuc, is_zero, TextMap, assign, insert,
}
use basic_component_design.RedisPool.{
  is_string, is_array, Child, Reply, text, number, Request, c_str, formatted, arguments, Server,
  State, drop_context, free_reply, begins_ok, redis_command, init,
}

-- The loop of mget over the elements, with the keys. `none`: for a string behind the last key
-- the code reads past the end of the vector.
unfoldable pub take_values : List Text → List Child → TextMap → Option TextMap
take_values [] [] m = some m
take_values [] (c ∷ cs) m =
    let rest = take_values [] cs m in if is_string c.kind then none else rest
take_values (k ∷ ks) [] m = some m
take_values (k ∷ ks) (c ∷ cs) m =
    take_values ks cs (if is_string c.kind then assign k (c_str c.str) m else m)

-- The loop of hgetAll over pairs of elements.
unfoldable pub take_pairs : List Child → TextMap → TextMap
take_pairs [] m = m
take_pairs (f ∷ []) m = m
take_pairs (f ∷ v ∷ cs) m = take_pairs cs (insert f.str v.str m)

-- The loop of mget that joins the keys.
unfoldable pub join_keys : List Text → Text
join_keys [] = []
join_keys (k ∷ []) = k
join_keys (k ∷ l ∷ ks) = k ++ codes " " ++ join_keys (l ∷ ks)

-- The names and values of a map, in its order, each up to its first NUL.
unfoldable pub flatten : TextMap → List Text
flatten [] = []
flatten (e ∷ m) = c_str e.0 ∷ c_str e.1 ∷ flatten m

unfoldable pub is_empty : Text → Bool
is_empty [] = true
is_empty (b ∷ bs) = false

-- Behind a request: drops the context where there is no reply, else reads the reply and frees it.
unfoldable pub read_reply {ℓ} : {A : Type ℓ} → A → (Reply → A) → State × Option Reply → State × A
unfolding drop_context free_reply
read_reply fail read (s, none) = (drop_context s, fail)
read_reply fail read (s, some reply) = (free_reply s, read reply)

module _ (server : Server) (password : Text) where
  -- `if (Init()) return fail;` before the rest.
  unfoldable pub with_conn {ℓ} : {A : Type ℓ} → A → (State → State × A) → State → State × A
  with_conn fail body s =
      let r = init server password s in if is_zero r.1 then body r.0 else (r.0, fail)

  unfoldable pub request_reply {ℓ} : {A : Type ℓ} → Request → A → (Reply → A) → State → State × A
  unfolding read_reply
  request_reply request fail read s = read_reply fail read (redis_command server request s)

  unfoldable pub ask {ℓ} : {A : Type ℓ} → Request → A → (Reply → A) → State → State × A
  unfolding with_conn request_reply
  ask request fail read = with_conn fail (request_reply request fail read)

  -- A command of texts, with the format that has a `%s` for each.
  abbrev ask_texts {ℓ} : {A : Type ℓ} → Text → List Text → A → (Reply → A) → State → State × A
  ask_texts format texts = ask (formatted format (map (λ t. text (c_str t)) texts))

  abbrev string_of : Reply → Text
  string_of r = if is_string r.kind then r.str else []

  -- The texts of the elements, behind those that are there.
  abbrev pushed : List Text → Reply → List Text
  pushed values r = if is_array r.kind then values ++ map (λ c. c.str) r.element else values

  unfoldable pub get : Text → State → State × Text
  unfolding ask
  get key = ask_texts (codes "GET %s") (key ∷ []) [] string_of

  unfoldable pub set : Text → Text → State → State × Text
  unfolding ask
  set key value = ask_texts (codes "SET %s %s") (key ∷ value ∷ []) [] (λ r. r.str)

  unfoldable pub setex : Text → ℤ → Text → State → State × Text
  unfolding ask
  setex key timeout value =
      ask
        (formatted (codes "SETEX %s %d %s")
          (text (c_str key) ∷ number timeout ∷ text (c_str value) ∷ []))
        [] (λ r. r.str)

  -- mget behind its Init.
  unfoldable pub mget_all : List Text → TextMap → State → State × (Bool × Option TextMap)
  unfolding request_reply take_values join_keys is_empty
  mget_all [] m s = (s, (false, some m))
  mget_all (k ∷ ks) m s =
      if is_empty (join_keys (k ∷ ks))
      then (s, (false, some m))
      else request_reply (formatted (c_str (codes "MGET " ++ join_keys (k ∷ ks))) [])
          (false, some m)
          (λ r. (true, if is_array r.kind then take_values (k ∷ ks) r.element m else some m)) s

  unfoldable pub mget : List Text → TextMap → State → State × (Bool × Option TextMap)
  unfolding with_conn mget_all
  mget keys m = with_conn (false, some m) (mget_all keys m)

  unfoldable pub is_exists : Text → State → State × Bool
  unfolding ask
  is_exists key = ask_texts (codes "EXISTS %s") (key ∷ []) false (λ r. not (is_zero r.integer))

  unfoldable pub del : Text → State → State × ℤ
  unfolding ask
  del key = ask_texts (codes "DEL %s") (key ∷ []) (pos 0) (λ r. r.integer)

  unfoldable pub hdel : Text → Text → State → State × ℤ
  unfolding ask
  hdel key field = ask_texts (codes "HDEL %s %s") (key ∷ field ∷ []) (pos 0) (λ r. r.integer)

  unfoldable pub hget : Text → Text → State → State × Text
  unfolding ask
  hget key field = ask_texts (codes "HGET %s %s") (key ∷ field ∷ []) [] string_of

  unfoldable pub hget_all : Text → TextMap → State → State × (Bool × TextMap)
  unfolding ask take_pairs
  hget_all key m =
      ask_texts (codes "HGETALL %s") (key ∷ []) (false, m)
        (λ r. (
          true,
          if is_array r.kind && (length r.element % 2 == 0) then take_pairs r.element m else m,
        ))

  unfoldable pub hset : Text → Text → Text → State → State × ℤ
  unfolding ask
  hset key field value =
      ask_texts (codes "HSET %s %s %s") (key ∷ field ∷ value ∷ []) (negsuc 0) (λ r. r.integer)

  unfoldable pub hincr_by : Text → Text → ℤ → State → State × ℤ
  unfolding ask
  hincr_by key field value =
      ask
        (formatted (codes "HINCRBY %s %s %ld")
          (text (c_str key) ∷ text (c_str field) ∷ number value ∷ []))
        (negsuc 0) (λ r. r.integer)

  unfoldable pub incr_by : Text → ℤ → State → State × ℤ
  unfolding ask
  incr_by key value =
      ask (formatted (codes "INCRBY %s %ld") (text (c_str key) ∷ number value ∷ [])) (negsuc 0)
        (λ r. r.integer)

  unfoldable pub hmset : Text → TextMap → State → State × Text
  unfolding ask flatten
  hmset key hash = ask (arguments (codes "HMSET" ∷ c_str key ∷ flatten hash)) [] (λ r. r.str)

  unfoldable pub hmget : Text → List Text → List Text → State → State × (Bool × List Text)
  unfolding ask
  hmget key fields values =
      ask (arguments (codes "HMGET" ∷ c_str key ∷ map c_str fields)) (false, values)
        (λ r. (true, pushed values r))

  unfoldable pub incr : Text → State → State × ℤ
  unfolding ask
  incr key = ask_texts (codes "INCR %s") (key ∷ []) (negsuc 0) (λ r. r.integer)

  unfoldable pub decr : Text → State → State × ℤ
  unfolding ask
  decr key = ask_texts (codes "DECR %s") (key ∷ []) (negsuc 0) (λ r. r.integer)

  unfoldable pub lpush : Text → Text → State → State × ℤ
  unfolding ask
  lpush key value = ask_texts (codes "LPUSH %s %s") (key ∷ value ∷ []) (negsuc 0) (λ r. r.integer)

  unfoldable pub rpush : Text → Text → State → State × ℤ
  unfolding ask
  rpush key value = ask_texts (codes "RPUSH %s %s") (key ∷ value ∷ []) (negsuc 0) (λ r. r.integer)

  unfoldable pub llen : Text → State → State × ℤ
  unfolding ask
  llen key = ask_texts (codes "LLEN %s") (key ∷ []) (negsuc 0) (λ r. r.integer)

  unfoldable pub lrange : Text → ℤ → ℤ → List Text → State → State × (Bool × List Text)
  unfolding ask
  lrange key start end values =
      ask (formatted (codes "LRANGE %s %d %d") (text (c_str key) ∷ number start ∷ number end ∷ []))
        (false, values) (λ r. (true, pushed values r))

  unfoldable pub flushdb : State → State × Bool
  unfolding ask begins_ok
  flushdb = ask_texts (codes "FLUSHDB") [] false (λ r. is_string r.kind && begins_ok r.str)
