-- ===== src/RedisPool/Ops.antt =====
-- Any operations of a connection, one after the other.
use basic_component_design.Common.{List, [], ◌∷◌, Text, ℤ, TextMap}
use basic_component_design.RedisPool.{Server, State, de_init, init}
use basic_component_design.RedisPool.Commands.{
  get, set, setex, mget, is_exists, del, hdel, hget, hget_all, hset, hincr_by, incr_by, hmset,
  hmget, incr, decr, lpush, rpush, llen, lrange, flushdb,
}

pub data Op : Type 0 where
  closes : Op
  gets : Text → Op
  sets : Text → Text → Op
  setexes : Text → ℤ → Text → Op
  mgets : List Text → Op
  asks_exists : Text → Op
  dels : Text → Op
  hdels : Text → Text → Op
  hgets : Text → Text → Op
  hgets_all : Text → Op
  hsets : Text → Text → Text → Op
  hincrs_by : Text → Text → ℤ → Op
  incrs_by : Text → ℤ → Op
  hmsets : Text → TextMap → Op
  hmgets : Text → List Text → Op
  incrs : Text → Op
  decrs : Text → Op
  lpushes : Text → Text → Op
  rpushes : Text → Text → Op
  llens : Text → Op
  lranges : Text → ℤ → ℤ → Op
  flushes : Op
  inits : Op

module _ (server : Server) (password : Text) where
  unfoldable pub perform : Op → State → State
  unfolding de_init get set setex mget is_exists del hdel hget hget_all hset hincr_by incr_by hmset
      hmget incr decr lpush rpush llen lrange flushdb
  perform closes s = de_init s
  perform inits s = (init server password s).0
  perform (gets k) s = (get server password k s).0
  perform (sets k v) s = (set server password k v s).0
  perform (setexes k t v) s = (setex server password k t v s).0
  perform (mgets ks) s = (mget server password ks [] s).0
  perform (asks_exists k) s = (is_exists server password k s).0
  perform (dels k) s = (del server password k s).0
  perform (hdels k f) s = (hdel server password k f s).0
  perform (hgets k f) s = (hget server password k f s).0
  perform (hgets_all k) s = (hget_all server password k [] s).0
  perform (hsets k f v) s = (hset server password k f v s).0
  perform (hincrs_by k f v) s = (hincr_by server password k f v s).0
  perform (incrs_by k v) s = (incr_by server password k v s).0
  perform (hmsets k h) s = (hmset server password k h s).0
  perform (hmgets k fs) s = (hmget server password k fs [] s).0
  perform (incrs k) s = (incr server password k s).0
  perform (decrs k) s = (decr server password k s).0
  perform (lpushes k v) s = (lpush server password k v s).0
  perform (rpushes k v) s = (rpush server password k v s).0
  perform (llens k) s = (llen server password k s).0
  perform (lranges k a b) s = (lrange server password k a b [] s).0
  perform flushes s = (flushdb server password s).0

  unfoldable pub perform_all : List Op → State → State
  unfolding perform
  perform_all [] s = s
  perform_all (op ∷ ops) s = perform_all ops (perform op s)
