-- ===== src/RedisPool/Sound.antt =====
-- What each command keeps, and what holds after any number of them.
use basic_component_design.Common.{
  some, ℕ, suc, ◌≤◌, ◌<◌, sym, inl, inr, false, List, [], ◌∷◌, Text, is_zero, TextMap, arith,
  Bool-cases, Option-cases, length,
}
use mathlib.Core.Path.{subst}
use basic_component_design.RedisPool.{
  Reply, Request, Server, State, two_64, cache_conn, drop_context, de_init, free_reply, init,
}
use basic_component_design.RedisPool.Traced.{
  IsOpen, Trace, begins, closed, sent, replied, freed, times, Falls, Falls-mono, Sound,
  redis_command-cases,
}
use basic_component_design.RedisPool.Connects.{init-Ready}
use basic_component_design.RedisPool.Commands.{
  with_conn, read_reply, request_reply, ask, mget_all, join_keys, is_empty, get, set, setex, mget,
  is_exists, del, hdel, hget, hget_all, hset, hincr_by, incr_by, hmset, hmget, incr, decr, lpush,
  rpush, llen, lrange, flushdb,
}
use basic_component_design.RedisPool.Ops.{
  Op, closes, gets, sets, setexes, mgets, asks_exists, dels, hdels, hgets, hgets_all, hsets,
  hincrs_by, incrs_by, hmsets, hmgets, incrs, decrs, lpushes, rpushes, llens, lranges, flushes,
  inits, perform, perform_all,
}

module _ (server : Server) (clock : (n : ℕ) → suc (server.now n) < two_64) where
  request_reply-Sound {ℓ} :
      {A : Type ℓ} (password : Text) (request : Request) (fail : A) (read : Reply → A) (s : State)
      → IsOpen s.context
      → Sound s
      → Sound (request_reply server password request fail read s).0
  unfolding request_reply read_reply drop_context free_reply
  request_reply-Sound password request fail read s op h =
      redis_command-cases server (λ r. Sound (read_reply fail read r).0) request s
        (record {
          outstanding = h.outstanding;
          trace = closed op (sent request op h.trace);
          few = h.few;
          falls = h.falls;
          small = h.small;
        })
        (λ r. record {
          outstanding = h.outstanding;
          trace = freed (replied op (sent request op h.trace));
          few = h.few;
          falls = h.falls;
          small = h.small;
        })

  with_conn-Sound {ℓ} :
      {A : Type ℓ} (password : Text) (fail : A) (body : State → State × A) (s : State)
      → ((t : State) → IsOpen t.context → Sound t → Sound (body t).0)
      → Sound s
      → Sound (with_conn server password fail body s).0
  unfolding with_conn
  with_conn-Sound password fail body s keeps h =
      let (kept, ready) = init-Ready server clock password s h in
      elim (Bool-cases (is_zero (init server password s).1)) [
        | inl t ↦ rw (with_conn, t) (keeps (init server password s).0 (ready t) kept)
        | inr f ↦ rw (with_conn, f) kept
      ]

  ask-Sound {ℓ} :
      {A : Type ℓ} (password : Text) (request : Request) (fail : A) (read : Reply → A) (s : State)
      → Sound s
      → Sound (ask server password request fail read s).0
  unfolding ask
  ask-Sound password request fail read s =
      with_conn-Sound password fail (request_reply server password request fail read) s
        (request_reply-Sound password request fail read)

  mget_all-Sound :
      (password : Text) (keys : List Text) (m : TextMap) (s : State)
      → IsOpen s.context
      → Sound s
      → Sound (mget_all server password keys m s).0
  unfolding mget_all
  mget_all-Sound password [] m s op h = h
  mget_all-Sound password (k ∷ ks) m s op h = elim (Bool-cases (is_empty (join_keys (k ∷ ks)))) [
    | inl t ↦ rw (mget_all, t) h
    | inr f ↦ rw (mget_all, f) (request_reply-Sound password _ _ _ s op h)
  ]

  de_init-Sound : (s : State) → Sound s → Sound (de_init s)
  unfolding de_init drop_context
  de_init-Sound s h = elim (Option-cases s.context) [
    | inl e ↦ rw (de_init, e) h
    | inr (c, e) ↦
        rw (de_init, e)
          (record {
            outstanding = h.outstanding;
            trace = closed (subst IsOpen (sym e) tt) h.trace;
            few = h.few;
            falls = h.falls;
            small = h.small;
          })
  ]

  perform-Sound :
      (password : Text) (op : Op) (s : State) → Sound s → Sound (perform server password op s)
  unfolding perform get set setex mget is_exists del hdel hget hget_all hset hincr_by incr_by hmset
      hmget incr decr lpush rpush llen lrange flushdb
  perform-Sound p closes s h = de_init-Sound s h
  perform-Sound p inits s h = (init-Ready server clock p s h).0
  perform-Sound p (mgets ks) s h =
      with_conn-Sound p (false, some []) (mget_all server p ks []) s (mget_all-Sound p ks []) h
  perform-Sound p (gets k) s h = ask-Sound p _ _ _ s h
  perform-Sound p (sets k v) s h = ask-Sound p _ _ _ s h
  perform-Sound p (setexes k t v) s h = ask-Sound p _ _ _ s h
  perform-Sound p (asks_exists k) s h = ask-Sound p _ _ _ s h
  perform-Sound p (dels k) s h = ask-Sound p _ _ _ s h
  perform-Sound p (hdels k f) s h = ask-Sound p _ _ _ s h
  perform-Sound p (hgets k f) s h = ask-Sound p _ _ _ s h
  perform-Sound p (hgets_all k) s h = ask-Sound p _ _ _ s h
  perform-Sound p (hsets k f v) s h = ask-Sound p _ _ _ s h
  perform-Sound p (hincrs_by k f v) s h = ask-Sound p _ _ _ s h
  perform-Sound p (incrs_by k v) s h = ask-Sound p _ _ _ s h
  perform-Sound p (hmsets k m) s h = ask-Sound p _ _ _ s h
  perform-Sound p (hmgets k fs) s h = ask-Sound p _ _ _ s h
  perform-Sound p (incrs k) s h = ask-Sound p _ _ _ s h
  perform-Sound p (decrs k) s h = ask-Sound p _ _ _ s h
  perform-Sound p (lpushes k v) s h = ask-Sound p _ _ _ s h
  perform-Sound p (rpushes k v) s h = ask-Sound p _ _ _ s h
  perform-Sound p (llens k) s h = ask-Sound p _ _ _ s h
  perform-Sound p (lranges k a b) s h = ask-Sound p _ _ _ s h
  perform-Sound p flushes s h = ask-Sound p _ _ _ s h

  perform_all-Sound :
      (password : Text) (ops : List Op) (s : State)
      → Sound s
      → Sound (perform_all server password ops s)
  unfolding perform_all
  perform_all-Sound p [] s h = h
  perform_all-Sound p (op ∷ ops) s h =
      perform_all-Sound p ops (perform server p op s) (perform-Sound p op s h)

  cache_conn-Sound : Sound cache_conn
  unfolding cache_conn
  cache_conn-Sound = record {
    outstanding = 0;
    trace = begins;
    few = omega arith;
    falls = tt;
    small = omega arith;
  }

  -- Whatever the server, the library and a clock below 2 ^ 64 - 1 answer, after any operations of a
  -- new connection, in any order: a context was opened only while none was, commands were sent and
  -- contexts freed only while one was, the context that is open is the connection's, replies came
  -- only while a context was open, no more were freed than came, and those that were not freed are
  -- no more than the attempts to connect.
  pub perform_all-Trace :
      (password : Text) (ops : List Op)
      → (n : ℕ) × Trace
          (perform_all server password ops cache_conn).log
          (perform_all server password ops cache_conn).context
          n
        × (n ≤ length (times (perform_all server password ops cache_conn).log))
  perform_all-Trace password ops =
      let h = perform_all-Sound password ops cache_conn cache_conn-Sound in
      (h.outstanding, h.trace, h.few)

  -- With a clock below 2 ^ 64 - 1 in seconds, which may go back, and whatever the server answers,
  -- after any operations of a new connection, in any order: each attempt to connect was at a later
  -- second than the one before it, so that there was never more than one in a second.
  pub perform_all-Falls :
      (password : Text) (ops : List Op)
      → Falls two_64 (times (perform_all server password ops cache_conn).log)
  perform_all-Falls password ops =
      let h = perform_all-Sound password ops cache_conn cache_conn-Sound in
      Falls-mono _ two_64 (times (perform_all server password ops cache_conn).log)
        (omega (arith, h.small)) h.falls
