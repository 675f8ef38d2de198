-- ===== src/RedisPool/Connects.antt =====
-- Init, on each of its ways.
use basic_component_design.Common.{
  ℕ, suc, ◌+◌, ◌%◌, ◌<◌, ◌≡◌, refl, sym, inl, inr, true, false, ◌&&◌, [], ◌∷◌, none, some, ltb,
  Text, ℤ, is_zero, arith, Bool-cases, Option-cases,
}
use mathlib.Core.Path.{subst}
use basic_component_design.RedisPool.{
  is_status, is_error, connects, opens, Server, State, two_64, drop_context, free_reply, begins_ok,
  selected, select_db, authenticated, authenticate, connect_at, init,
}
use basic_component_design.RedisPool.Traced.{
  IsOpen, Trace, tries, opened, closed, sent, replied, freed, times, Falls, Falls-mono, Kept, Sound,
  Kept-Sound, asked-Sound, redis_command-cases, answered,
}

module _ (server : Server) where
  abbrev OpenKept : ℕ → State → State → Type 0
  OpenKept k s t = IsOpen t.context × Kept k s t

  select_db-Kept :
      (s : State) (n : ℕ)
      → IsOpen s.context
      → Trace s.log s.context n
      → OpenKept (suc n) s (select_db server s).0
  unfolding select_db selected free_reply
  select_db-Kept s n op tr =
      redis_command-cases server (λ r. OpenKept (suc n) s (selected r).0) _ s
        (
          op,
          record {
            outstanding = n;
            trace = sent _ op tr;
            few = omega arith;
            same_times = refl;
            same_last = refl;
          },
        )
        (λ r. elim (Bool-cases (is_status r.kind && begins_ok r.str)) [
          | inl t ↦
              rw (selected, t)
                (
                  op,
                  record {
                    outstanding = n;
                    trace = freed (replied op (sent _ op tr));
                    few = omega arith;
                    same_times = refl;
                    same_last = refl;
                  },
                )
          | inr f ↦
              rw (selected, f)
                (
                  op,
                  record {
                    outstanding = suc n;
                    trace = replied op (sent _ op tr);
                    few = omega arith;
                    same_times = refl;
                    same_last = refl;
                  },
                )
        ])

  authenticate-Kept :
      (password : Text) (s : State) (n : ℕ)
      → IsOpen s.context
      → Trace s.log s.context n
      → OpenKept (suc n) s (authenticate server password s).0
  unfolding authenticate authenticated free_reply
  authenticate-Kept [] s n op tr = select_db-Kept s n op tr
  authenticate-Kept (b ∷ bs) s n op tr =
      redis_command-cases server (λ r. OpenKept (suc n) s (authenticated server r).0) _ s
        (
          op,
          record {
            outstanding = n;
            trace = sent _ op tr;
            few = omega arith;
            same_times = refl;
            same_last = refl;
          },
        )
        (λ r. elim (Bool-cases (is_error r.kind)) [
          | inl t ↦
              rw (authenticated, t)
                (
                  op,
                  record {
                    outstanding = n;
                    trace = freed (replied op (sent _ op tr));
                    few = omega arith;
                    same_times = refl;
                    same_last = refl;
                  },
                )
          | inr f ↦
              let (op', k) =
                select_db-Kept (free_reply (answered _ s)) n op
                  (freed (replied op (sent _ op tr))) in
              rw (authenticated, f)
                (
                  op',
                  record {
                    outstanding = k.outstanding;
                    trace = k.trace;
                    few = k.few;
                    same_times = k.same_times;
                    same_last = k.same_last;
                  },
                )
        ])

later : (last time : ℕ) → suc last < two_64 → ltb time ((last + 1) % two_64) ≡ false → last < time
later last time small late =
    let e : (last + 1) % two_64 ≡ suc last = omega arith in ground (arith, e)

module _ (server : Server) (clock : (n : ℕ) → suc (server.now n) < two_64) where
  -- After Init: what holds, and that it connected where it says so.
  abbrev pub Ready : State × ℤ → Type 0
  Ready r = Sound r.0 × (is_zero r.1 ≡ true → IsOpen r.0.context)

  connect_at-Ready :
      (password : Text) (time : ℕ) (s : State)
      → s.context ≡ none
      → s.last_connect_time < time
      → suc time < two_64
      → Sound s
      → Ready (connect_at server password time s)
  unfolding connect_at drop_context
  connect_at-Ready password time s e lt small h =
      let tr = tries time (subst (λ o. Trace s.log o h.outstanding) e h.trace) in
      let falls : Falls (suc time) (time ∷ times s.log) =
        (omega arith, Falls-mono _ _ (times s.log) (omega arith) h.falls) in
      elim (Option-cases (server.connect s.calls)) [
        | inl none_made ↦
            rw (connect_at, none_made)
              (
                (record {
                  outstanding = h.outstanding;
                  trace = subst (λ o. Trace (connects time ∷ s.log) o h.outstanding) (sym e) tr;
                  few = omega (arith, h.few);
                  falls = falls;
                  small = small;
                }),
                λ z. absurd (ground arith),
              )
        | inr ((c, err), made) ↦ elim (Bool-cases err) [
          | inl t ↦
              rw (connect_at, made, t)
                (
                  (record {
                    outstanding = h.outstanding;
                    trace = closed tt (opened c tr);
                    few = omega (arith, h.few);
                    falls = falls;
                    small = small;
                  }),
                  λ z. absurd (ground arith),
                )
          | inr f ↦
              rw (connect_at, made, f)
                (let t : State = record {
                  context = some c;
                  last_connect_time = time;
                  calls = suc s.calls;
                  log = opens c ∷ connects time ∷ s.log;
                } in
                  let (op, k) =
                    authenticate-Kept server password t h.outstanding tt (opened c tr) in
                  (Kept-Sound _ t _ k (omega (arith, h.few)) falls small, λ z. op))
        ]
      ]

  pub init-Ready : (password : Text) (s : State) → Sound s → Ready (init server password s)
  unfolding init
  init-Ready password s h = elim (Option-cases s.context) [
    | inr (c, e) ↦ rw (init, e) (h, λ z. subst IsOpen (sym e) tt)
    | inl e ↦ elim (Bool-cases (ltb (server.now s.calls) ((s.last_connect_time + 1) % two_64))) [
      | inl early ↦ rw (init, e, early) (asked-Sound s h, λ z. absurd (ground arith))
      | inr late ↦
          rw (init, e, late)
            (connect_at-Ready password (server.now s.calls) (record s { calls = suc s.calls }) e
              (later s.last_connect_time (server.now s.calls) h.small late) (clock s.calls)
              (asked-Sound s h))
    ]
  ]
