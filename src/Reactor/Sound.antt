-- ===== src/Reactor/Sound.antt =====
-- What holds of a connection from redisAttach on, whichever of the callbacks of adapter.h hiredis
-- calls, in any order.
use basic_component_design.Common.{
  ℕ, ◌≡◌, refl, ap, ◌∙◌, inl, inr, Bool, true, false, not, List, [], ◌∷◌, Option, none, some,
  Option-cases, arith,
}
use mathlib.Core.Path.{subst}
use basic_component_design.Reactor.{
  Reactor, Event, Attached, read_handler, write_handler, next_mask, tell_epoll, redis_event_update,
  with_read_fn, with_write_fn, redis_add_read, redis_del_read, redis_add_write, redis_del_write,
  redis_attach,
}
use basic_component_design.Reactor.Interest.{
  Mask, idle, reading, writing, both, bits, bits_of, Flag, input, output, bit, turned, Agrees, When,
  next_mask-turned, Grants, tell_epoll-refuses, tell_epoll-Agrees,
}

-- The callbacks that redisAttach sets.
pub data Op : Type 0 where
  add_read : Op
  del_read : Op
  add_write : Op
  del_write : Op

unfoldable pub perform : Op → Attached → Attached
unfolding redis_add_read redis_del_read redis_add_write redis_del_write
perform add_read a = redis_add_read a
perform del_read a = redis_del_read a
perform add_write a = redis_add_write a
perform del_write a = redis_del_write a

unfoldable pub perform_all : List Op → Attached → Attached
unfolding perform
perform_all [] a = a
perform_all (op ∷ ops) a = perform_all ops (perform op a)

-- The mask is the one given, and epoll has what that mask comes with.
abbrev Fits : Mask → Attached → Type 0
Fits m a =
    (a.re.mask ≡ bits m) × Agrees a.address m (a.reactor.interest a.re.ctx_fd) × Grants a.reactor

abbrev or_else : Option Mask → Mask → Mask
or_else none m = m
or_else (some m') m = m'

redis_event_update-next :
    (flag : ℕ) (remove : Bool) (a : Attached) (m : Mask) (o : Option Mask)
    → Fits m a
    → next_mask flag remove a.re.mask ≡ bits_of o
    → When o (λ m'. Agrees a.address m' (
        (tell_epoll flag (not remove) a.re.mask (bits m') a.re.ctx_fd a.address a.reactor).interest
          a.re.ctx_fd))
    → Fits (or_else o m) (redis_event_update flag remove a)
unfolding redis_event_update
redis_event_update-next flag remove a m none fits next told = rw (redis_event_update, next) fits
redis_event_update-next flag remove a m (some m') fits next told =
    rw (redis_event_update, next)
      (
        refl,
        told,
        λ n.
            ap (λ f. f n)
              (tell_epoll-refuses flag (not remove) a.re.mask (bits m') a.re.ctx_fd a.address
                a.reactor)
            ∙ fits.2 n,
      )

redis_event_update-Fits :
    (f : Flag) (remove : Bool) (m : Mask) (a : Attached)
    → Fits m a
    → Fits (or_else (turned f remove m) m) (redis_event_update (bit f) remove a)
redis_event_update-Fits f remove m a fits =
    redis_event_update-next (bit f) remove a m (turned f remove m) fits
      (ap (next_mask (bit f) remove) fits.0 ∙ next_mask-turned f remove m)
      (rw (fits.0) (tell_epoll-Agrees f remove m a.re.ctx_fd a.address a.reactor fits.2 fits.1))

redis_event_update-e :
    (flag : ℕ) (remove : Bool) (a : Attached) → (redis_event_update flag remove a).re.e ≡ a.re.e
unfolding redis_event_update
redis_event_update-e flag remove a = elim (Option-cases (next_mask flag remove a.re.mask)) [
  | inl h ↦ rw (redis_event_update, h) refl
  | inr (m, h) ↦ rw (redis_event_update, h) refl
]

-- The callback of each direction that the mask has is set.
abbrev Handled : Mask → Event → Type 0
Handled idle e = Unit
Handled reading e = e.read_fn ≡ some read_handler
Handled writing e = e.write_fn ≡ some write_handler
Handled both e = (e.read_fn ≡ some read_handler) × (e.write_fn ≡ some write_handler)

pub record Sound (a : Attached) : Type 0 where
  pub wanted : Mask
  pub fits : Fits wanted a
  pub handled : Handled wanted a.re.e

abbrev flag_of : Op → Flag
flag_of add_read = input
flag_of del_read = input
flag_of add_write = output
flag_of del_write = output

abbrev takes_out : Op → Bool
takes_out add_read = false
takes_out del_read = true
takes_out add_write = false
takes_out del_write = true

abbrev with_fn : Op → Attached → Attached
with_fn add_read a = with_read_fn (some read_handler) a
with_fn del_read a = with_read_fn none a
with_fn add_write a = with_write_fn (some write_handler) a
with_fn del_write a = with_write_fn none a

perform-redis_event_update :
    (op : Op) (a : Attached)
    → perform op a ≡ redis_event_update (bit (flag_of op)) (takes_out op) (with_fn op a)
unfolding perform redis_add_read redis_del_read redis_add_write redis_del_write
perform-redis_event_update add_read a = refl
perform-redis_event_update del_read a = refl
perform-redis_event_update add_write a = refl
perform-redis_event_update del_write a = refl

with_fn-Fits : (op : Op) (m : Mask) (a : Attached) → Fits m a → Fits m (with_fn op a)
with_fn-Fits add_read m a fits = fits
with_fn-Fits del_read m a fits = fits
with_fn-Fits add_write m a fits = fits
with_fn-Fits del_write m a fits = fits

with_fn-Handled :
    (op : Op) (m : Mask) (a : Attached)
    → Handled m a.re.e
    → Handled (or_else (turned (flag_of op) (takes_out op) m) m) (with_fn op a).re.e
with_fn-Handled add_read idle a h = refl
with_fn-Handled add_read reading a h = refl
with_fn-Handled add_read writing a h = (refl, h)
with_fn-Handled add_read both a h = (refl, h.1)
with_fn-Handled del_read idle a h = tt
with_fn-Handled del_read reading a h = tt
with_fn-Handled del_read writing a h = h
with_fn-Handled del_read both a h = h.1
with_fn-Handled add_write idle a h = refl
with_fn-Handled add_write reading a h = (h, refl)
with_fn-Handled add_write writing a h = refl
with_fn-Handled add_write both a h = (h.0, refl)
with_fn-Handled del_write idle a h = tt
with_fn-Handled del_write reading a h = h
with_fn-Handled del_write writing a h = tt
with_fn-Handled del_write both a h = h.0

perform-Sound : (op : Op) (a : Attached) → Sound a → Sound (perform op a)
perform-Sound op a s = rw (perform-redis_event_update op a) record {
  wanted = or_else (turned (flag_of op) (takes_out op) s.wanted) s.wanted;
  fits =
      redis_event_update-Fits (flag_of op) (takes_out op) s.wanted (with_fn op a)
        (with_fn-Fits op s.wanted a s.fits);
  handled =
      rw (redis_event_update-e (bit (flag_of op)) (takes_out op) (with_fn op a))
        (with_fn-Handled op s.wanted a s.handled);
}

perform_all-Keeps : (ops : List Op) (a : Attached) → Sound a → Sound (perform_all ops a)
unfolding perform_all
perform_all-Keeps [] a s = s
perform_all-Keeps (op ∷ ops) a s = perform_all-Keeps ops (perform op a) (perform-Sound op a s)

redis_attach-Sound :
    (has_data : Bool) (memory : Option (ℕ × Event)) (fd : ℕ) (r : Reactor) (a : Attached)
    → Grants r
    → r.interest fd ≡ none
    → redis_attach has_data memory fd r ≡ some a
    → Sound a
unfolding redis_attach
redis_attach-Sound true memory fd r a g h e = ground arith
redis_attach-Sound false none fd r a g h e = ground arith
redis_attach-Sound false (some (address, old)) fd r a g h e =
    let made : Attached = record {
      address = address;
      re = record { e = record old { fd = fd }; mask = 0; ctx_fd = fd };
      reactor = r;
    } in
    let same : made ≡ a = cc in
    subst Sound same (record { wanted = idle; fits = (refl, h, g); handled = tt })

-- When redisAttach has attached a connection whose descriptor is not watched yet, and epoll_ctl
-- refuses no call for want of memory or of watches, then after any calls of the four callbacks, in any order: the mask is 0, 1, 4 or 5; under 0 epoll does not watch
-- the descriptor, and else it does, with the address of the event; each direction of the mask has
-- its handler set; under 1 what epoll watches for is 0 or 1, under 4 it is 0 or 4, and under 5, which
-- asks for both directions, it is 1 or 4, never both.
pub perform_all-Sound :
    (ops : List Op) (has_data : Bool) (memory : Option (ℕ × Event)) (fd : ℕ) (r : Reactor)
    (a : Attached)
    → Grants r
    → r.interest fd ≡ none
    → redis_attach has_data memory fd r ≡ some a
    → Sound (perform_all ops a)
perform_all-Sound ops has_data memory fd r a grants free attached =
    perform_all-Keeps ops a (redis_attach-Sound has_data memory fd r a grants free attached)
