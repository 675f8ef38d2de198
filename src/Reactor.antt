-- ===== src/Reactor.antt =====
-- The reactor of reactor.h and the adapter of adapter.h, which puts a connection of hiredis on it,
-- under 3.1池式组件/3.1.4mysql连接池的实现/src/redis-async. A function pointer is the number that names
-- the function, `none` is the null pointer, and an `event_t *` is the address of the event. What
-- epoll_ctl answers is as its manual has it; epoll_wait's answers are arguments.
pub mod Interest
pub mod Sound
pub mod Loop
mod Tests
use basic_component_design.Common.{
  ℕ, suc, ◌-◌, Bool, true, false, not, List, [], ◌∷◌, Option, none, some, ◌==◌, if◌then◌else◌,
  update,
}
use Prim.Native.Nat.{bit_and, bit_or}

abbrev pub epollin : ℕ
epollin = 1

abbrev pub epollout : ℕ
epollout = 4

abbrev pub epollerr : ℕ
epollerr = 8

abbrev pub epollhup : ℕ
epollhup = 16

-- `struct epoll_event`
pub record Watch : Type 0 where
  pub events : ℕ
  pub target : ℕ

-- `reactor_t`, with what the epoll instance watches each descriptor for. `refuses` says which calls of
-- epoll_ctl to add or to modify, numbered from 0, fail for want of memory, of watches, or the like;
-- `calls` counts these calls.
pub record Reactor : Type 0 where
  pub interest : ℕ → Option Watch
  pub listenfd : ℕ
  pub stop : Bool
  pub refuses : ℕ → Bool
  pub calls : ℕ

unfoldable pub create_reactor : (ℕ → Bool) → Reactor
create_reactor refuses = record {
  interest = λ fd. none;
  listenfd = 0;
  stop = false;
  refuses = refuses;
  calls = 0;
}

-- EPOLL_CTL_ADD also fails on a descriptor that is watched already. On any failure the function
-- returns 1, and epoll is as it was.
unfoldable pub add_event : ℕ → ℕ → ℕ → Reactor → Reactor × ℕ
add_event fd events privdata r =
    let r' = record r { calls = suc r.calls } in
    if r.refuses r.calls then (r', 1) else elim (r.interest fd) [
      | none ↦ (
        record r' {
          interest = update r.interest fd (some (record { events = events; target = privdata }));
        },
        0,
      )
      | some w ↦ (r', 1)
    ]

unfoldable pub del_event : ℕ → Reactor → Reactor
del_event fd r = record r { interest = update r.interest fd none }

-- EPOLL_CTL_MOD also fails on a descriptor that is not watched.
unfoldable pub enable_event : ℕ → ℕ → Bool → Bool → Reactor → Reactor × ℕ
enable_event fd privdata readable writeable r =
    let events = bit_or (if readable then epollin else 0) (if writeable then epollout else 0) in
    let r' = record r { calls = suc r.calls } in
    if r.refuses r.calls then (r', 1) else elim (r.interest fd) [
      | none ↦ (r', 1)
      | some w ↦ (
        record r' {
          interest = update r.interest fd (some (record { events = events; target = privdata }));
        },
        0,
      )
    ]

-- `event_t`
pub record Event : Type 0 where
  pub fd : ℕ
  pub read_fn : Option ℕ
  pub write_fn : Option ℕ
  pub accept_fn : Option ℕ

-- `redis_event_t`: the event, the mask and the descriptor of the context.
pub record RedisEvent : Type 0 where
  pub e : Event
  pub mask : ℕ
  pub ctx_fd : ℕ

-- A connection: where its event stands, the event, and the reactor.
pub record Attached : Type 0 where
  pub address : ℕ
  pub re : RedisEvent
  pub reactor : Reactor

abbrev pub read_handler : ℕ
read_handler = 1

abbrev pub write_handler : ℕ
write_handler = 2

-- The mask with the flag taken out or put in; `none` where the function returns at once.
unfoldable pub next_mask : ℕ → Bool → ℕ → Option ℕ
next_mask flag remove mask =
    if remove
    then (if bit_and mask flag == 0 then none else some (mask - bit_and mask flag))
    else if bit_and mask flag == 0
    then some (bit_or mask flag)
    else none

-- What is told to epoll when the mask goes from `prev` to `mask` by the flag.
unfoldable pub tell_epoll : ℕ → Bool → ℕ → ℕ → ℕ → ℕ → Reactor → Reactor
unfolding add_event del_event enable_event
tell_epoll flag enable prev mask fd privdata r =
    if mask == 0
    then del_event fd r
    else if prev == 0
    then (add_event fd mask privdata r).0
    else if not (bit_and flag epollin == 0)
    then (enable_event fd privdata enable false r).0
    else if not (bit_and flag epollout == 0)
    then (enable_event fd privdata false enable r).0
    else r

unfoldable pub redis_event_update : ℕ → Bool → Attached → Attached
unfolding next_mask tell_epoll
redis_event_update flag remove a = elim (next_mask flag remove a.re.mask) [
  | none ↦ a
  | some mask ↦ record a {
    re = record a.re { mask = mask };
    reactor = tell_epoll flag (not remove) a.re.mask mask a.re.ctx_fd a.address a.reactor;
  }
]

abbrev pub with_read_fn : Option ℕ → Attached → Attached
with_read_fn f a = record a { re = record a.re { e = record a.re.e { read_fn = f } } }

abbrev pub with_write_fn : Option ℕ → Attached → Attached
with_write_fn f a = record a { re = record a.re { e = record a.re.e { write_fn = f } } }

unfoldable pub redis_add_read : Attached → Attached
unfolding redis_event_update
redis_add_read a = redis_event_update epollin false (with_read_fn (some read_handler) a)

unfoldable pub redis_del_read : Attached → Attached
unfolding redis_event_update
redis_del_read a = redis_event_update epollin true (with_read_fn none a)

unfoldable pub redis_add_write : Attached → Attached
unfolding redis_event_update
redis_add_write a = redis_event_update epollout false (with_write_fn (some write_handler) a)

unfoldable pub redis_del_write : Attached → Attached
unfolding redis_event_update
redis_del_write a = redis_event_update epollout true (with_write_fn none a)

-- The reactor after the event has been freed.
unfoldable pub redis_cleanup : Attached → Reactor
unfolding del_event
redis_cleanup a = del_event a.re.ctx_fd a.reactor

-- Is something attached already; what hi_malloc gives: an address, and the event that is there.
unfoldable pub redis_attach : Bool → Option (ℕ × Event) → ℕ → Reactor → Option Attached
redis_attach has_data memory fd r = if has_data then none else elim memory [
  | none ↦ none
  | some (address, old) ↦ some (record {
    address = address;
    re = record { e = record old { fd = fd }; mask = 0; ctx_fd = fd };
    reactor = r;
  })
]
