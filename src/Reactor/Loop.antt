-- ===== src/Reactor/Loop.antt =====
-- The event loop of reactor.h. The handlers, and what they change, are a parameter: the loop reads
-- the event again before each call, as the code does through its pointer.
use basic_component_design.Common.{ℕ, true, List, [], ◌∷◌, Option, none, some, ◌==◌, if◌then◌else◌}
use Prim.Native.Nat.{bit_and, bit_or}
use basic_component_design.Reactor.{epollin, epollout, epollerr, epollhup, Watch, Reactor, Event}

-- The reactor, the event at an address, and the call of a handler with its descriptor, mask and event.
pub record Machine (S : Type 0) : Type 0 where
  pub reactor_of : S → Reactor
  pub with_reactor : Reactor → S → S
  pub event_at : S → ℕ → Event
  pub call : ℕ → ℕ → ℕ → ℕ → S → S

-- `if (events & flag) mask |= bits`
unfoldable pub add_bits : ℕ → ℕ → ℕ → ℕ → ℕ
add_bits events flag bits mask = if bit_and events flag == 0 then mask else bit_or mask bits

unfoldable pub ready_mask : ℕ → ℕ
unfolding add_bits
ready_mask events = add_bits events epollhup (bit_or epollin epollout) (
    add_bits events epollerr (bit_or epollin epollout)
      (add_bits events epollout epollout (add_bits events epollin epollin 0)))

module _ {S : Type 0} (m : Machine S) where
  -- A null handler is not called.
  unfoldable pub call_if : Option ℕ → ℕ → ℕ → ℕ → S → S
  call_if none fd mask address s = s
  call_if (some f) fd mask address s = m.call f fd mask address s

  unfoldable pub read_side : ℕ → ℕ → S → S
  unfolding call_if
  read_side mask address s =
      let et = m.event_at s address in
      if bit_and mask epollin == 0
      then s
      else if et.fd == (m.reactor_of s).listenfd
      then call_if et.accept_fn et.fd mask address s
      else call_if et.read_fn et.fd mask address s

  unfoldable pub write_side : ℕ → ℕ → S → S
  unfolding call_if
  write_side mask address s =
      let et = m.event_at s address in
      if bit_and mask epollout == 0 then s else call_if et.write_fn et.fd mask address s

  -- The reports of epoll_wait, in turn.
  unfoldable pub eventloop_once : List Watch → S → S
  unfolding ready_mask read_side write_side
  eventloop_once [] s = s
  eventloop_once (e ∷ es) s =
      let mask = ready_mask e.events in
      eventloop_once es (write_side mask e.target (read_side mask e.target s))

  unfoldable pub stop_eventloop : S → S
  stop_eventloop s = m.with_reactor (record (m.reactor_of s) { stop = true }) s

  -- The loop over what epoll_wait gives, call by call; `none` while it waits for more.
  unfoldable pub eventloop : List (List Watch) → S → Option S
  unfolding eventloop_once
  eventloop [] s = if (m.reactor_of s).stop then some s else none
  eventloop (es ∷ more) s =
      let rest = eventloop more (eventloop_once es s) in
      if (m.reactor_of s).stop then some s else rest
