-- ===== src/Reactor/Tests.antt =====
-- Runs of the reactor and the adapter, with concrete handlers.
use basic_component_design.Common.{
  ℕ, ◌≡◌, refl, Bool, true, false, List, [], ◌∷◌, none, some, ◌==◌, if◌then◌else◌,
}
use basic_component_design.Reactor.{
  Reactor, create_reactor, Event, Attached, redis_attach, add_event, del_event, enable_event,
  next_mask, tell_epoll, redis_event_update, redis_add_read, redis_del_read, redis_add_write,
  redis_cleanup,
}
use basic_component_design.Reactor.Sound.{
  Op, add_read, del_read, add_write, perform, perform_all, Sound, perform_all-Sound,
}
use basic_component_design.Reactor.Loop.{
  Machine, add_bits, ready_mask, call_if, read_side, write_side, eventloop_once, eventloop,
}

abbrev granted : ℕ → Bool
granted n = false

abbrev blank : Event
blank = record { fd = 9; read_fn = none; write_fn = some 77; accept_fn = none }

abbrev connection : Attached
connection = record {
  address = 100;
  re = record { e = record blank { fd = 6 }; mask = 0; ctx_fd = 6 };
  reactor = create_reactor granted;
}

abbrev reads_then_writes : List Op
reads_then_writes = add_read ∷ add_write ∷ []

perform_all-Sound_example : Sound (perform_all reads_then_writes connection)
unfolding create_reactor redis_attach
perform_all-Sound_example =
    perform_all-Sound reads_then_writes false (some (100, blank)) 6 (create_reactor granted)
      connection (λ n. refl) refl refl

-- With both directions in the mask, epoll watches for writing only.
reading_lost :
    ((perform_all reads_then_writes connection).re.mask ≡ 5)
    × ((perform_all reads_then_writes connection).reactor.interest 6
        ≡ some (record { events = 4; target = 100 }))
unfolding perform_all perform redis_add_read redis_add_write redis_event_update next_mask tell_epoll
    add_event enable_event create_reactor
reading_lost = (refl, refl)

-- When reading is taken out again, it watches for nothing, with writing in the mask.
writing_lost :
    (perform del_read (perform_all reads_then_writes connection)).reactor.interest 6
    ≡ some (record { events = 0; target = 100 })
unfolding perform_all perform redis_add_read redis_del_read redis_add_write redis_event_update
    next_mask tell_epoll add_event enable_event create_reactor
writing_lost = refl

cleaned : (redis_cleanup (perform add_read connection)).interest 6 ≡ none
unfolding perform redis_add_read redis_event_update next_mask tell_epoll add_event create_reactor
    redis_cleanup del_event
cleaned = refl

-- The calls made so far, the last first: the handler, the descriptor and the mask.
record Log : Type 0 where
  reactor : Reactor
  events : ℕ → Event
  calls : List (ℕ × ℕ × ℕ)

-- Handler 5 stops the loop.
abbrev logging : Machine Log
logging = record {
  reactor_of = λ s. s.reactor;
  with_reactor = λ r s. record s { reactor = r };
  event_at = λ s. s.events;
  call = λ f fd mask address s. record s {
    reactor = record s.reactor { stop = if f == 5 then true else s.reactor.stop };
    calls = (f, fd, mask) ∷ s.calls;
  };
}

abbrev begun : Log
begun = record {
  reactor = record (create_reactor granted) { listenfd = 3 };
  events = λ a.
      if a == 1
      then record { fd = 3; read_fn = some 1; write_fn = none; accept_fn = some 4 }
      else record { fd = 6; read_fn = some 2; write_fn = some 5; accept_fn = none };
  calls = [];
}

-- A new connection; then an error on the other descriptor, for which both handlers are called, the
-- second of which stops the loop. The third answer of epoll_wait is not asked for.
loop_run :
    eventloop logging
      (((record { events = 1; target = 1 }) ∷ [])
        ∷ ((record { events = 8; target = 2 }) ∷ [])
        ∷ ((record { events = 1; target = 1 }) ∷ [])
        ∷ [])
      begun
    ≡ some (record begun {
      reactor = record begun.reactor { stop = true };
      calls = (5, 6, 5) ∷ (2, 6, 5) ∷ (4, 3, 1) ∷ [];
    })
unfolding eventloop eventloop_once read_side write_side call_if ready_mask add_bits create_reactor
loop_run = refl
