-- ===== src/Dns/Async/Tests.antt =====
-- A commit and the event that answers it.
use basic_component_design.Common.{◌≡◌, refl, [], ◌∷◌, some, true, false}
use basic_component_design.Dns.Response.{no_list}
use basic_component_design.Dns.Async.{
  Client, SystemReply, Event, dns_async_client_init, dns_async_client_commit, no_arg, proc_round,
  watch, send_request,
}

abbrev all_well : SystemReply
all_well = record {
  socket = some 5;
  block = some (λ j. 7);
  random = 9;
  memory = true;
  added = true;
}

-- "a", with the callback 40
abbrev waiting : Client
unfolding dns_async_client_init
waiting =
    watch (record { sockfd = 5; cb = 40 }) true
      (send_request 5 all_well (97 ∷ []) dns_async_client_init)

-- No record in the response, and no memory for the list.
abbrev ready : Event
ready = record { arg = record { sockfd = 5; cb = 40 }; buffer = λ j. 0; memory = false }

abbrev answered : Client
answered = record {
  open_sockets = [];
  watched = [];
  allocated = [];
  sent = waiting.sent;
  called = (40, no_list) ∷ [];
}

called_in_round : proc_round 1 (ready ∷ []) waiting ≡ some answered
unfolding proc_round waiting watch send_request
called_in_round = refl

-- Without memory for the `ep_arg` the socket stays open, and nothing watches it.
abbrev no_memory_for_arg : SystemReply
no_memory_for_arg = record {
  socket = some 5;
  block = some (λ j. 7);
  random = 9;
  memory = false;
  added = true;
}

socket_left_open :
    (c : Client) × (dns_async_client_commit no_memory_for_arg (97 ∷ []) 40 dns_async_client_init
      ≡ no_arg c)
    × (c.open_sockets ≡ 5 ∷ [])
    × (c.watched ≡ [])
unfolding dns_async_client_commit dns_async_client_init
socket_left_open = (_, refl, refl, refl)
