-- ===== src/Dns/Async/Accounts.antt =====
-- Every request that was accepted is still watched, or has been called back, once.
use basic_component_design.Common.{ℕ, ◌+◌, ◌≡◌, ◌≢◌, List, [], ◌∷◌, some, true, false, All, In}
use basic_component_design.Dns.Response.{Response}
use basic_component_design.Dns.Async.{
  EpArg, Client, dns_async_client_init, SystemReply, no_arg, returned, dns_async_client_commit,
  unwatch, close, Event, handle_event,
}
use basic_component_design.Dns.Async.Sockets.{is_cb, count_args, Distinct, IsOpen}

abbrev pub count : ℕ → List ℕ → ℕ
count x [] = 0
count x (cb ∷ cbs) = is_cb x cb + count x cbs

abbrev pub count_calls : ℕ → List (ℕ × Response) → ℕ
count_calls x [] = 0
count_calls x ((cb, _) ∷ rest) = is_cb x cb + count_calls x rest

-- The client after some commits and events in any order, and the callbacks of the commits that
-- returned 0. A socket that the system hands out is not open, and an event is of a watched socket.
pub data Reach (fuel : ℕ) : List ℕ → Client → Type 0 where
  start : Reach fuel [] dns_async_client_init
  accepted :
      {cbs : List ℕ} {c next : Client} (a : SystemReply) (domain : List ℕ) (cb fd : ℕ)
      → Reach fuel cbs c
      → a.socket ≡ some fd
      → All (λ o. o ≢ fd) c.open_sockets
      → dns_async_client_commit a domain cb c ≡ returned true next
      → Reach fuel (cb ∷ cbs) next
  not_added :
      {cbs : List ℕ} {c next : Client} (a : SystemReply) (domain : List ℕ) (cb fd : ℕ)
      → Reach fuel cbs c
      → a.socket ≡ some fd
      → All (λ o. o ≢ fd) c.open_sockets
      → dns_async_client_commit a domain cb c ≡ returned false next
      → Reach fuel cbs next
  without_arg :
      {cbs : List ℕ} {c next : Client} (a : SystemReply) (domain : List ℕ) (cb fd : ℕ)
      → Reach fuel cbs c
      → a.socket ≡ some fd
      → All (λ o. o ≢ fd) c.open_sockets
      → dns_async_client_commit a domain cb c ≡ no_arg next
      → Reach fuel cbs next
  event :
      {cbs : List ℕ} {c next : Client} (e : Event)
      → Reach fuel cbs c
      → In e.arg c.watched
      → handle_event fuel e c ≡ some next
      → Reach fuel cbs next

-- Watched sockets are distinct and open, and the callbacks add up.
pub record Sound (cbs : List ℕ) (c : Client) : Type 0 where
  pub distinct : Distinct c.watched
  pub open_all : All (IsOpen c.open_sockets) c.watched
  pub adds_up : (x : ℕ) → count x cbs ≡ count_args x c.watched + count_calls x c.called

module _ (cbs : List ℕ) (c : Client) (s : Sound cbs c) (a : SystemReply) (domain : List ℕ)
    (fd cb : ℕ) (fresh : All (λ o. o ≢ fd) c.open_sockets) where
  abbrev pub arg : EpArg
  arg = record { sockfd = fd; cb = cb }

-- The client after an event.
abbrev answered : Event → Response → Client → Client
answered e response c = record {
  open_sockets = close e.arg.sockfd c.open_sockets;
  watched = unwatch e.arg.sockfd c.watched;
  allocated = unwatch e.arg.sockfd c.allocated;
  sent = c.sent;
  called = (e.arg.cb, response) ∷ c.called;
}
