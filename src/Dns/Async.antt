-- ===== src/Dns/Async.antt =====
-- The asynchronous side: `dns_async_client_commit` sends a request and watches its socket, and the
-- thread of `dns_async_client_proc` answers each ready socket by the callback. A callback is the
-- number that names it; what `epoll_wait` reports and what `recvfrom` reads come from outside.
pub mod Sockets
pub mod Accounts
mod Tests
use basic_component_design.Common.{
  ℕ, List, [], ◌∷◌, ◌++◌, Option, none, some, Bool, true, false, ◌==◌, if◌then◌else◌, ◌>>=◌,
}
use basic_component_design.Dns.{
  Question, Created, created, no_memory, create_header, create_question, build_request,
}
use basic_component_design.Dns.Response.{Response, parse_response}

pub record EpArg : Type 0 where
  pub sockfd : ℕ
  pub cb : ℕ

-- A call of `sendto`: the socket, the request and its length.
pub record Sent : Type 0 where
  pub socket : ℕ
  pub request : ℕ → ℕ
  pub req_len : ℕ

-- The sockets that are open, those that the epoll instance watches, the `ep_arg`s that are
-- allocated, the requests sent, and the callbacks made with what they were given.
pub record Client : Type 0 where
  pub open_sockets : List ℕ
  pub watched : List EpArg
  pub allocated : List EpArg
  pub sent : List Sent
  pub called : List (ℕ × Response)

unfoldable pub dns_async_client_init : Client
dns_async_client_init = record {
  open_sockets = [];
  watched = [];
  allocated = [];
  sent = [];
  called = [];
}

-- What the system answers to a commit: the socket, or `none`; the block for the question's name;
-- the bytes of the request buffer; `random`; is there memory for the `ep_arg`, and does
-- `epoll_ctl` add the socket?
pub record SystemReply : Type 0 where
  pub socket : Option ℕ
  pub block : Option (ℕ → ℕ)
  pub random : ℕ
  pub memory : Bool
  pub added : Bool

pub data Commit : Type 0 where
  exited : Commit  -- `exit(-1)`
  no_arg : Client → Commit  -- -1
  returned : Bool → Client → Commit  -- what `epoll_ctl` returned, `true` for 0

unfoldable pub question_of : Created → Question
question_of (created q) = q
question_of (no_memory q) = q

unfoldable pub zero_buffer : ℕ → ℕ
zero_buffer j = 0

-- The result of `dns_create_question` is not looked at.
unfoldable pub send_request : ℕ → SystemReply → List ℕ → Client → Client
unfolding create_header create_question build_request question_of zero_buffer
send_request sockfd a domain c =
    let built =
      build_request (create_header a.random) (question_of (create_question a.block domain))
        zero_buffer in
    record c {
      open_sockets = sockfd ∷ c.open_sockets;
      sent = record { socket = sockfd; request = built.0; req_len = built.1 } ∷ c.sent;
    }

unfoldable pub watch : EpArg → Bool → Client → Client
watch arg added c = record c {
  allocated = arg ∷ c.allocated;
  watched = if added then arg ∷ c.watched else c.watched;
}

unfoldable pub dns_async_client_commit : SystemReply → List ℕ → ℕ → Client → Commit
unfolding send_request watch
dns_async_client_commit a domain cb c = elim a.socket [
  | none ↦ exited
  | some sockfd ↦
      let s = send_request sockfd a domain c in
      if a.memory
      then returned a.added (watch (record { sockfd = sockfd; cb = cb }) a.added s)
      else no_arg s
]

-- `EPOLL_CTL_DEL`; `close`; `free`
unfoldable pub unwatch : ℕ → List EpArg → List EpArg
unwatch fd [] = []
unwatch fd (a ∷ as') = if a.sockfd == fd then unwatch fd as' else a ∷ unwatch fd as'

unfoldable pub close : ℕ → List ℕ → List ℕ
close fd [] = []
close fd (o ∷ os) = if o == fd then close fd os else o ∷ close fd os

-- A ready socket: the `ep_arg` that `epoll_wait` hands back, what `recvfrom` left in the buffer
-- (its result is not looked at), and is there memory for the list?
pub record Event : Type 0 where
  pub arg : EpArg
  pub buffer : ℕ → ℕ
  pub memory : Bool

unfoldable pub handle_event : ℕ → Event → Client → Option Client
unfolding parse_response unwatch close
handle_event fuel e c = do
  response ← parse_response e.memory fuel e.buffer
  some (record {
    open_sockets = close e.arg.sockfd c.open_sockets;
    watched = unwatch e.arg.sockfd c.watched;
    allocated = unwatch e.arg.sockfd c.allocated;
    sent = c.sent;
    called = (e.arg.cb, response) ∷ c.called;
  })

-- One return of `epoll_wait`.
unfoldable pub proc_round : ℕ → List Event → Client → Option Client
unfolding handle_event
proc_round fuel [] c = some c
proc_round fuel (e ∷ es) c = do next ← handle_event fuel e c; proc_round fuel es next
