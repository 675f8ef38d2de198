-- ===== src/Dns/Client.antt =====
-- The blocking client of the same file, and the flags of its socket.
use basic_component_design.Common.{
  ℕ, ◌-◌, List, [], ◌∷◌, Option, none, some, Bool, true, false, ◌≡◌, refl, if◌then◌else◌, ◌>>=◌,
}
use Prim.Native.Nat.{bit_and, bit_or}
use basic_component_design.Dns.Response.{Response, parse_response}
use basic_component_design.Dns.Async.{Client, SystemReply, send_request}

-- `O_NONBLOCK` on Linux.
abbrev o_nonblock : ℕ
o_nonblock = 2048

pub data Flags : Type 0 where
  no_flags : Flags  -- what `F_GETFL` returned, negative
  not_set : Flags  -- -1
  set : ℕ → Flags  -- 0, with the new flags

-- What `F_GETFL` gives, and does `F_SETFL` succeed?
unfoldable set_block : Option ℕ → Bool → Bool → Flags
set_block none block done = no_flags
set_block (some flags) block done =
    let new = if block then flags - bit_and flags o_nonblock else bit_or flags o_nonblock in
    if done then set new else not_set

-- The loop goes on until `recvfrom` has bytes; `none`: it still waits.
unfoldable receive : List (Option (ℕ → ℕ)) → Option (ℕ → ℕ)
receive [] = none
receive (none ∷ later) = receive later
receive (some buffer ∷ later) = some buffer

pub data Blocking : Type 0 where
  exited : Blocking  -- `exit(-1)`
  waiting : Client → Blocking
  answered : Response → Client → Blocking  -- 0; the list and the socket are left behind

unfoldable dns_client_commit :
    Bool → ℕ → SystemReply → List ℕ → List (Option (ℕ → ℕ)) → Client → Option Blocking
unfolding receive parse_response send_request
dns_client_commit list_memory fuel a domain received c = elim a.socket [
  | none ↦ some exited
  | some sockfd ↦
      let sent = send_request sockfd a domain c in
      elim (receive received) [
        | none ↦ some (waiting sent)
        | some buffer ↦
            parse_response list_memory fuel buffer >>= (λ response. some (answered response sent))
      ]
]

abbrev flags_in : Option ℕ
flags_in = some 2050

block_clears : set_block flags_in true true ≡ set 2
unfolding set_block
block_clears = refl

nonblock_sets : set_block (some 2) false true ≡ set 2050
unfolding set_block
nonblock_sets = refl
