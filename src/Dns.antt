-- ===== src/Dns.antt =====
-- The asynchronous DNS client, 3.1池式组件/3.1.3异步请求池的实现/src/async/async_dns_client_noblock.c:
-- the request that is sent and the walk over the response. A buffer is a map from offsets to
-- bytes, and a `char *` or `unsigned char *` into it is an offset; a text is the list of its bytes
-- without the NUL. The host is little-endian, as in `htons`.
pub mod Memory
pub mod Labels
pub mod Names
pub mod RoundTrip
pub mod Response
pub mod Async
pub mod Client
mod Tests
use basic_component_design.Common.{
  ℕ, zero, suc, ◌+◌, ◌*◌, ◌/◌, ◌%◌, List, [], ◌∷◌, ◌++◌, Option, none, some, Bool, ◌&&◌, ltb, leb,
  ◌==◌, if◌then◌else◌, length, update,
}
use Prim.Native.Nat.{bit_and, ◌-◌}

-- `htons` and `ntohs`: the two bytes of a 16-bit value change places.
unfoldable pub htons : ℕ → ℕ
htons v = v % 256 * 256 + v / 256 % 256

-- An `unsigned short` in memory, low byte first.
unfoldable pub put_u16 : (ℕ → ℕ) → ℕ → ℕ → ℕ → ℕ
put_u16 mem at v = update (update mem at (v % 256)) (at + 1) (v / 256 % 256)

-- `ntohs(*(unsigned short *)ptr)`; the code also writes it `htons`.
unfoldable pub get_u16 : (ℕ → ℕ) → ℕ → ℕ
get_u16 mem at = mem at * 256 + mem (at + 1)

-- `memcpy(dst + to, src + from, n)`
unfoldable pub memcpy : (ℕ → ℕ) → ℕ → (ℕ → ℕ) → ℕ → ℕ → ℕ → ℕ
memcpy dst to src from n j = if leb to j && ltb j (to + n) then src (from + (j - to)) else dst j

-- The bytes of a list, written one after the other.
unfoldable pub store : (ℕ → ℕ) → ℕ → List ℕ → ℕ → ℕ
store mem at [] = mem
store mem at (b ∷ bs) = store (update mem at b) (suc at) bs

pub record Header : Type 0 where
  pub id : ℕ
  pub flags : ℕ
  pub qdcount : ℕ
  pub ancount : ℕ
  pub nscount : ℕ
  pub arcount : ℕ

pub record Question : Type 0 where
  pub length_of : ℕ
  pub qtype : ℕ
  pub qclass : ℕ
  pub qname : ℕ → ℕ

-- `id` is what `random` gives.
unfoldable pub create_header : ℕ → Header
unfolding htons
create_header random = record {
  id = random % 65536;
  flags = htons 256;
  qdcount = htons 1;
  ancount = 0;
  nscount = 0;
  arcount = 0;
}

-- `strtok` with the delimiter `.`: leading delimiters are skipped, the token ends at the next one
-- or at the end, and the rest is what the next call with NULL goes on from.
unfoldable pub skip_dots : List ℕ → List ℕ
skip_dots [] = []
skip_dots (c ∷ cs) = if c == 46 then skip_dots cs else c ∷ cs

unfoldable pub take_token : List ℕ → List ℕ × List ℕ
take_token [] = ([], [])
take_token (c ∷ cs) = let rest = take_token cs in if c == 46 then ([], cs) else (c ∷ rest.0, rest.1)

unfoldable pub strtok : List ℕ → Option (List ℕ × List ℕ)
unfolding skip_dots take_token
strtok s = elim (skip_dots s) [ [] ↦ none | c ∷ cs ↦ some (take_token (c ∷ cs)) ]

-- `*qname_p = len` and `strncpy(qname_p, token, len + 1)`, the NUL included.
unfoldable pub write_label : (ℕ → ℕ) → ℕ → List ℕ → ℕ → ℕ
unfolding store
write_label qname at token =
    store (update qname at (length token % 256)) (at + 1) (token ++ (0 ∷ []))

unfoldable pub write_labels : ℕ → List ℕ → (ℕ → ℕ) → ℕ → ℕ → ℕ
unfolding strtok write_label
write_labels zero text qname at = qname
write_labels (suc fuel) text qname at = elim (strtok text) [
  | none ↦ qname
  | some (token, rest) ↦ write_labels fuel rest (write_label qname at token) (at + 1 + length token)
]

pub data Created : Type 0 where
  created : Question → Created
  no_memory : Question → Created  -- -2, with the question zeroed

-- `malloc` gives `none`, or a block with the bytes that happen to be in it. Each turn takes a
-- character at least, so the length of the name and one are turns enough. strdup gives a copy: its
-- failure, which the code does not look for, is left out.
unfoldable pub create_question : Option (ℕ → ℕ) → List ℕ → Created
unfolding write_labels htons
create_question none hostname =
    no_memory (record { length_of = 0; qtype = 0; qclass = 0; qname = λ _. 0 })
create_question (some block) hostname = created (record {
  length_of = length hostname + 2;
  qtype = htons 1;
  qclass = htons 1;
  qname = write_labels (length hostname + 1) hostname block 0;
})

-- The bytes of the header in memory.
unfoldable pub header_bytes : Header → ℕ → ℕ
unfolding put_u16
header_bytes h =
    put_u16
      (put_u16
        (put_u16 (put_u16 (put_u16 (put_u16 (λ _. 0) 0 h.id) 2 h.flags) 4 h.qdcount) 6 h.ancount) 8
        h.nscount)
      10 h.arcount

-- The request, and its length.
unfoldable pub build_request : Header → Question → (ℕ → ℕ) → (ℕ → ℕ) × ℕ
unfolding memcpy header_bytes put_u16
build_request header question request =
    let with_header = memcpy request 0 (header_bytes header) 0 12 in
    let with_name = memcpy with_header 12 question.qname 0 question.length_of in
    let with_type = put_u16 with_name (12 + question.length_of) question.qtype in
    (put_u16 with_type (12 + question.length_of + 2) question.qclass, question.length_of + 4 + 12)

unfoldable pub is_pointer : ℕ → Bool
is_pointer flag = bit_and flag 192 == 192

-- Where `dns_parse_name` stands: `ptr` in the response, the text written and `pos` in it, `*len`. The
-- arrays of 128 bytes that the callers give have no end here: a longer text passes the end of them.
pub record NameState : Type 0 where
  pub ptr : ℕ
  pub out : ℕ → ℕ
  pub pos : ℕ
  pub len : ℕ

-- The text is copied, and a dot follows unless the name ends there.
unfoldable pub copy_label : (ℕ → ℕ) → ℕ → NameState → NameState
unfolding memcpy
copy_label chunk flag s =
    let copied = memcpy s.out s.pos chunk (s.ptr + 1) flag in
    let after = s.ptr + 1 + flag in
    if chunk after == 0
    then record { ptr = after; out = copied; pos = s.pos + flag; len = s.len + flag }
    else record {
      ptr = after;
      out = update copied (s.pos + flag) 46;
      pos = s.pos + flag + 1;
      len = s.len + flag + 1;
    }

-- One turn of `while (1)`; `none` is `break` at the end of the name. At a pointer the call of
-- itself starts with `pos` at `out + *len`, and what called it breaks when that call returns.
unfoldable pub name_round : (ℕ → ℕ) → NameState → Option NameState
unfolding is_pointer copy_label
name_round chunk s =
    let flag = chunk s.ptr in
    if flag == 0
    then none
    else if is_pointer flag
    then some (record s { ptr = chunk (s.ptr + 1); pos = s.len })
    else some (copy_label chunk flag s)

-- `none`: the fuel ran out.
unfoldable pub parse_name_loop : ℕ → (ℕ → ℕ) → NameState → Option NameState
unfolding name_round
parse_name_loop zero chunk s = none
parse_name_loop (suc fuel) chunk s = elim (name_round chunk s) [
  | none ↦ some s
  | some next ↦ parse_name_loop fuel chunk next
]

unfoldable pub parse_name : ℕ → (ℕ → ℕ) → ℕ → (ℕ → ℕ) → ℕ → Option NameState
unfolding parse_name_loop
parse_name fuel chunk ptr out len =
    parse_name_loop fuel chunk (record { ptr = ptr; out = out; pos = len; len = len })
