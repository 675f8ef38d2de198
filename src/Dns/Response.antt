-- ===== src/Dns/Response.antt =====
-- `dns_parse_response`: the questions are skipped, and each address record becomes an item.
pub mod Questions
pub mod Answers
use basic_component_design.Common.{
  ℕ, zero, suc, ◌+◌, ◌/◌, ◌%◌, List, [], ◌∷◌, ◌++◌, Option, none, some, Bool, true, false, ltb,
  ◌==◌, if◌then◌else◌, ◌>>=◌,
}
use basic_component_design.Dns.{get_u16, NameState, parse_name}

pub record Item : Type 0 where
  pub domain : List ℕ
  pub ip : List ℕ

-- A name in the question: over each label, to behind the zero. Pointers are not looked for.
unfoldable pub skip_name : ℕ → (ℕ → ℕ) → ℕ → Option ℕ
skip_name zero chunk ptr = none
skip_name (suc fuel) chunk ptr =
    let rest = skip_name fuel chunk (ptr + (chunk ptr + 1)) in
    elim (chunk ptr == 0) [ true ↦ some (ptr + (chunk ptr + 1)) | false ↦ rest ]

unfoldable pub skip_questions : ℕ → ℕ → (ℕ → ℕ) → ℕ → Option ℕ
unfolding skip_name
skip_questions zero fuel chunk ptr = some ptr
skip_questions (suc querys) fuel chunk ptr = do
  after ← skip_name fuel chunk ptr
  skip_questions querys fuel chunk (after + 4)

-- The digits of a byte, and `inet_ntop` on the four bytes at an offset.
unfoldable pub decimal : ℕ → List ℕ
decimal n =
    if ltb n 10
    then (48 + n) ∷ []
    else if ltb n 100
    then (48 + n / 10) ∷ (48 + n % 10) ∷ []
    else (48 + n / 100) ∷ (48 + n / 10 % 10) ∷ (48 + n % 10) ∷ []

unfoldable pub inet_ntop : (ℕ → ℕ) → ℕ → List ℕ
unfolding decimal
inet_ntop mem at =
    decimal (mem at)
    ++ (46 ∷ decimal (mem (at + 1)))
    ++ (46 ∷ decimal (mem (at + 2)))
    ++ (46 ∷ decimal (mem (at + 3)))

-- The bytes before the first NUL, of the `room` that the array has.
unfoldable pub c_string : ℕ → (ℕ → ℕ) → ℕ → List ℕ
c_string zero mem at = []
c_string (suc room) mem at = if mem at == 0 then [] else mem at ∷ c_string room mem (suc at)

-- `char cname[128], aname[128]`, zeroed by `bzero`.
abbrev pub name_room : ℕ
name_room = 128

unfoldable pub zeroed : ℕ → ℕ
zeroed j = 0

-- `ptr`, and the items written so far, as many as `cnt`.
pub record Walk : Type 0 where
  pub ptr : ℕ
  pub list : List Item

unfoldable pub new_item : (ℕ → ℕ) → NameState → ℕ → Item
unfolding c_string inet_ntop
new_item chunk named data_at = record {
  domain = c_string name_room named.out 0;
  ip = inet_ntop chunk data_at;
}

-- What stands behind the name, which is taken to be two bytes long: type, class, time to live,
-- the length of the data, and the data. A record of another type is left at its data.
unfoldable pub take_record : ℕ → (ℕ → ℕ) → NameState → Walk → Option Walk
unfolding get_u16 new_item parse_name zeroed
take_record fuel chunk named w =
    let at = w.ptr + 2 in
    let datalen = get_u16 chunk (at + 8) in
    let after = at + 10 + datalen in
    if get_u16 chunk at == 5
    then (parse_name fuel chunk (at + 10) zeroed 0) >>= (λ cname. some (record w { ptr = after }))
    else if get_u16 chunk at == 1
    then some (record {
      ptr = after;
      list = if datalen == 4 then w.list ++ (new_item chunk named (at + 10) ∷ []) else w.list;
    })
    else some (record w { ptr = at + 10 })

unfoldable pub answer_round : ℕ → (ℕ → ℕ) → Walk → Option Walk
unfolding take_record parse_name zeroed
answer_round fuel chunk w = do
  named ← parse_name fuel chunk w.ptr zeroed 0
  take_record fuel chunk named w

unfoldable pub answers_loop : ℕ → ℕ → (ℕ → ℕ) → Walk → Option Walk
unfolding answer_round
answers_loop zero fuel chunk w = some w
answers_loop (suc answers) fuel chunk w = do
  next ← answer_round fuel chunk w
  answers_loop answers fuel chunk next

pub data Response : Type 0 where
  no_list : Response  -- -1
  items : List Item → Response

-- Is there memory for the list? `none`: the fuel ran out.
unfoldable pub parse_response : Bool → ℕ → (ℕ → ℕ) → Option Response
unfolding skip_questions answers_loop get_u16
parse_response memory fuel chunk = do
  ptr ← skip_questions (get_u16 chunk 4) fuel chunk 12
  let walked = answers_loop (get_u16 chunk 6) fuel chunk (record { ptr = ptr; list = [] })
  if memory then walked >>= (λ w. some (items w.list)) else some no_list
