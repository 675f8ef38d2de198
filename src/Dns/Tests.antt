-- ===== src/Dns/Tests.antt =====
-- Runs of the DNS client on small names and responses, and the theorems at them.
use basic_component_design.Common.{
  ℕ, zero, suc, ◌≡◌, refl, List, [], ◌∷◌, none, some, true, All, if◌then◌else◌, ◌==◌, arith,
}
use basic_component_design.Dns.{
  store, create_question, create_header, build_request, Question, created, NameState, parse_name,
  parse_name_loop, get_u16,
}
use basic_component_design.Dns.Memory.{HasBytes}
use basic_component_design.Dns.Labels.{IsLabel, wire}
use basic_component_design.Dns.Names.{Written, pointer}
use basic_component_design.Dns.RoundTrip.{wire-Name, build_request-query, parse_name-build_request}
use basic_component_design.Dns.Response.{inet_ntop, Item, items, parse_response}
use basic_component_design.Dns.Response.Questions.{Questions, question}
use basic_component_design.Dns.Response.Answers.{
  Answers, answer, host, cname, parse_response-Answers,
}

-- Memory with something in it already.
abbrev junk : ℕ → ℕ
junk j = 7

-- "a.bc"
abbrev label_a : List ℕ
label_a = 97 ∷ []

abbrev label_bc : List ℕ
label_bc = 98 ∷ 99 ∷ []

a-IsLabel : IsLabel label_a
a-IsLabel = ground arith

bc-IsLabel : All IsLabel (label_bc ∷ [])
bc-IsLabel = ground arith

build_request-query_example :
    (q : Question) × (create_question (some junk) (97 ∷ 46 ∷ 98 ∷ 99 ∷ []) ≡ created q)
    × HasBytes (build_request (create_header 258) q junk).0 0 (
        2 ∷ 1 ∷ 1 ∷ 0 ∷ 0 ∷ 1 ∷ 0 ∷ 0 ∷ 0 ∷ 0 ∷ 0 ∷ 0 ∷ 1 ∷ 97 ∷ 2 ∷ 98 ∷ 99 ∷ 0 ∷ 0 ∷ 1 ∷ 0 ∷ 1
        ∷ [])
    × ((build_request (create_header 258) q junk).1 ≡ 22)
build_request-query_example =
    build_request-query junk junk 258 label_a (label_bc ∷ []) a-IsLabel bc-IsLabel

parse_name-build_request_example :
    (q : Question) × (create_question (some junk) (97 ∷ 46 ∷ 98 ∷ 99 ∷ []) ≡ created q)
    × (s : NameState) × (parse_name 3 (build_request (create_header 258) q junk).0 12 junk 0
        ≡ some s)
    × Written junk 0 (97 ∷ 46 ∷ 98 ∷ 99 ∷ []) s
parse_name-build_request_example =
    parse_name-build_request junk junk 258 label_a (label_bc ∷ []) a-IsLabel bc-IsLabel 3 junk
      (omega arith)

-- One question "a.bc", then an alias and an address, both under a pointer to that name.
abbrev alias_and_host : List ℕ
alias_and_host =
    0 ∷ 9 ∷ 129 ∷ 128 ∷ 0 ∷ 1 ∷ 0 ∷ 2 ∷ 0 ∷ 0 ∷ 0 ∷ 0 ∷ 1 ∷ 97 ∷ 2 ∷ 98 ∷ 99 ∷ 0 ∷ 0 ∷ 1 ∷ 0 ∷ 1
    ∷ 192 ∷ 12 ∷ 0 ∷ 5 ∷ 0 ∷ 1 ∷ 0 ∷ 0 ∷ 0 ∷ 60 ∷ 0 ∷ 2 ∷ 192 ∷ 14 ∷ 192 ∷ 12 ∷ 0 ∷ 1 ∷ 0 ∷ 1 ∷ 0
    ∷ 0 ∷ 0 ∷ 60 ∷ 0 ∷ 4 ∷ 93 ∷ 184 ∷ 216 ∷ 34 ∷ []

abbrev response : ℕ → ℕ
unfolding store
response = store junk 0 alias_and_host

-- "a.bc" at "93.184.216.34"
abbrev host_item : Item
host_item = record {
  domain = 97 ∷ 46 ∷ 98 ∷ 99 ∷ [];
  ip = 57 ∷ 51 ∷ 46 ∷ 49 ∷ 56 ∷ 52 ∷ 46 ∷ 50 ∷ 49 ∷ 54 ∷ 46 ∷ 51 ∷ 52 ∷ [];
}

question_name : HasBytes response 12 (wire (label_a ∷ label_bc ∷ []))
unfolding response
question_name = (refl, (refl, (refl, (refl, (refl, (refl, tt))))))

alias_name : HasBytes response 14 (wire (label_bc ∷ []))
unfolding response
alias_name = (refl, (refl, (refl, (refl, tt))))

one_question : Questions response 4 12 1 22
one_question =
    question (label_a ∷ label_bc ∷ []) (omega arith) (a-IsLabel, bc-IsLabel) question_name
      Questions.none_left

alias_then_host : Answers response 4 22 2 (host_item ∷ [])
unfolding response get_u16 inet_ntop
alias_then_host =
    answer
      (cname {n = 2} label_a (label_bc ∷ []) (label_bc ∷ []) refl
        (wire-Name response 12 (label_a ∷ label_bc ∷ []) (a-IsLabel, bc-IsLabel) question_name)
        (omega arith) (omega arith) refl refl
        (pointer refl (wire-Name response 14 (label_bc ∷ []) bc-IsLabel alias_name)) (omega arith)
        (omega arith))
      (answer
        (host label_a (label_bc ∷ []) refl
          (wire-Name response 12 (label_a ∷ label_bc ∷ []) (a-IsLabel, bc-IsLabel) question_name)
          (omega arith) (omega arith) refl refl)
        Answers.none_left)

parse_response-Answers_example : parse_response true 4 response ≡ some (items (host_item ∷ []))
unfolding response get_u16
parse_response-Answers_example =
    parse_response-Answers response 4 22 (host_item ∷ []) one_question alias_then_host 4
      (omega arith)

-- A name that ends in a dot: the length counts a byte that nothing has written.
trailing_dot :
    (q : Question) × (create_question (some junk) (97 ∷ 46 ∷ []) ≡ created q)
    × (q.length_of ≡ 4)
    × (q.qname 2 ≡ 0)
    × (q.qname 3 ≡ 7)
unfolding create_question
trailing_dot = (_, refl, refl, refl, refl)

-- A pointer to itself: no fuel is enough.
abbrev self_pointer : ℕ → ℕ
self_pointer j = if j == 0 then 192 else 0

self_pointer_loops :
    (fuel : ℕ) (out : ℕ → ℕ) (len pos : ℕ)
    → parse_name_loop fuel self_pointer (record { ptr = 0; out = out; pos = pos; len = len }) ≡ none
unfolding parse_name_loop
self_pointer_loops zero out len pos = refl
self_pointer_loops (suc fuel) out len pos = self_pointer_loops fuel out len len

-- A pointer to offset 256: the name at 0, "a", is read instead.
abbrev far_pointer : ℕ → ℕ
unfolding store
far_pointer = store (store (store junk 0 (1 ∷ 97 ∷ 0 ∷ [])) 4 (193 ∷ 0 ∷ [])) 256 (1 ∷ 98 ∷ 0 ∷ [])

far_pointer_misread :
    (s : NameState) × (parse_name 5 far_pointer 4 junk 0 ≡ some s) × (s.out 0 ≡ 97) × (s.len ≡ 1)
unfolding parse_name far_pointer
far_pointer_misread = (_, refl, refl, refl)

-- An answer of another type before the address: its four bytes of data are read as the next record,
-- and the address is lost.
abbrev other_and_host : List ℕ
other_and_host =
    0 ∷ 9 ∷ 129 ∷ 128 ∷ 0 ∷ 1 ∷ 0 ∷ 2 ∷ 0 ∷ 0 ∷ 0 ∷ 0 ∷ 1 ∷ 97 ∷ 0 ∷ 0 ∷ 1 ∷ 0 ∷ 1 ∷ 192 ∷ 12 ∷ 0
    ∷ 99 ∷ 0 ∷ 1 ∷ 0 ∷ 0 ∷ 0 ∷ 60 ∷ 0 ∷ 4 ∷ 0 ∷ 0 ∷ 0 ∷ 0 ∷ 192 ∷ 12 ∷ 0 ∷ 1 ∷ 0 ∷ 1 ∷ 0 ∷ 0 ∷ 0
    ∷ 60 ∷ 0 ∷ 4 ∷ 93 ∷ 184 ∷ 216 ∷ 34 ∷ []

other_type_loses_host : parse_response true 5 (store junk 0 other_and_host) ≡ some (items [])
unfolding parse_response store
other_type_loses_host = refl
