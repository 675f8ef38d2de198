-- ===== src/Dns/Response/Answers.antt =====
-- The answers of a response, and the items that they become.
use basic_component_design.Common.{
  ℕ, zero, suc, ◌+◌, ◌≤◌, ◌<◌, ◌≡◌, refl, ap, ◌∙◌, ◌≢◌, inr, List, [], ◌∷◌, ◌++◌, some, length, All,
  All-append, All-mono, arith, true,
}
use basic_component_design.Dns.{get_u16, NameState, parse_name}
use basic_component_design.Dns.Memory.{HasBytes}
use basic_component_design.Dns.Labels.{IsLabel, IsChar, dotted, joined}
use basic_component_design.Dns.Names.{Name, root, label, pointer, parse_name_loop-Name}
use basic_component_design.Dns.Response.{
  Item, inet_ntop, c_string, name_room, zeroed, Walk, new_item, take_record, answer_round,
  answers_loop, items, parse_response,
}
use basic_component_design.Dns.Response.Questions.{Questions, skip_questions-Questions}
use mathlib.Core.List.{append_assoc, append-nil}

-- One answer, from the first offset to the second, and the items that stand for it: the address
-- of a host, or an alias, which gives none. Its name is a pointer.
pub data Answer (chunk : ℕ → ℕ) (turns : ℕ) : ℕ → List Item → ℕ → Type 0 where
  host :
      {p k : ℕ} (l : List ℕ) (ls : List (List ℕ))
      → chunk p ≡ 192
      → Name chunk (chunk (p + 1)) (l ∷ ls) k
      → k < turns
      → length (joined (l ∷ ls)) < name_room
      → get_u16 chunk (p + 2) ≡ 1
      → get_u16 chunk (p + 2 + 8) ≡ 4
      → Answer chunk turns p
          (record { domain = joined (l ∷ ls); ip = inet_ntop chunk (p + 2 + 10) } ∷ [])
          (p + 2 + 10 + 4)
  cname :
      {p k j n : ℕ} (l : List ℕ) (ls ms : List (List ℕ))
      → chunk p ≡ 192
      → Name chunk (chunk (p + 1)) (l ∷ ls) k
      → k < turns
      → length (joined (l ∷ ls)) < name_room
      → get_u16 chunk (p + 2) ≡ 5
      → get_u16 chunk (p + 2 + 8) ≡ n
      → Name chunk (p + 2 + 10) ms j
      → j ≤ turns
      → length (joined ms) < name_room
      → Answer chunk turns p [] (p + 2 + 10 + n)

pub data Answers (chunk : ℕ → ℕ) (turns : ℕ) : ℕ → ℕ → List Item → Type 0 where
  none_left : {p : ℕ} → Answers chunk turns p 0 []
  answer :
      {p n q : ℕ} {here rest : List Item}
      → Answer chunk turns p here q
      → Answers chunk turns q n rest
      → Answers chunk turns p (suc n) (here ++ rest)

IsText : List ℕ → Type 0
IsText = All (λ c. c ≢ 0)

IsLabel-IsText : (l : List ℕ) → IsLabel l → IsText l
unfolding IsText
IsLabel-IsText l h = All-mono IsChar (λ c. c ≢ 0) l (λ c hc. hc.0) h.2

dotted-IsText : (ls : List (List ℕ)) → All IsLabel ls → IsText (dotted ls)
unfolding IsText
dotted-IsText [] h = tt
dotted-IsText (l ∷ ls) (h, hs) =
    (omega arith, All-append (λ c. c ≢ 0) l (dotted ls) (IsLabel-IsText l h) (dotted-IsText ls hs))

Name-IsLabel :
    {chunk : ℕ → ℕ} {p : ℕ} {ls : List (List ℕ)} {k : ℕ} → Name chunk p ls k → All IsLabel ls
Name-IsLabel (root e) = tt
Name-IsLabel (label l e h held rest) = (h, Name-IsLabel rest)
Name-IsLabel (pointer e rest) = Name-IsLabel rest

joined-IsText : (ls : List (List ℕ)) → All IsLabel ls → IsText (joined ls)
unfolding IsText
joined-IsText [] h = tt
joined-IsText (l ∷ ls) (h, hs) =
    All-append (λ c. c ≢ 0) l (dotted ls) (IsLabel-IsText l h) (dotted-IsText ls hs)

c_string-HasBytes :
    (text : List ℕ) (room : ℕ) (mem : ℕ → ℕ) (at : ℕ)
    → length text < room
    → IsText text
    → HasBytes mem at text
    → mem (at + length text) ≡ 0
    → c_string room mem at ≡ text
unfolding c_string IsText
c_string-HasBytes text zero mem at lt h held e = absurd (omega arith)
c_string-HasBytes [] (suc room) mem at lt h held e =
    let z : mem at ≡ 0 = (ap mem (omega arith)) ∙ e in rw z refl
c_string-HasBytes (c ∷ cs) (suc room) mem at lt (h, hs) (e, held) z =
    let rest =
      c_string-HasBytes cs room mem (suc at) (omega arith) hs held (ap mem (omega arith) ∙ z) in
    ground (arith, rest)

-- The name that the walk leaves in a zeroed array reads as its labels with a dot between them.
pub parse_name-c_string :
    {chunk : ℕ → ℕ} {p : ℕ} {ls : List (List ℕ)} {k : ℕ}
    → Name chunk p ls k
    → (fuel : ℕ) → k ≤ fuel
    → length (joined ls) < name_room
    → (s : NameState) × (parse_name fuel chunk p zeroed 0 ≡ some s)
      × (c_string name_room s.out 0 ≡ joined ls)
unfolding parse_name zeroed
parse_name-c_string {ls} n fuel le fits =
    let (s, run, w) = parse_name_loop-Name n fuel zeroed 0 le in
    (
      s,
      run,
      c_string-HasBytes (joined ls) name_room s.out 0 fits (joined-IsText ls (Name-IsLabel n))
          w.text_in (w.kept (0 + length (joined ls)) (inr (omega arith))),
    )

answer_round-Answer :
    {chunk : ℕ → ℕ} {turns p q : ℕ} {here : List Item}
    → Answer chunk turns p here q
    → (fuel : ℕ) (list : List Item) → turns ≤ fuel
    → answer_round fuel chunk (record { ptr = p; list = list })
      ≡ some (record { ptr = q; list = list ++ here })
unfolding answer_round take_record new_item
answer_round-Answer {chunk} {p} (host l ls e n lt fits type len) fuel list le =
    let (s, run, text) = parse_name-c_string (pointer e n) fuel (omega arith) fits in
    rw (run, type, len, text) refl
answer_round-Answer {chunk} {p} (cname {n = n} l ls ms e name lt fits type len alias lt' fits') fuel
      list le =
    let (s, run, text) = parse_name-c_string (pointer e name) fuel (omega arith) fits in
    let (s', run', text') = parse_name-c_string alias fuel (omega arith) fits' in
    rw (run, type, run', len, append-nil) refl

answers_loop-Answers :
    {chunk : ℕ → ℕ} {turns p n : ℕ} {all : List Item}
    → Answers chunk turns p n all
    → (fuel : ℕ) (list : List Item) → turns ≤ fuel
    → (w : Walk) × (answers_loop n fuel chunk (record { ptr = p; list = list }) ≡ some w)
      × (w.list ≡ list ++ all)
unfolding answers_loop
answers_loop-Answers {p} none_left fuel list le =
    (record { ptr = p; list = list }, refl, rw append-nil refl)
answers_loop-Answers (answer {here = here} {rest = rest} a more) fuel list le =
    let (w, run, e) = answers_loop-Answers more fuel (list ++ here) le in
    (w, rw (answer_round-Answer a fuel list le) run, e ∙ append_assoc list here rest)

-- A response with any number of questions, whose names have no pointers, and of answers that are
-- addresses of hosts or aliases, each under a pointer to its name that has the bytes 192 and an
-- offset below 256; the names of the answers, spelled out, and those of the aliases have fewer than
-- 128 bytes. For every fuel from `turns` on, which the names bound, `dns_parse_response` returns,
-- when there is memory for the list, one item for each address, in the order of the answers, with
-- the name spelled out through its pointers and the address in decimal, and none for an alias.
-- Pointers with an offset from 256 on and longer names are not spoken of.
pub parse_response-Answers :
    (chunk : ℕ → ℕ) (turns p : ℕ) (all : List Item)
    → Questions chunk turns 12 (get_u16 chunk 4) p
    → Answers chunk turns p (get_u16 chunk 6) all
    → (fuel : ℕ) → turns ≤ fuel
    → parse_response true fuel chunk ≡ some (items all)
unfolding parse_response
parse_response-Answers chunk turns p all qs answers fuel le =
    let (w, run, e) = answers_loop-Answers answers fuel [] le in
    rw (skip_questions-Questions qs fuel le, run) (ap (λ (v : List Item). some (items v)) e)
