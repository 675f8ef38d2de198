-- ===== src/Dns/RoundTrip.antt =====
-- The request on the wire, and the host name read back from it.
use basic_component_design.Common.{
  ℕ, suc, ◌+◌, ◌/◌, ◌%◌, ◌≤◌, ◌<◌, ◌≡◌, refl, ◌∙◌, inl, List, [], ◌∷◌, ◌++◌, some, length,
  length-append, All, arith,
}
use basic_component_design.Dns.{
  create_header, header_bytes, Question, created, create_question, build_request, memcpy, put_u16,
  htons, NameState, parse_name, Header, write_labels,
}
use basic_component_design.Dns.Memory.{
  HasBytes, bytes_at, HasBytes-append, HasBytes-left, HasBytes-right, HasBytes-kept,
  memcpy-HasBytes, memcpy_out, put_u16_out,
}
use basic_component_design.Dns.Labels.{IsLabel, joined, wire, length-wire, write_labels-HasBytes}
use basic_component_design.Dns.Names.{Name, root, label, Written, parse_name_loop-Name}

-- A query as RFC 1035 lays it out: the id, the flag for recursion, one question and nothing else;
-- the name; type A, class IN.
abbrev pub header_wire : ℕ → List ℕ
header_wire random =
    (random % 256) ∷ (random / 256 % 256) ∷ 1 ∷ 0 ∷ 0 ∷ 1 ∷ 0 ∷ 0 ∷ 0 ∷ 0 ∷ 0 ∷ 0 ∷ []

abbrev pub query : ℕ → List (List ℕ) → List ℕ
query random labels = header_wire random ++ (wire labels ++ (0 ∷ 1 ∷ 0 ∷ 1 ∷ []))

create_header-wire :
    (random : ℕ) → HasBytes (header_bytes (create_header random)) 0 (header_wire random)
unfolding create_header header_bytes put_u16 htons
create_header-wire random = ground arith

module _ (h : Header) (q : Question) (request : ℕ → ℕ) where
  abbrev with_header : ℕ → ℕ
  with_header = memcpy request 0 (header_bytes h) 0 12

  abbrev with_name : ℕ → ℕ
  with_name = memcpy with_header 12 q.qname 0 q.length_of

  abbrev with_type : ℕ → ℕ
  with_type = put_u16 with_name (12 + q.length_of) q.qtype

  pub build_request_before :
      (j : ℕ) → j < 12 + q.length_of → (build_request h q request).0 j ≡ with_name j
  unfolding build_request
  build_request_before j lt =
      put_u16_out with_type (12 + q.length_of + 2) q.qclass j (omega arith) (omega arith)
      ∙ put_u16_out with_name (12 + q.length_of) q.qtype j (omega arith) (omega arith)

  abbrev tail_wire : List ℕ
  tail_wire =
      (q.qtype % 256) ∷ (q.qtype / 256 % 256) ∷ (q.qclass % 256) ∷ (q.qclass / 256 % 256) ∷ []

  build_request_tail : HasBytes (build_request h q request).0 (12 + q.length_of) tail_wire
  unfolding build_request put_u16
  build_request_tail = ground arith

  build_request_name :
      (xs : List ℕ)
      → length xs ≡ q.length_of
      → HasBytes q.qname 0 xs
      → HasBytes (build_request h q request).0 12 xs
  build_request_name xs e held =
      HasBytes-kept with_name _ 12 xs (λ j ge lt. build_request_before j (omega arith))
        (memcpy-HasBytes with_header 12 q.qname 0 q.length_of xs (omega arith) held)

  build_request_header :
      (xs : List ℕ)
      → length xs ≡ 12
      → HasBytes (header_bytes h) 0 xs
      → HasBytes (build_request h q request).0 0 xs
  build_request_header xs e held =
      HasBytes-kept with_header _ 0 xs
        (λ j ge lt.
          build_request_before j (omega arith)
          ∙ memcpy_out with_header 12 q.qname 0 q.length_of j (inl (omega arith)))
        (memcpy-HasBytes request 0 (header_bytes h) 0 12 xs (omega arith) held)

  pub request-HasBytes :
      (hs ns : List ℕ)
      → length hs ≡ 12
      → length ns ≡ q.length_of
      → HasBytes (header_bytes h) 0 hs
      → HasBytes q.qname 0 ns
      → HasBytes (build_request h q request).0 0 (hs ++ (ns ++ tail_wire))
  request-HasBytes hs ns eh en held_h held_n =
      HasBytes-append _ 0 hs _ (build_request_header hs eh held_h) (
        bytes_at _ {at = 12} {to = 0 + length hs} _ (omega arith) (
          HasBytes-append _ 12 ns _ (build_request_name ns en held_n) (
            bytes_at (build_request h q request).0 {at = 12 + q.length_of} {to = 12 + length ns}
              tail_wire (omega arith) build_request_tail)))

pub wire-Name :
    (mem : ℕ → ℕ) (p : ℕ) (ls : List (List ℕ))
    → All IsLabel ls
    → HasBytes mem p (wire ls)
    → Name mem p ls (suc (length ls))
wire-Name mem p [] h held = root held.0
wire-Name mem p (l ∷ ls) (h, hs) (e, held) =
    let held' = bytes_at mem (l ++ wire ls) (omega arith) held in
    label l e h (HasBytes-left mem (p + 1) l (wire ls) held')
      (wire-Name mem (p + 1 + length l) ls hs (HasBytes-right mem (p + 1) l (wire ls) held'))

module _ (block request : ℕ → ℕ) (random : ℕ) (l : List ℕ) (ls : List (List ℕ)) (h : IsLabel l)
    (hs : All IsLabel ls) where
  abbrev hostname : List ℕ
  hostname = joined (l ∷ ls)

  abbrev question : Question
  question = record {
    length_of = length hostname + 2;
    qtype = htons 1;
    qclass = htons 1;
    qname = write_labels (length hostname + 1) hostname block 0;
  }

  length-query : length (query random (l ∷ ls)) ≡ length hostname + 18
  length-query = omega (arith, length-append (wire (l ∷ ls)) (0 ∷ 1 ∷ 0 ∷ 1 ∷ []), length-wire l ls)

  question-created : create_question (some block) hostname ≡ created question
  unfolding create_question
  question-created = refl

  question-bytes :
      HasBytes (build_request (create_header random) question request).0 0 (query random (l ∷ ls))
  unfolding htons
  question-bytes =
      request-HasBytes (create_header random) question request (header_wire random) (wire (l ∷ ls))
        refl (length-wire l ls) (create_header-wire random)
        (write_labels-HasBytes l ls (length hostname + 1) block 0 h hs (omega arith))

  question-count :
      (build_request (create_header random) question request).1 ≡ length (query random (l ∷ ls))
  unfolding build_request
  question-count = omega (arith, length-query)

  -- For a host name of labels of 1 to 63 bytes without dots and NULs, with a dot between them,
  -- whatever the block from `malloc` and the request buffer held before: `dns_create_question`
  -- succeeds, the request that `dns_build_request` writes is, byte for byte, the query of RFC 1035
  -- for that name (header, labels after their lengths, zero, type A, class IN), and the length
  -- that it returns is the number of those bytes.
  pub build_request-query :
      (q : Question) × (create_question (some block) hostname ≡ created q)
      × HasBytes (build_request (create_header random) q request).0 0 (query random (l ∷ ls))
      × ((build_request (create_header random) q request).1 ≡ length (query random (l ∷ ls)))
  build_request-query = (question, question-created, question-bytes, question-count)

  -- For a host name of labels of 1 to 63 bytes without dots and NULs, with a dot between them:
  -- `dns_parse_name` on the request that `dns_create_question` and `dns_build_request` make of it,
  -- from the question on and with a turn for each label and one more, ends, writes the host name
  -- into `out`, counts its bytes, and writes no other byte; so `out` needs no more room than that.
  pub parse_name-build_request :
      (fuel : ℕ) (out : ℕ → ℕ)
      → length ls + 2 ≤ fuel
      → (q : Question) × (create_question (some block) hostname ≡ created q)
        × (s : NameState) × (parse_name fuel
              (build_request (create_header random) q request).0
              12
              out
              0
            ≡ some s)
        × Written out 0 hostname s
  unfolding parse_name
  parse_name-build_request fuel out le =
      let mem = (build_request (create_header random) question request).0 in
      let name : HasBytes mem 12 (wire (l ∷ ls)) =
        HasBytes-left mem 12 (wire (l ∷ ls)) (0 ∷ 1 ∷ 0 ∷ 1 ∷ []) (
          HasBytes-right mem 0 (header_wire random) (wire (l ∷ ls) ++ (0 ∷ 1 ∷ 0 ∷ 1 ∷ []))
            question-bytes) in
      let (s, run, w) =
        parse_name_loop-Name (wire-Name mem 12 (l ∷ ls) (h, hs) name) fuel out 0 (omega arith) in
      (question, question-created, s, run, w)
