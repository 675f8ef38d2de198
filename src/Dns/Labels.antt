-- ===== src/Dns/Labels.antt =====
-- The name in the question: `dns_create_question` lays a dotted name out label by label.
use basic_component_design.Common.{
  ℕ, zero, suc, ◌+◌, ◌%◌, ◌≤◌, ◌<◌, ◌≡◌, refl, ap, ◌∙◌, ◌≢◌, List, [], ◌∷◌, ◌++◌, some, length,
  length-append, All, update, arith,
}
use basic_component_design.Dns.{skip_dots, take_token, strtok, write_label, write_labels}
use basic_component_design.Dns.Memory.{
  HasBytes, bytes_at, bytes_in, HasBytes-append, HasBytes-kept, HasBytes-left, store-HasBytes,
  store_before,
}
use mathlib.Core.List.{append-nil}

-- A character of a label, and a label as DNS has it: 1 to 63 bytes.
abbrev pub IsChar : ℕ → Type 0
IsChar c = (c ≢ 0) × (c ≢ 46)

abbrev pub IsLabel : List ℕ → Type 0
IsLabel l = (0 < length l) × (length l < 64) × All IsChar l

-- The labels of a name with a dot between them, and each after a dot.
abbrev pub dotted : List (List ℕ) → List ℕ
dotted [] = []
dotted (l ∷ ls) = 46 ∷ (l ++ dotted ls)

abbrev pub joined : List (List ℕ) → List ℕ
joined [] = []
joined (l ∷ ls) = l ++ dotted ls

-- Each label after its length, and a zero.
abbrev pub wire : List (List ℕ) → List ℕ
wire [] = 0 ∷ []
wire (l ∷ ls) = length l ∷ (l ++ wire ls)

pub length-wire :
    (l : List ℕ) (ls : List (List ℕ)) → length (wire (l ∷ ls)) ≡ length (joined (l ∷ ls)) + 2
length-wire l [] = omega (arith, length-append l [], length-append l (0 ∷ []))
length-wire l (m ∷ ls) =
    omega
      (arith, length-append l (wire (m ∷ ls)), length-append l (dotted (m ∷ ls)), length-wire m ls)

take_token_last : (l : List ℕ) → All IsChar l → take_token l ≡ (l, [])
unfolding take_token
take_token_last [] h = refl
take_token_last (c ∷ cs) (hc, h) = ground (arith, take_token_last cs h)

take_token_dot : (l rest : List ℕ) → All IsChar l → take_token (l ++ (46 ∷ rest)) ≡ (l, rest)
unfolding take_token
take_token_dot [] rest h = refl
take_token_dot (c ∷ cs) rest (hc, h) = ground (arith, take_token_dot cs rest h)

strtok-take_token : (c : ℕ) (cs : List ℕ) → c ≢ 46 → strtok (c ∷ cs) ≡ some (take_token (c ∷ cs))
unfolding strtok skip_dots
strtok-take_token c cs h = ground arith

-- `strtok` takes the first label and leaves the rest of the name.
pub strtok-joined :
    (l : List ℕ) (ls : List (List ℕ)) → IsLabel l → strtok (joined (l ∷ ls)) ≡ some (l, joined ls)
strtok-joined [] ls h = absurd (omega arith)
strtok-joined (c ∷ cs) [] h =
    rw append-nil (strtok-take_token c cs h.2.0.1 ∙ ap some (take_token_last (c ∷ cs) h.2))
strtok-joined (c ∷ cs) (m ∷ ls) h =
    strtok-take_token c (cs ++ dotted (m ∷ ls)) h.2.0.1
    ∙ ap some (take_token_dot (c ∷ cs) (m ++ dotted ls) h.2)

write_label-HasBytes :
    (qname : ℕ → ℕ) (at : ℕ) (l : List ℕ)
    → length l < 64
    → HasBytes (write_label qname at l) at (length l ∷ (l ++ (0 ∷ [])))
unfolding write_label
write_label-HasBytes qname at l h = (
  store_before (update qname at (length l % 256)) (at + 1) (l ++ (0 ∷ [])) at (omega arith)
      ∙ ground arith,
  let e : suc at ≡ at + 1 = omega arith in
      rw e (store-HasBytes (update qname at (length l % 256)) (at + 1) (l ++ (0 ∷ []))),
)

write_label_before :
    (qname : ℕ → ℕ) (at : ℕ) (l : List ℕ) (j : ℕ) → j < at → write_label qname at l j ≡ qname j
unfolding write_label
write_label_before qname at l j lt =
    store_before (update qname at (length l % 256)) (at + 1) (l ++ (0 ∷ [])) j (omega arith)
    ∙ ground arith

write_labels_step :
    (fuel : ℕ) (l : List ℕ) (ls : List (List ℕ)) (qname : ℕ → ℕ) (at : ℕ)
    → IsLabel l
    → write_labels (suc fuel) (joined (l ∷ ls)) qname at
      ≡ write_labels fuel (joined ls) (write_label qname at l) (at + 1 + length l)
unfolding write_labels
write_labels_step fuel l ls qname at h = rw (strtok-joined l ls h, write_labels) refl

write_labels_end : (fuel : ℕ) (qname : ℕ → ℕ) (at : ℕ) → write_labels fuel [] qname at ≡ qname
unfolding write_labels strtok skip_dots
write_labels_end zero qname at = refl
write_labels_end (suc fuel) qname at = refl

write_labels_before :
    (ls : List (List ℕ)) (fuel : ℕ) (qname : ℕ → ℕ) (at j : ℕ)
    → All IsLabel ls
    → j < at
    → write_labels fuel (joined ls) qname at j ≡ qname j
write_labels_before [] fuel qname at j h lt = rw (write_labels_end fuel qname at) refl
write_labels_before (l ∷ ls) zero qname at j h lt = unfold write_labels in refl
write_labels_before (l ∷ ls) (suc fuel) qname at j (h, hs) lt =
    rw (write_labels_step fuel l ls qname at h) (
      write_labels_before ls fuel (write_label qname at l) (at + 1 + length l) j hs (omega arith)
      ∙ write_label_before qname at l j lt)

length-joined :
    (l : List ℕ) (ls : List (List ℕ)) → length (joined (l ∷ ls)) ≡ length l + length (dotted ls)
length-joined l ls = length-append l (dotted ls)

-- A name of one label or more: its labels, each after its length, and the zero of the last copy.
pub write_labels-HasBytes :
    (l : List ℕ) (ls : List (List ℕ)) (fuel : ℕ) (qname : ℕ → ℕ) (at : ℕ)
    → IsLabel l
    → All IsLabel ls
    → length (joined (l ∷ ls)) ≤ fuel
    → HasBytes (write_labels fuel (joined (l ∷ ls)) qname at) at (wire (l ∷ ls))
write_labels-HasBytes l ls zero qname at h hs le = absurd (omega (arith, length-joined l ls))
write_labels-HasBytes l [] (suc fuel) qname at h hs le =
    bytes_in at (wire (l ∷ []))
      (write_labels_step fuel l [] qname at h
        ∙ write_labels_end fuel (write_label qname at l) (at + 1 + length l))
      (write_label-HasBytes qname at l h.1)
write_labels-HasBytes l (m ∷ ls) (suc fuel) qname at h (hm, hs) le =
    let first = write_label qname at l in
    bytes_in at (wire (l ∷ m ∷ ls)) (write_labels_step fuel l (m ∷ ls) qname at h) (
      HasBytes-append _ at (length l ∷ l) (wire (m ∷ ls))
        (HasBytes-kept first _ at (length l ∷ l)
          (λ j ge lt.
            write_labels_before (m ∷ ls) fuel first (at + 1 + length l) j (hm, hs) (omega arith))
          (HasBytes-left _ at (length l ∷ l) (0 ∷ []) (write_label-HasBytes qname at l h.1)))
        (bytes_at _ (wire (m ∷ ls)) (omega arith) (
          write_labels-HasBytes m ls fuel first (at + 1 + length l) hm hs
            (omega (arith, length-append l (dotted (m ∷ ls)))))))
