-- ===== src/Dns/Names.antt =====
-- Names in a response: their form, with compression pointers, and what `dns_parse_name` makes of it.
use basic_component_design.Common.{
  ℕ, zero, suc, ◌+◌, ◌≤◌, ◌<◌, ◌≡◌, refl, ap, ◌∙◌, ◌≢◌, ◌⊎◌, inl, List, [], ◌∷◌, ◌++◌, none, some,
  Bool, true, false, ◌&&◌, not, length, length-append, update, update_self, arith, ◌==◌,
}
use basic_component_design.Dns.{
  is_pointer, NameState, copy_label, name_round, parse_name_loop, memcpy,
}
use basic_component_design.Dns.Memory.{
  HasBytes, bytes_at, HasBytes-append, HasBytes-kept, memcpy-HasBytes, memcpy_out,
}
use basic_component_design.Dns.Labels.{IsLabel, joined}

-- A name at an offset, its labels and the turns that the walk over it takes. A pointer is one into
-- the first 256 bytes, to a name that is not empty.
pub data Name (chunk : ℕ → ℕ) : ℕ → List (List ℕ) → ℕ → Type 0 where
  root : {p : ℕ} → chunk p ≡ 0 → Name chunk p [] 1
  label :
      {p : ℕ} (l : List ℕ) {ls : List (List ℕ)} {k : ℕ}
      → chunk p ≡ length l
      → IsLabel l
      → HasBytes chunk (p + 1) l
      → Name chunk (p + 1 + length l) ls k
      → Name chunk p (l ∷ ls) (suc k)
  pointer :
      {p : ℕ} {l : List ℕ} {ls : List (List ℕ)} {k : ℕ}
      → chunk p ≡ 192
      → Name chunk (chunk (p + 1)) (l ∷ ls) k
      → Name chunk p (l ∷ ls) (suc k)

-- The text stands in `out` from `at` on, `len` counts it, and no other byte has changed.
pub record Written (out : ℕ → ℕ) (at : ℕ) (text : List ℕ) (s : NameState) : Type 0 where
  pub text_in : HasBytes s.out at text
  pub len_of : s.len ≡ at + length text
  pub kept : (j : ℕ) → (j < at) ⊎ (at + length text ≤ j) → s.out j ≡ out j

plain_below : ℕ → Bool
unfolding is_pointer
plain_below zero = true
plain_below (suc n) = not (is_pointer n) && plain_below n

plain_below_lem : (n i : ℕ) → plain_below n ≡ true → i < n → is_pointer i ≡ false
unfolding plain_below
plain_below_lem zero i e lt = absurd (omega arith)
plain_below_lem (suc n) i e lt = ground (arith, plain_below_lem n i)

is_pointer_small : (i : ℕ) → i < 64 → is_pointer i ≡ false
unfolding plain_below is_pointer
is_pointer_small i lt = plain_below_lem 64 i refl lt

abbrev from_here : ℕ → (ℕ → ℕ) → ℕ → NameState
from_here p out at = record { ptr = p; out = out; pos = at; len = at }

module _ (chunk : ℕ → ℕ) (p : ℕ) (out : ℕ → ℕ) (at : ℕ) where
  round_root : chunk p ≡ 0 → name_round chunk (from_here p out at) ≡ none
  unfolding name_round
  round_root e = rw e refl

  round_pointer :
      chunk p ≡ 192
      → name_round chunk (from_here p out at) ≡ some (from_here (chunk (p + 1)) out at)
  unfolding name_round is_pointer
  round_pointer e = rw e refl

  module _ (l : List ℕ) (e : chunk p ≡ length l) (h : IsLabel l)
      (held : HasBytes chunk (p + 1) l) where
    abbrev copied : ℕ → ℕ
    copied = memcpy out at chunk (p + 1) (length l)

    copied-HasBytes : HasBytes copied at l
    copied-HasBytes = memcpy-HasBytes out at chunk (p + 1) (length l) l (omega arith) held

    copied_out : (j : ℕ) → (j < at) ⊎ (at + length l ≤ j) → copied j ≡ out j
    copied_out = memcpy_out out at chunk (p + 1) (length l)

    round_label :
        name_round chunk (from_here p out at)
        ≡ some (copy_label chunk (length l) (from_here p out at))
    unfolding name_round
    round_label =
        let q = is_pointer_small (length l) h.1 in
        let t : (length l == 0) ≡ false = ground arith in rw (e, t, q) refl

    copy_last :
        chunk (p + 1 + length l) ≡ 0
        → copy_label chunk (length l) (from_here p out at) ≡ record {
          ptr = p + 1 + length l;
          out = copied;
          pos = at + length l;
          len = at + length l;
        }
    unfolding copy_label memcpy
    copy_last z = rw z refl

    copy_more :
        chunk (p + 1 + length l) ≢ 0
        → copy_label chunk (length l) (from_here p out at)
          ≡ from_here (p + 1 + length l) (update copied (at + length l) 46) (at + length l + 1)
    unfolding copy_label memcpy
    copy_more z = let t : (chunk (p + 1 + length l) == 0) ≡ false = ground arith in rw t refl

    last_label : (s : NameState) → Written copied (at + length l) [] s → Written out at (l ++ []) s
    last_label s w = record {
      text_in =
          HasBytes-append s.out at l []
            (HasBytes-kept copied s.out at l (λ j ge lt. w.kept j (inl (omega arith)))
              copied-HasBytes)
            tt;
      len_of = omega (arith, w.len_of, length-append l []);
      kept = λ j far.
          w.kept j (ground (arith, length-append l []))
          ∙ copied_out j (ground (arith, length-append l []));
    }

    more_labels :
        (s : NameState) (text : List ℕ)
        → Written (update copied (at + length l) 46) (at + length l + 1) text s
        → Written out at (l ++ (46 ∷ text)) s
    more_labels s text w = record {
      text_in =
          HasBytes-append s.out at l (46 ∷ text)
            (HasBytes-kept copied s.out at l
              (λ j ge lt. w.kept j (inl (omega arith)) ∙ ground arith) copied-HasBytes)
            (
              w.kept (at + length l) (inl (omega arith)) ∙ update_self copied (at + length l) 46,
              bytes_at s.out text (omega arith) w.text_in,
            );
      len_of = omega (arith, w.len_of, length-append l (46 ∷ text));
      kept = λ j far.
          w.kept j (ground (arith, length-append l (46 ∷ text)))
          ∙ ground (arith, copied_out j, length-append l (46 ∷ text));
    }

Name-shape :
    {chunk : ℕ → ℕ} {p : ℕ} {l : List ℕ} {ls : List (List ℕ)} {k : ℕ}
    → Name chunk p (l ∷ ls) k
    → chunk p ≢ 0
Name-shape (label l e h held rest) = ground arith
Name-shape (pointer e rest) = omega arith

Name-empty : {chunk : ℕ → ℕ} {p k : ℕ} → Name chunk p [] k → chunk p ≡ 0
Name-empty (root e) = e

loop_next :
    (fuel : ℕ) (chunk : ℕ → ℕ) (s next : NameState)
    → name_round chunk s ≡ some next
    → parse_name_loop (suc fuel) chunk s ≡ parse_name_loop fuel chunk next
unfolding parse_name_loop
loop_next fuel chunk s next e = rw (e, parse_name_loop) refl

loop_end :
    (fuel : ℕ) (chunk : ℕ → ℕ) (s : NameState)
    → name_round chunk s ≡ none
    → parse_name_loop (suc fuel) chunk s ≡ some s
unfolding parse_name_loop
loop_end fuel chunk s e = rw (e, parse_name_loop) refl

-- The walk ends within the turns that the name takes, with its labels and a dot between them.
pub parse_name_loop-Name :
    {chunk : ℕ → ℕ} {p : ℕ} {ls : List (List ℕ)} {k : ℕ}
    → Name chunk p ls k
    → (fuel : ℕ) (out : ℕ → ℕ) (at : ℕ) → k ≤ fuel
    → (s : NameState) × (parse_name_loop fuel chunk (from_here p out at) ≡ some s)
      × Written out at (joined ls) s
parse_name_loop-Name (root e) zero out at le = absurd (omega arith)
parse_name_loop-Name (label l e h held rest) zero out at le = absurd (omega arith)
parse_name_loop-Name (pointer e rest) zero out at le = absurd (omega arith)
parse_name_loop-Name {chunk} {p} (root e) (suc fuel) out at le = (
  from_here p out at,
  loop_end fuel chunk _ (round_root chunk p out at e),
  record { text_in = tt; len_of = omega arith; kept = λ j far. refl },
)
parse_name_loop-Name {chunk} {p} (pointer e rest) (suc fuel) out at le =
    let (s, run, w) = parse_name_loop-Name rest fuel out at (omega arith) in
    (s, loop_next fuel chunk _ _ (round_pointer chunk p out at e) ∙ run, w)
parse_name_loop-Name {chunk} {p} {ls = _ ∷ []} (label l e h held rest) (suc fuel) out at le =
    let (s, run, w) =
      parse_name_loop-Name rest fuel (copied chunk p out at l e h held) (at + length l)
        (omega arith) in
    (
      s,
      loop_next fuel chunk _ _ (
            round_label chunk p out at l e h held
            ∙ ap some (copy_last chunk p out at l e h held (Name-empty rest)))
          ∙ run,
      last_label chunk p out at l e h held s w,
    )
parse_name_loop-Name {chunk} {p} {ls = _ ∷ m ∷ ls} (label l e h held rest) (suc fuel) out at le =
    let (s, run, w) =
      parse_name_loop-Name rest fuel (update (copied chunk p out at l e h held) (at + length l) 46)
        (at + length l + 1) (omega arith) in
    (
      s,
      loop_next fuel chunk _ _ (
            round_label chunk p out at l e h held
            ∙ ap some (copy_more chunk p out at l e h held (Name-shape rest)))
          ∙ run,
      more_labels chunk p out at l e h held s (joined (m ∷ ls)) w,
    )
