-- ===== src/Dns/Response/Questions.antt =====
-- The questions of a response, and where the walk over them ends.
use basic_component_design.Common.{
  ℕ, zero, suc, ◌+◌, ◌≤◌, ◌<◌, ◌≡◌, refl, ap, ◌∙◌, List, [], ◌∷◌, some, length, length-append, All,
  arith, ◌==◌, false,
}
use basic_component_design.Dns.Memory.{HasBytes, bytes_at, HasBytes-right}
use basic_component_design.Dns.Labels.{IsLabel, wire}
use basic_component_design.Dns.Response.{skip_name, skip_questions}

-- `n` questions from the first offset to the second: a name without pointers of fewer labels than
-- there are turns, its type and its class.
pub data Questions (chunk : ℕ → ℕ) (turns : ℕ) : ℕ → ℕ → ℕ → Type 0 where
  none_left : {p : ℕ} → Questions chunk turns p 0 p
  question :
      {p n q : ℕ} (ls : List (List ℕ))
      → length ls < turns
      → All IsLabel ls
      → HasBytes chunk p (wire ls)
      → Questions chunk turns (p + length (wire ls) + 4) n q
      → Questions chunk turns p (suc n) q

skip_name_end :
    (fuel : ℕ) (chunk : ℕ → ℕ) (p : ℕ) → chunk p ≡ 0 → skip_name (suc fuel) chunk p ≡ some (p + 1)
unfolding skip_name
skip_name_end fuel chunk p e = rw (e, skip_name) (ap (λ (v : ℕ). some (p + (v + 1))) e)

skip_name_label :
    (fuel : ℕ) (chunk : ℕ → ℕ) (p n : ℕ)
    → chunk p ≡ n
    → 0 < n
    → skip_name (suc fuel) chunk p ≡ skip_name fuel chunk (p + (n + 1))
unfolding skip_name
skip_name_label fuel chunk p n e lt =
    let t : (n == 0) ≡ false = ground arith in
    rw (e, skip_name, t) (ap (λ (v : ℕ). skip_name fuel chunk (p + (v + 1))) e)

skip_name-wire :
    (ls : List (List ℕ)) (fuel : ℕ) (chunk : ℕ → ℕ) (p : ℕ)
    → length ls < fuel
    → All IsLabel ls
    → HasBytes chunk p (wire ls)
    → skip_name fuel chunk p ≡ some (p + length (wire ls))
skip_name-wire ls zero chunk p lt h held = absurd (omega arith)
skip_name-wire [] (suc fuel) chunk p lt h (e, held) = skip_name_end fuel chunk p e
skip_name-wire (l ∷ ls) (suc fuel) chunk p lt (h, hs) (e, held) =
    skip_name_label fuel chunk p (length l) e h.0
    ∙ skip_name-wire ls fuel chunk (p + (length l + 1)) (omega arith) hs
        (bytes_at chunk (wire ls) (omega arith) (HasBytes-right chunk (suc p) l (wire ls) held))
    ∙ ap some (omega (arith, length-append l (wire ls)))

pub skip_questions-Questions :
    {chunk : ℕ → ℕ} {turns p n q : ℕ}
    → Questions chunk turns p n q
    → (fuel : ℕ) → turns ≤ fuel
    → skip_questions n fuel chunk p ≡ some q
unfolding skip_questions
skip_questions-Questions none_left fuel le = refl
skip_questions-Questions {chunk} {p} (question ls lt h held rest) fuel le =
    rw (skip_name-wire ls fuel chunk p (omega arith) h held) (skip_questions-Questions rest fuel le)
