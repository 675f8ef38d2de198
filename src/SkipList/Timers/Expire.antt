-- ===== src/SkipList/Timers/Expire.antt =====
-- expire_timer runs the handlers of the timers that are due, earliest first, and takes just those off.
use mathlib.Core.List.{append-nil, append_assoc}
use basic_component_design.Common.{
  sym, ℕ, zero, suc, ◌-◌, ◌<◌, ◌≤◌, ◌≡◌, ◌≢◌, inl, inr, refl, ap, ◌∙◌, true, false, Option, some,
  List, [], ◌∷◌, ◌++◌, ltb, ◌==◌, ◌&&◌, if◌then◌else◌, arith, length, All, All-mono, Bool-cases,
}
use basic_component_design.SkipList.{SkipList, zsl_min, zsl_delete_head, unlink_head, lower}
use basic_component_design.SkipList.Rows.{Chain, Sorted}
use basic_component_design.SkipList.Find.{Ordered}
use basic_component_design.SkipList.Dropped.{dropped}
use basic_component_design.SkipList.Unlink.{unlink_head-Unlinked}
use basic_component_design.SkipList.Remove.{zsl_min-first, zsl_delete_head-Ordered}
use basic_component_design.SkipList.Timers.{Run, expire_loop, expire_timer}
use mathlib.Core.Path.{subst}
use native.Mathlib.Decide.{dec_lt}

unlink_head-score : (n x : ℕ) (s : SkipList) → (unlink_head n x s).score ≡ s.score
unlink_head-score n x s = let (h, l, v, c) = (unlink_head-Unlinked n x s).same in c

lower-score : (n : ℕ) (s : SkipList) → (lower n s).score ≡ s.score
unfolding lower
lower-score zero s = refl
lower-score (suc n) s = elim (Bool-cases (ltb 1 s.level && s.forward s.header (s.level - 1) == 0)) [
  | inl t ↦ rw (lower, t) (lower-score n (record s { level = s.level - 1 }))
  | inr f ↦ rw (lower, f) refl
]

pub zsl_delete_head-score : (s : SkipList) → (zsl_delete_head s).score ≡ s.score
unfolding zsl_delete_head
zsl_delete_head-score s = elim (Bool-cases (zsl_min s == 0)) [
  | inl t ↦ rw (zsl_delete_head, t) refl
  | inr f ↦
      rw (zsl_delete_head, f)
        (lower-score s.level (unlink_head s.level (zsl_min s) s)
          ∙ unlink_head-score s.level (zsl_min s) s)
]

-- What expire_timer comes to from the nodes `q`, with `before` the handlers that ran already and
-- `n` nodes counted.
pub record Expires (now n : ℕ) (score : ℕ → ℕ) (q before : List ℕ) (end : Option Run) : Type 0 where
  pub run : Run
  pub ends : end ≡ some run
  pub due : List ℕ
  pub left : List ℕ
  pub parts : q ≡ due ++ left
  pub all_due : All (λ x. score x ≤ now) due
  pub none_due : All (λ x. now < score x) left
  pub in_order : run.fired ≡ before ++ due
  pub rows : ℕ → List ℕ
  pub ordered : Ordered run.list rows
  pub first_row : rows 0 ≡ left
  pub same_score : run.list.score ≡ score
  pub counted : run.list.length ≡ n - length due

module _ {s : SkipList} {rows : ℕ → List ℕ} (o : Ordered s rows) where
  zsl_min-none : rows 0 ≡ [] → zsl_min s ≡ 0
  unfolding zsl_min
  zsl_min-none e = subst (Chain s.forward 0 s.header) e (o.chain 0 (omega arith))

  later-All :
      {now : ℕ} (x : ℕ) (xs : List ℕ)
      → rows 0 ≡ x ∷ xs
      → now < s.score x
      → All (λ y. now < s.score y) (x ∷ xs)
  later-All {now} x xs e lt =
      let (le, _) = subst (Sorted s.score) e (o.sorted 0 (omega arith)) in
      (lt, All-mono (λ y. s.score x ≤ s.score y) (λ y. now < s.score y) xs (λ y h. omega arith) le)

module _ (call : ℕ → SkipList → SkipList) (quiet : (x : ℕ) (s : SkipList) → call x s ≡ s)
    (now : ℕ) where
  -- One turn, with the first node given.
  abbrev turn_at : ℕ → ℕ → Run → Option Run
  turn_at fuel x r =
      let rest =
        expire_loop call fuel now
          (record { list = zsl_delete_head (call x r.list); fired = r.fired ++ (x ∷ []) }) in
      if x == 0 then some r else if ltb now (r.list.score x) then some r else rest

  expire_loop-turn_at :
      (fuel x : ℕ) (r : Run)
      → zsl_min r.list ≡ x
      → expire_loop call (suc fuel) now r ≡ turn_at fuel x r
  unfolding expire_loop
  expire_loop-turn_at fuel x r m = ap (λ v. turn_at fuel v r) m

  turn_at-due :
      (fuel x : ℕ) (r : Run)
      → x ≢ 0
      → r.list.score x ≤ now
      → turn_at fuel x r
        ≡ expire_loop call fuel now
            (record { list = zsl_delete_head r.list; fired = r.fired ++ (x ∷ []) })
  turn_at-due fuel x r nz le =
      let z : (x == 0) ≡ false = ground arith in
      let t : ltb now (r.list.score x) ≡ false = ground arith in
      rw (z, t)
        (ap
          (λ (s : SkipList).
            expire_loop call fuel now
              (record { list = zsl_delete_head s; fired = r.fired ++ (x ∷ []) }))
          (quiet x r.list))

  turn_at-later : (fuel x : ℕ) (r : Run) → x ≢ 0 → now < r.list.score x → turn_at fuel x r ≡ some r
  turn_at-later fuel x r nz lt =
      let z : (x == 0) ≡ false = ground arith in
      let t : ltb now (r.list.score x) ≡ true = ground arith in rw (z, t) refl

  expire_loop-Expires :
      (fuel : ℕ) (r : Run) (rows : ℕ → List ℕ) (q : List ℕ)
      → Ordered r.list rows
      → rows 0 ≡ q
      → length q < fuel
      → Expires now r.list.length r.list.score q r.fired (expire_loop call fuel now r)
  expire_loop-Expires zero r rows q o e lt = absurd (omega arith)
  expire_loop-Expires (suc fuel) r rows [] o e lt = record {
    run = r;
    ends = expire_loop-turn_at fuel 0 r (zsl_min-none o e);
    due = [];
    left = [];
    parts = refl;
    all_due = tt;
    none_due = tt;
    in_order = sym (append-nil r.fired);
    rows = rows;
    ordered = o;
    first_row = e;
    same_score = refl;
    counted = omega arith;
  }
  expire_loop-Expires (suc fuel) r rows (x ∷ xs) o e lt =
      let (m, nz) = zsl_min-first o xs x e in
      elim (dec_lt now (r.list.score x)) [
        | yes later ↦ record {
          run = r;
          ends = expire_loop-turn_at fuel x r m ∙ turn_at-later fuel x r nz later;
          due = [];
          left = x ∷ xs;
          parts = refl;
          all_due = tt;
          none_due = later-All o x xs e later;
          in_order = sym (append-nil r.fired);
          rows = rows;
          ordered = o;
          first_row = e;
          same_score = refl;
          counted = omega arith;
        }
        | no n_later ↦
            let (o', count, row) = zsl_delete_head-Ordered o x xs e in
            let r' : Run = record { list = zsl_delete_head r.list; fired = r.fired ++ (x ∷ []) } in
            let same = zsl_delete_head-score r.list in
            let h = expire_loop-Expires fuel r' (λ i. dropped x (rows i)) xs o' row (omega arith) in
            record {
              run = h.run;
              ends =
                  expire_loop-turn_at fuel x r m ∙ turn_at-due fuel x r nz (omega arith) ∙ h.ends;
              due = x ∷ h.due;
              left = h.left;
              parts = ap (λ (l : List ℕ). x ∷ l) h.parts;
              all_due =
                  (omega arith, subst (λ (f : ℕ → ℕ). All (λ v. f v ≤ now) h.due) same h.all_due);
              none_due = subst (λ (f : ℕ → ℕ). All (λ v. now < f v) h.left) same h.none_due;
              in_order = h.in_order ∙ append_assoc r.fired (x ∷ []) h.due;
              rows = h.rows;
              ordered = h.ordered;
              first_row = h.first_row;
              same_score = h.same_score ∙ same;
              counted = omega (arith, h.counted, count);
            }
      ]

  -- With handlers that leave the list alone, a list in order and fuel above the number of its
  -- nodes, expire_timer ends: it has run, in their order, the handlers of a first part of the
  -- nodes, whose times are not after `now`; the others, whose times are, are what is left, and the
  -- list is in order.
  pub expire_timer-Expires :
      (fuel : ℕ) (s : SkipList) (rows : ℕ → List ℕ)
      → Ordered s rows
      → length (rows 0) < fuel
      → Expires now s.length s.score (rows 0) [] (expire_timer call fuel now s)
  unfolding expire_timer
  expire_timer-Expires fuel s rows o lt =
      expire_loop-Expires fuel (record { list = s; fired = [] }) rows (rows 0) o refl lt
