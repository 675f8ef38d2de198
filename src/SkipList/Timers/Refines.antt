-- ===== src/SkipList/Timers/Refines.antt =====
-- The timers over the skip list refine a sorted list of nodes.
use basic_component_design.Common.{
  ℕ, zero, suc, ◌+◌, ◌-◌, ◌<◌, ◌≤◌, ◌≡◌, ◌≢◌, inl, inr, refl, ap, sym, ◌∙◌, some, List, [], ◌∷◌,
  ◌++◌, if◌then◌else◌, arith, length, All, All-In, All-intro, In, add_u32, ltb, ◌==◌, true, false,
  Bool-cases, length-append,
}
use basic_component_design.SkipList.{SkipList, zskiplist_maxlevel}
use basic_component_design.SkipList.Rows.{IsPart, In-IsPart, placed}
use basic_component_design.SkipList.Find.{Ordered}
use basic_component_design.SkipList.Create.{zsl_create-Ordered, zsl_create-length}
use basic_component_design.SkipList.Dropped.{dropped}
use basic_component_design.SkipList.First.{FirstAt, FirstAt-le}
use basic_component_design.SkipList.Insert.{inserted, zsl_insert-Ordered}
use basic_component_design.SkipList.Remove.{zsl_delete-Ordered}
use basic_component_design.SkipList.Timers.{Run, init_timer, add_timer, del_timer, expire_timer}
use basic_component_design.SkipList.Timers.Expire.{expire_timer-Expires}
use mathlib.Core.Path.{subst}

-- The part of a sorted list of nodes that is due, and the rest.
abbrev pub due_at : (ℕ → ℕ) → ℕ → List ℕ → List ℕ
due_at score now [] = []
due_at score now (x ∷ xs) =
    let rest = due_at score now xs in if ltb now (score x) then [] else x ∷ rest

abbrev pub left_at : (ℕ → ℕ) → ℕ → List ℕ → List ℕ
left_at score now [] = []
left_at score now (x ∷ xs) =
    let rest = left_at score now xs in if ltb now (score x) then x ∷ xs else rest

-- The skip lists that the timers' functions come to, with handlers that leave the list alone, each
-- with the list of nodes that it stands for. A new timer's node is not in use, and the fuel is
-- above the number of nodes; zslDelete is asked for a node with the time of one that is there.
pub data Reach : SkipList → List ℕ → Type 0 where
  starts :
      (memory : ℕ → ℕ → ℕ) (header default_handler : ℕ)
      → Reach (init_timer memory header default_handler) []
  adds :
      (fuel x level now msec func : ℕ) {s : SkipList} {q : List ℕ}
      → Reach s q
      → length q < fuel
      → (x ≢ 0) × (x ≢ s.header) × All (λ y. y ≢ x) q
      → (1 ≤ level) × (level ≤ zskiplist_maxlevel)
      → Reach (add_timer fuel x level now msec func s) (placed s.score (add_u32 msec now) x q)
  deletes :
      (fuel zn x : ℕ) {s : SkipList} {q : List ℕ}
      → Reach s q
      → length q < fuel
      → FirstAt s.score (s.score zn) x q × (s.score zn ≡ s.score x)
      → Reach (del_timer fuel zn s) (dropped x q)
  expires :
      (fuel now : ℕ) {s : SkipList} {q : List ℕ} {r : Run}
      → Reach s q
      → length q < fuel
      → expire_timer (λ x t. t) fuel now s ≡ some r
      → Reach r.list (left_at s.score now q)

-- The first row is the list that it stands for, whose length it counts.
pub record Stands (s : SkipList) (q : List ℕ) : Type 0 where
  pub rows : ℕ → List ℕ
  pub ordered : Ordered s rows
  pub first_row : rows 0 ≡ q
  pub counted : s.length ≡ length q

length-IsPart : (xs ys : List ℕ) → IsPart xs ys → length xs ≤ length ys
length-IsPart [] ys h = omega arith
length-IsPart (x ∷ xs) [] h = absurd h
length-IsPart (x ∷ xs) (y ∷ ys) (inl (e, h)) = omega (arith, length-IsPart xs ys h)
length-IsPart (x ∷ xs) (y ∷ ys) (inr h) = omega (arith, length-IsPart (x ∷ xs) ys h)

module _ {s : SkipList} {rows : ℕ → List ℕ} (o : Ordered s rows) where
  row_length : (i : ℕ) → i < zskiplist_maxlevel → length (rows i) ≤ length (rows 0)
  row_length zero lt = omega arith
  row_length (suc i) lt =
      omega (arith, length-IsPart (rows (suc i)) (rows i) (o.part i lt), row_length i (omega arith))

  row_In : (y i : ℕ) → i < zskiplist_maxlevel → In y (rows i) → In y (rows 0)
  row_In y zero lt m = m
  row_In y (suc i) lt m =
      row_In y i (omega arith) (In-IsPart y (rows (suc i)) (rows i) (o.part i lt) m)

  row_fresh :
      (x : ℕ)
      → All (λ y. y ≢ x) (rows 0)
      → (i : ℕ) → i < zskiplist_maxlevel
      → All (λ y. y ≢ x) (rows i)
  row_fresh x f i lt =
      All-intro (λ y. y ≢ x) (rows i) (λ y m. All-In (λ v. v ≢ x) (rows 0) f (row_In y i lt m))

length-placed :
    (score : ℕ → ℕ) (key x : ℕ) (q : List ℕ) → length (placed score key x q) ≡ suc (length q)
length-placed score key x [] = refl
length-placed score key x (y ∷ q) =
    let ih = length-placed score key x q in
    elim (Bool-cases (ltb (score y) key)) [ inl t ↦ rw t (ap suc ih) | inr f ↦ rw f refl ]

In-length : (x : ℕ) (q : List ℕ) → In x q → 0 < length q
In-length x [] m = absurd m
In-length x (y ∷ q) m = omega arith

length-dropped : (x : ℕ) (q : List ℕ) → In x q → length (dropped x q) ≡ length q - 1
length-dropped x [] m = absurd m
length-dropped x (y ∷ q) m = elim (Bool-cases (y == x)) [
  | inl t ↦ rw t (omega arith)
  | inr f ↦ elim m [
    | inl e ↦ absurd (ground arith)
    | inr k ↦ rw f (omega (arith, length-dropped x q k, In-length x q k))
  ]
]

left_at-parts :
    (score : ℕ → ℕ) (now : ℕ) (due left : List ℕ)
    → All (λ x. score x ≤ now) due
    → All (λ x. now < score x) left
    → left_at score now (due ++ left) ≡ left
left_at-parts score now [] [] d l = refl
left_at-parts score now [] (x ∷ left) d (lt, l) =
    let t : ltb now (score x) ≡ true = ground arith in rw t refl
left_at-parts score now (x ∷ due) left (le, d) l =
    let t : ltb now (score x) ≡ false = ground arith in rw t (left_at-parts score now due left d l)

-- With the nodes counted, there is fuel for each row.
enough_fuel :
    {s : SkipList} {q : List ℕ} (h : Stands s q) (fuel : ℕ)
    → length q < fuel
    → (i : ℕ) → i < zskiplist_maxlevel
    → length (h.rows i) < fuel
enough_fuel h fuel lt i le =
    omega (arith, row_length h.ordered i le, ap (λ (r : List ℕ). length r) h.first_row)

-- After any sequence of calls that add timers, with nodes that are not in use, that delete with a node
-- whose time is the time of a node in the list, and that expire timers, with handlers that leave
-- the list alone, all on fuel above the number of nodes: the skip list stands for the sorted list of
-- its nodes. A new node goes before the first whose time is not earlier. Deleting takes out the first
-- node that has the time of the node that was asked for, which is another one where several
-- have that time. Those that are due are taken off the front. Every row of the skip list is linked,
-- sorted, without repetition and part of the row below it, the first is the list, and the length
-- counts it.
pub Reach-Stands : {s : SkipList} {q : List ℕ} → Reach s q → Stands s q
unfolding init_timer add_timer del_timer
Reach-Stands (starts memory header default_handler) = record {
  rows = λ i. [];
  ordered = zsl_create-Ordered memory header default_handler;
  first_row = refl;
  counted = zsl_create-length memory header default_handler;
}
Reach-Stands (adds fuel x level now msec func {s} {q} r lt (nz, nh, fresh) (lp, ll)) =
    let h = Reach-Stands r in
    let key = add_u32 msec now in
    let (o, n) =
      zsl_insert-Ordered s h.rows fuel x level key func h.ordered (enough_fuel h fuel lt) nz nh
        (row_fresh h.ordered x (subst (All (λ y. y ≢ x)) (sym h.first_row) fresh)) lp ll in
    let low : ltb 0 level ≡ true = ground arith in
    record {
      rows = inserted s.score key x level h.rows;
      ordered = o;
      first_row = rw low (ap (placed s.score key x) h.first_row);
      counted = omega (arith, n, h.counted, length-placed s.score key x q);
    }
Reach-Stands (deletes fuel zn x {s} {q} r lt (first, same)) =
    let h = Reach-Stands r in
    let first' = subst (FirstAt s.score (s.score zn) x) (sym h.first_row) first in
    let (o, n) = zsl_delete-Ordered h.ordered fuel zn (enough_fuel h fuel lt) x first' same in
    record {
      rows = λ i. dropped x (h.rows i);
      ordered = o;
      first_row = ap (dropped x) h.first_row;
      counted =
          omega
            (arith, n, h.counted, length-dropped x q (FirstAt-le s.score (s.score zn) x q first).0);
    }
Reach-Stands (expires fuel now {s} {q} {r = after} r lt ends) =
    let h = Reach-Stands r in
    let f =
      expire_timer-Expires (λ x t. t) (λ x t. refl) now fuel s h.rows h.ordered
        (omega (arith, lt, ap (λ (r : List ℕ). length r) h.first_row)) in
    let same : f.run ≡ after = cc (f.ends, ends) in
    let left : left_at s.score now q ≡ f.left =
      ap (left_at s.score now) (sym h.first_row ∙ f.parts)
      ∙ left_at-parts s.score now f.due f.left f.all_due f.none_due in
    let left_long : length q ≡ length f.due + length (left_at s.score now q) =
      ap length (sym h.first_row ∙ f.parts)
      ∙ length-append f.due f.left
      ∙ ap (λ (l : List ℕ). length f.due + length l) (sym left) in
    record {
      rows = f.rows;
      ordered = subst (λ (t : Run). Ordered t.list f.rows) same f.ordered;
      first_row = f.first_row ∙ sym left;
      counted =
          omega (arith, f.counted, h.counted, left_long, ap (λ (t : Run). t.list.length) same);
    }
