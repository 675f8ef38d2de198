-- ===== src/TimeWheel/Clear.antt =====
-- clear_timer: what it frees and what it leaves.
use basic_component_design.Common.{
  ℕ, zero, suc, ◌+◌, ◌≤◌, ◌<◌, ◌≡◌, ◌≢◌, refl, arith, ap, sym, ◌∙◌, List, [], ◌∷◌, ◌==◌,
  if◌then◌else◌, update, update_ne,
}
use native.Mathlib.Decide.{ℕ_discrete}
use basic_component_design.TimeWheel.{
  TimerNode, Wheel, set_level, free_list, clear_near, clear_level, clear_timer,
}

-- How many nodes of a list stand at the address `p`.
abbrev pub tally : ℕ → List TimerNode → ℕ
tally p [] = 0
tally p (n ∷ ns) = (if p == n.ptr then 1 else 0) + tally p ns

free_list-tally :
    (p : ℕ) (ns freed : List TimerNode) → tally p (free_list ns freed) ≡ tally p ns + tally p freed
unfolding free_list
free_list-tally p [] freed = omega arith
free_list-tally p (n ∷ ns) freed = omega (arith, free_list-tally p ns (n ∷ freed))

-- The nodes at `p` in `k` lists from the index `i` on.
unfoldable pub tally_lists : ℕ → (ℕ → List TimerNode) → ℕ → ℕ → ℕ
tally_lists p f zero i = 0
tally_lists p f (suc k) i = tally p (f i) + tally_lists p f k (suc i)

tally_lists-update :
    (p : ℕ) (f : ℕ → List TimerNode) (v : List TimerNode) (j k i : ℕ)
    → j < i
    → tally_lists p (update f j v) k i ≡ tally_lists p f k i
unfolding tally_lists
tally_lists-update p f v j zero i h = refl
tally_lists-update p f v j (suc k) i h =
    rw (update_ne f j v i (omega arith), tally_lists-update p f v j k (suc i) (omega arith)) refl

-- Both loops of clear_timer, on the lists that they walk over.
unfoldable emptied : ℕ → ℕ → (ℕ → List TimerNode) → ℕ → List TimerNode
emptied zero i f = f
emptied (suc k) i f = emptied k (suc i) (update f i [])

unfoldable drained : ℕ → ℕ → (ℕ → List TimerNode) → List TimerNode → List TimerNode
drained zero i f freed = freed
drained (suc k) i f freed = drained k (suc i) (update f i []) (free_list (f i) freed)

emptied-stays : (k i : ℕ) (f : ℕ → List TimerNode) (j : ℕ) → f j ≡ [] → emptied k i f j ≡ []
unfolding emptied
emptied-stays zero i f j e = e
emptied-stays (suc k) i f j e = emptied-stays k (suc i) (update f i []) j (ground arith)

emptied_lem : (k i : ℕ) (f : ℕ → List TimerNode) (j : ℕ) → i ≤ j → j < i + k → emptied k i f j ≡ []
unfolding emptied
emptied_lem zero i f j h l = absurd (omega arith)
emptied_lem (suc k) i f j h l = elim (ℕ_discrete i j) [
  | yes e ↦ emptied-stays k (suc i) (update f i []) j (ground arith)
  | no n ↦ emptied_lem k (suc i) (update f i []) j (omega arith) (omega arith)
]

drained-tally :
    (p k i : ℕ) (f : ℕ → List TimerNode) (freed : List TimerNode)
    → tally p (drained k i f freed) ≡ tally_lists p f k i + tally p freed
unfolding drained tally_lists
drained-tally p zero i f freed = omega arith
drained-tally p (suc k) i f freed = omega (
  arith,
  drained-tally p k (suc i) (update f i []) (free_list (f i) freed),
  free_list-tally p (f i) freed,
  tally_lists-update p f [] i k (suc i) (omega arith),
)

clear_near_lem :
    (k i : ℕ) (w : Wheel)
    → clear_near k i w ≡ record w { near = emptied k i w.near; freed = drained k i w.near w.freed }
unfolding clear_near drained emptied
clear_near_lem zero i w = refl
clear_near_lem (suc k) i w = clear_near_lem k (suc i) _

record Row (level k i : ℕ) (w w' : Wheel) : Type 0 where
  row : w'.t level ≡ emptied k i (w.t level)
  others : (j : ℕ) → level ≢ j → w'.t j ≡ w.t j
  near : w'.near ≡ w.near
  fired : w'.fired ≡ w.fired
  freed : w'.freed ≡ drained k i (w.t level) w.freed

clear_level_lem : (level k i : ℕ) (w : Wheel) → Row level k i w (clear_level level k i w)
unfolding clear_level set_level drained emptied
clear_level_lem level zero i w = record {
  row = refl;
  others = λ j h. refl;
  near = refl;
  fired = refl;
  freed = refl;
}
clear_level_lem level (suc k) i w =
    let w1 : Wheel = record w {
      t = set_level w.t level i [];
      freed = free_list (w.t level i) w.freed;
    } in
    let r = clear_level_lem level k (suc i) w1 in
    let e : w1.t level ≡ update (w.t level) i [] = ground arith in
    record {
      row = rw (r.row, e) refl;
      others = λ j h. let o : w1.t j ≡ w.t j = ground arith in rw (r.others j h, o) refl;
      near = r.near;
      fired = r.fired;
      freed = rw (r.freed, e) refl;
    }

module _ {level k i : ℕ} {w w' : Wheel} (r : Row level k i w w') where
  Row-tally :
      (p : ℕ) (f : ℕ → List TimerNode)
      → w.t level ≡ f
      → tally p w'.freed ≡ tally_lists p f k i + tally p w.freed
  Row-tally p f e = rw (r.freed, sym e) (drained-tally p k i (w.t level) w.freed)

  Row-empty : (j : ℕ) → i ≤ j → j < i + k → w'.t level j ≡ []
  Row-empty j h l = rw r.row (emptied_lem k i (w.t level) j h l)

  Row-kept : (j l : ℕ) → level ≢ j → w.t j l ≡ [] → w'.t j l ≡ []
  Row-kept j l h e = rw (r.others j h) e

-- The nodes at `p` in the wheel.
abbrev pub held : ℕ → Wheel → ℕ
held p w =
    tally_lists p w.near 256 0
    + (tally_lists p (w.t 0) 64 0
        + (tally_lists p (w.t 1) 64 0 + (tally_lists p (w.t 2) 64 0 + tally_lists p (w.t 3) 64 0)))

-- What the five loops leave, one after another.
module _ (w : Wheel) where
  abbrev after_near : Wheel
  after_near = clear_near 256 0 w

  abbrev after_0 : Wheel
  after_0 = clear_level 0 64 0 after_near

  abbrev after_1 : Wheel
  after_1 = clear_level 1 64 0 after_0

  abbrev after_2 : Wheel
  after_2 = clear_level 2 64 0 after_1

  loop_0 : Row 0 64 0 after_near after_0
  loop_0 = clear_level_lem 0 64 0 after_near

  loop_1 : Row 1 64 0 after_0 after_1
  loop_1 = clear_level_lem 1 64 0 after_0

  loop_2 : Row 2 64 0 after_1 after_2
  loop_2 = clear_level_lem 2 64 0 after_1

  loop_3 : Row 3 64 0 after_2 (clear_timer w)
  unfolding clear_timer
  loop_3 = clear_level_lem 3 64 0 after_2

  near_lem :
      after_near ≡ record w { near = emptied 256 0 w.near; freed = drained 256 0 w.near w.freed }
  near_lem = clear_near_lem 256 0 w

  t_lem : (k : ℕ) → after_near.t k ≡ w.t k
  t_lem k = ap (λ v. v.t k) near_lem

  clear_timer-tally : (p : ℕ) → tally p (clear_timer w).freed ≡ held p w + tally p w.freed
  clear_timer-tally p =
      let f : tally p after_near.freed ≡ tally_lists p w.near 256 0 + tally p w.freed =
        rw near_lem (drained-tally p 256 0 w.near w.freed) in
      let e1 : after_0.t 1 ≡ w.t 1 = loop_0.others 1 (omega arith) ∙ t_lem 1 in
      let e2 : after_1.t 2 ≡ w.t 2 =
        loop_1.others 2 (omega arith) ∙ loop_0.others 2 (omega arith) ∙ t_lem 2 in
      let e3 : after_2.t 3 ≡ w.t 3 =
        loop_2.others 3 (omega arith)
        ∙ loop_1.others 3 (omega arith)
        ∙ loop_0.others 3 (omega arith)
        ∙ t_lem 3 in
      omega (
        arith,
        f,
        Row-tally loop_0 p (w.t 0) (t_lem 0),
        Row-tally loop_1 p (w.t 1) e1,
        Row-tally loop_2 p (w.t 2) e2,
        Row-tally loop_3 p (w.t 3) e3,
      )

  clear_timer-near : (i : ℕ) → i < 256 → (clear_timer w).near i ≡ []
  clear_timer-near i l =
      rw (loop_3.near, loop_2.near, loop_1.near, loop_0.near, near_lem)
        (emptied_lem 256 0 w.near i (omega arith) (omega arith))

  clear_timer-t : (k i : ℕ) → k < 4 → i < 64 → (clear_timer w).t k i ≡ []
  clear_timer-t zero i h l = Row-kept loop_3 0 i (omega arith) (
      Row-kept loop_2 0 i (omega arith)
        (Row-kept loop_1 0 i (omega arith) (Row-empty loop_0 i (omega arith) l)))
  clear_timer-t (suc zero) i h l =
      Row-kept loop_3 1 i (omega arith)
        (Row-kept loop_2 1 i (omega arith) (Row-empty loop_1 i (omega arith) l))
  clear_timer-t (suc (suc zero)) i h l =
      Row-kept loop_3 2 i (omega arith) (Row-empty loop_2 i (omega arith) l)
  clear_timer-t (suc (suc (suc zero))) i h l = Row-empty loop_3 i (omega arith) l
  clear_timer-t (suc (suc (suc (suc k)))) i h l = absurd (omega arith)

  -- clear_timer frees what stands at an address as often as it stands in the wheel, in any of the
  -- 256 near lists and the 4 times 64 lists of the levels, and no more; it leaves all these lists
  -- empty, and runs no callback.
  pub clear_timer-frees :
      ((p : ℕ) → tally p (clear_timer w).freed ≡ held p w + tally p w.freed)
      × ((i : ℕ) → i < 256 → (clear_timer w).near i ≡ [])
      × ((k i : ℕ) → k < 4 → i < 64 → (clear_timer w).t k i ≡ [])
      × ((clear_timer w).fired ≡ w.fired)
  clear_timer-frees = (
    clear_timer-tally,
    clear_timer-near,
    clear_timer-t,
    loop_3.fired ∙ loop_2.fired ∙ loop_1.fired ∙ loop_0.fired ∙ ap (λ v. v.fired) near_lem,
  )
