-- ===== src/SingleWheel/Adding.antt =====
-- add_conn: it finds a node, and `used` stays right.
use basic_component_design.Common.{
  ℕ, zero, suc, ◌+◌, ◌%◌, ◌<◌, ◌≤◌, ◌≡◌, inl, inr, refl, ap, sym, ◌∙◌, ltb→lt, [], ◌∷◌, ◌++◌, true,
  false, some, ltb, arith, update, Option-cases, Bool-cases,
}
use basic_component_design.SingleWheel.{
  Wheel, max_timer, find_free, get_timer_node, link_conn, add_conn,
}
use basic_component_design.SingleWheel.Beats.{Counted, link_conn-Counted, link_conn-used}

-- An index that the search returns is free, under the mask.
find_free-free :
    (fuel mask iter j : ℕ) (taken : ℕ → ℕ)
    → find_free fuel taken mask iter ≡ some j
    → (iter ≤ j) × (taken (j % suc mask) ≡ 0)
unfolding find_free
find_free-free zero mask iter j taken e = absurd (cc)
find_free-free (suc fuel) mask iter j taken e =
    elim (Bool-cases (ltb 0 (taken (iter % suc mask)))) [
      | inl t ↦
          let (le, z) = find_free-free fuel mask (suc iter) j taken (rw (t, find_free) at e) in
          (omega arith, z)
      | inr f ↦
          let q : iter ≡ j = cc (rw (f, find_free) at e) in
          let z : taken (iter % suc mask) ≡ 0 = ground arith in rw (← q) (omega arith, z)
    ]

-- A node that get_timer_node returns is free, has an index in the array, and is now taken.
get_timer_node_lem :
    (fuel i : ℕ) (w w' : Wheel)
    → get_timer_node fuel w ≡ some (i, w')
    → (i < max_timer) × (w.idx i ≡ 0) × (w' ≡ record w { t_iter = i; idx = update w.idx i i })
unfolding get_timer_node
get_timer_node_lem fuel i w w' e =
    elim (Option-cases (find_free fuel w.idx max_timer (suc w.t_iter))) [
      | inl n ↦ absurd (cc (rw (n, get_timer_node) at e))
      | inr (j, n) ↦ elim (Bool-cases (ltb j max_timer)) [
        | inl t ↦
            let e' = rw (t, get_timer_node) at (rw (n, get_timer_node) at e) in
            let q : j ≡ i = cc e' in
            let r : record w { t_iter = j; idx = update w.idx j j } ≡ w' = cc e' in
            let free = (find_free-free fuel max_timer (suc w.t_iter) j w.idx n).1 in
            let m : j % suc max_timer ≡ j = omega (arith, ltb→lt j max_timer t) in
            (
              rw (← q) (ground arith),
              rw (← q) (rw m at free),
              sym r ∙ ap (λ x. record w { t_iter = x; idx = update w.idx x x }) q,
            )
        | inr t ↦ absurd (cc (rw (t, get_timer_node) at (rw (n, get_timer_node) at e)))
      ]
    ]

-- What add_conn does: the node `i` was free, it is taken now, and it stands with the connection at
-- the end of the list `delay` + 10 ticks ahead, and nothing else has changed in the lists.
pub record Added (c delay i : ℕ) (w w' : Wheel) : Type 0 where
  pub within : i < max_timer
  pub free : w.idx i ≡ 0
  pub taken : w'.idx ≡ update w.idx i i
  pub last : w'.t_iter ≡ i
  pub lists :
      w'.tw
      ≡ update w.tw
          ((w.tick + 10 + delay) % 16)
          (w.tw ((w.tick + 10 + delay) % 16) ++ record { self = i; node = c } ∷ [])
  pub counted : Counted w'
  pub beats : w'.used c ≡ w.used c + 1

some-Added :
    (fuel c delay : ℕ) (w w' : Wheel)
    → w.used c < 255
    → Counted w
    → add_conn fuel c delay w ≡ some w'
    → (i : ℕ) × Added c delay i w w'
unfolding add_conn link_conn
some-Added fuel c delay w w' h ok e = elim (Option-cases (get_timer_node fuel w)) [
  | inl n ↦ absurd (cc (rw (n, add_conn) at e))
  | inr ((i, w1), n) ↦
      let q : link_conn i c delay w1 ≡ w' = cc (rw (n, add_conn) at e) in
      let (lt, z, r) = get_timer_node_lem fuel i w w1 n in
      let w2 = record w { t_iter = i; idx = update w.idx i i } in
      let q' : link_conn i c delay w2 ≡ w' = ap (link_conn i c delay) (sym r) ∙ q in
      (
        i,
        rw (← q') (record {
          within = lt;
          free = z;
          taken = refl;
          last = refl;
          lists = refl;
          counted = link_conn-Counted i c delay w2 h ok;
          beats = link_conn-used i c delay w2 h;
        }),
      )
]

-- The search ends at the first free index, with fuel up to one that is.
find_free-some :
    (k fuel mask iter : ℕ) (taken : ℕ → ℕ)
    → taken ((iter + k) % suc mask) ≡ 0
    → k < fuel
    → (j : ℕ) × (find_free fuel taken mask iter ≡ some j) × (j ≤ iter + k)
unfolding find_free
find_free-some k zero mask iter taken z l = absurd (omega arith)
find_free-some zero (suc fuel) mask iter taken z l =
    let z' : taken (iter % suc mask) ≡ 0 = ap (λ x. taken (x % suc mask)) (omega arith) ∙ z in
    let t : ltb 0 (taken (iter % suc mask)) ≡ false = ground arith in
    (iter, rw (t, find_free) refl, omega arith)
find_free-some (suc k) (suc fuel) mask iter taken z l =
    elim (Bool-cases (ltb 0 (taken (iter % suc mask)))) [
      | inl t ↦
          let z' : taken ((suc iter + k) % suc mask) ≡ 0 =
            ap (λ x. taken (x % suc mask)) (omega arith) ∙ z in
          let (j, e, b) = find_free-some k fuel mask (suc iter) taken z' (omega arith) in
          (j, rw (t, find_free) e, omega arith)
      | inr t ↦ (iter, rw (t, find_free) refl, omega arith)
    ]

add_conn-some :
    (k fuel c delay : ℕ) (w : Wheel)
    → w.idx ((suc w.t_iter + k) % suc max_timer) ≡ 0
    → suc w.t_iter + k < max_timer
    → k < fuel
    → (w' : Wheel) × (add_conn fuel c delay w ≡ some w')
unfolding add_conn get_timer_node
add_conn-some k fuel c delay w z b l =
    let (j, e, le) = find_free-some k fuel max_timer (suc w.t_iter) w.idx z l in
    let t : ltb j max_timer ≡ true = ground arith in
    (
      link_conn j c delay (record w { t_iter = j; idx = update w.idx j j }),
      rw (e, add_conn) (rw (t, add_conn) refl),
    )

-- Where the timer node `k` places after the next is free and in the array, the fuel is above `k`,
-- `used` is right and below 255 for the connection, add_conn ends: it takes a node that was free,
-- sets its index, puts it with the connection at the end of the list that is looked at
-- 10 + `delay` ticks later, leaves the other lists, counts one heartbeat more of the connection,
-- and keeps `used` right.
pub add_conn-Added :
    (k fuel c delay : ℕ) (w : Wheel)
    → w.idx ((suc w.t_iter + k) % suc max_timer) ≡ 0
    → suc w.t_iter + k < max_timer
    → k < fuel
    → w.used c < 255
    → Counted w
    → (w' : Wheel) × (add_conn fuel c delay w ≡ some w') × (i : ℕ) × Added c delay i w w'
add_conn-Added k fuel c delay w z b l h ok =
    let (w', e) = add_conn-some k fuel c delay w z b l in
    let (i, a) = some-Added fuel c delay w w' h ok e in (w', e, i, a)
