-- ===== src/SingleWheel/Beats.antt =====
-- `used` counts the heartbeats of a connection that are still in the wheel, and check_conn kills a
-- connection with its last one.
use basic_component_design.Common.{
  ℕ, zero, suc, ◌+◌, ◌%◌, ◌<◌, ◌≤◌, ◌≡◌, ◌⊎◌, ◌↔◌, inl, inr, refl, ap, sym, ◌∙◌, true, false, List,
  [], ◌∷◌, ◌++◌, ◌==◌, arith, if◌then◌else◌, update, update_self, update_ne, In,
}
use native.Mathlib.Decide.{ℕ_discrete}
use basic_component_design.SingleWheel.{
  TimerNode, Wheel, tw_size, expire, link_conn, check_node, check_nodes, check_conn,
}

-- The entries of the connection `c` in a list, and in the first `n` lists of the wheel.
abbrev pub count : ℕ → List TimerNode → ℕ
count c [] = 0
count c (t ∷ ts) = (if t.node == c then 1 else 0) + count c ts

abbrev pub total : ℕ → ℕ → (ℕ → List TimerNode) → ℕ
total zero c tw = 0
total (suc n) c tw = count c (tw n) + total n c tw

-- `used` is right.
abbrev pub Counted : Wheel → Type 0
Counted w = (c : ℕ) → (w.used c ≡ total tw_size c w.tw) × (w.used c < 256)

count-append : (c : ℕ) (ts us : List TimerNode) → count c (ts ++ us) ≡ count c ts + count c us
count-append c [] us = omega arith
count-append c (t ∷ ts) us = omega (arith, count-append c ts us)

total-past :
    (n c i : ℕ) (tw : ℕ → List TimerNode) (ts : List TimerNode)
    → n ≤ i
    → total n c (update tw i ts) ≡ total n c tw
total-past zero c i tw ts h = refl
total-past (suc n) c i tw ts h =
    let e : update tw i ts n ≡ tw n = update_ne tw i ts n (λ k. absurd (omega (arith, k))) in
    rw e (omega (arith, total-past n c i tw ts (omega arith)))

-- What a new list at one index does to the total.
total-update :
    (n c i : ℕ) (tw : ℕ → List TimerNode) (ts : List TimerNode)
    → i < n
    → total n c (update tw i ts) + count c (tw i) ≡ total n c tw + count c ts
total-update zero c i tw ts h = absurd (omega arith)
total-update (suc n) c i tw ts h = elim (ℕ_discrete i n) [
  | yes e ↦
      let q : update tw i ts n ≡ ts = rw (← e) (update_self tw i ts) in
      let r : tw n ≡ tw i = ap tw (sym e) in
      rw q (rw r (omega (arith, total-past n c i tw ts (omega (arith, e)))))
  | no ne ↦
      let q : update tw i ts n ≡ tw n = update_ne tw i ts n ne in
      rw q (omega (arith, total-update n c i tw ts (omega (arith, ne))))
]

pub link_conn-Counted :
    (tnode c delay : ℕ) (w : Wheel)
    → w.used c < 255
    → Counted w
    → Counted (link_conn tnode c delay w)
unfolding link_conn
link_conn-Counted tnode c delay w h ok d =
    let i = (w.tick + expire + delay) % tw_size in
    let t : TimerNode = record { self = tnode; node = c } in
    let a = total-update tw_size d i w.tw (w.tw i ++ t ∷ []) (omega arith) in
    let b = count-append d (w.tw i) (t ∷ []) in
    elim (ℕ_discrete c d) [
      | yes e ↦
          let q : update w.used c ((w.used c + 1) % 256) d ≡ w.used c + 1 =
            rw (← e) (update_self w.used c ((w.used c + 1) % 256) ∙ omega arith) in
          let o : (c == d) ≡ true = ground arith in
          let b' : count d (w.tw i ++ t ∷ []) ≡ count d (w.tw i) + 1 = rw o at b in
          let k : w.used c ≡ total tw_size d w.tw = rw e (ok d).0 in
          (q ∙ omega (arith, a, b', k), rw q (omega arith))
      | no ne ↦
          let q : update w.used c ((w.used c + 1) % 256) d ≡ w.used d =
            update_ne w.used c ((w.used c + 1) % 256) d ne in
          let o : (c == d) ≡ false = ground arith in
          let b' : count d (w.tw i ++ t ∷ []) ≡ count d (w.tw i) + 0 = rw o at b in
          (q ∙ omega (arith, a, b', (ok d).0), rw q (ok d).1)
    ]

pub link_conn-used :
    (tnode c delay : ℕ) (w : Wheel)
    → w.used c < 255
    → (link_conn tnode c delay w).used c ≡ w.used c + 1
unfolding link_conn
link_conn-used tnode c delay w h = update_self w.used c ((w.used c + 1) % 256) ∙ omega arith

-- What a check of the list `ts` does, where `rest` counts what is in the other lists.
record Checked (ts : List TimerNode) (rest : ℕ → ℕ) (w w' : Wheel) : Type 0 where
  left : (c : ℕ) → w'.used c ≡ rest c
  same : w'.tw ≡ w.tw
  kills : (c : ℕ) → In c w'.killed ↔ (In c w.killed ⊎ ((0 < count c ts) × (rest c ≡ 0)))

In-killed :
    (c d left : ℕ) (old : List ℕ)
    → In c (if left == 0 then d ∷ old else old) ↔ (In c old ⊎ ((d ≡ c) × (left ≡ 0)))
In-killed c d left old = elim (ℕ_discrete left 0) [
  | yes z ↦
      let t : (left == 0) ≡ true = ground arith in
      rw t (
        λ m. elim m [ inl e ↦ inr (sym e, z) | inr k ↦ inl k ],
        λ m. elim m [ inl k ↦ inr k | inr (e, _) ↦ inl (sym e) ],
      )
  | no n ↦
      let t : (left == 0) ≡ false = ground arith in
      rw t (λ m. inl m, λ m. elim m [ inl k ↦ k | inr (_, z) ↦ absurd (n z) ])
]

-- One more entry in front: the connection is killed by it, or by a later one of its own.
kills-step :
    (c d left k r : ℕ) (old new : List ℕ)
    → (d ≡ c → left ≡ k + r)
    → In c new ↔ (In c (if left == 0 then d ∷ old else old) ⊎ ((0 < k) × (r ≡ 0)))
    → In c new ↔ (In c old ⊎ ((0 < (if d == c then 1 else 0) + k) × (r ≡ 0)))
kills-step c d left k r old new e l =
    let a = In-killed c d left old in
    (
      λ m. elim (l.0 m) [
        | inl x ↦ elim (a.0 x) [
          | inl y ↦ inl y
          | inr (f, z) ↦
              let t : (d == c) ≡ true = ground arith in inr (rw t (omega arith), omega (arith, e f))
        ]
        | inr (p, z) ↦ inr (omega arith, z)
      ],
      λ m. l.1 (elim m [
        | inl y ↦ inl (a.1 (inl y))
        | inr (p, z) ↦ elim (ℕ_discrete k 0) [
          | no n ↦ inr (omega (arith, n), z)
          | yes q ↦ elim (ℕ_discrete d c) [
            | yes f ↦ inl (a.1 (inr (f, omega (arith, e f))))
            | no n ↦
                let t : (d == c) ≡ false = ground arith in
                let p' : 0 < 0 + k = rw t at p in absurd (omega arith)
          ]
        ]
      ]),
    )

check_nodes-Checked :
    (ts : List TimerNode) (rest : ℕ → ℕ) (w : Wheel)
    → ((c : ℕ) → (w.used c ≡ count c ts + rest c) × (w.used c < 256))
    → Checked ts rest w (check_nodes ts w)
unfolding check_nodes check_node
check_nodes-Checked [] rest w h = record {
  left = λ c. omega (arith, (h c).0);
  same = refl;
  kills = λ c. (λ m. inl m, λ m. elim m [ inl k ↦ k | inr k ↦ absurd (omega (arith, k.0)) ]);
}
check_nodes-Checked (t ∷ ts) rest w h =
    let d = t.node in
    let left = (w.used d + 255) % 256 in
    let o : (d == d) ≡ true = ground arith in
    let hd : w.used d ≡ 1 + count d ts + rest d = rw o at ((h d).0) in
    let e : left ≡ count d ts + rest d = omega (arith, hd, (h d).1) in
    let w1 = check_node t w in
    let h1 : (c : ℕ) → (w1.used c ≡ count c ts + rest c) × (w1.used c < 256) = λ c.
      elim (ℕ_discrete d c) [
        | yes k ↦
            let q : update w.used d left c ≡ left = rw (← k) (update_self w.used d left) in
            let e' : left ≡ count c ts + rest c = rw (← k) e in
            (q ∙ e', rw q (omega (arith, (h d).1)))
        | no n ↦
            let q : update w.used d left c ≡ w.used c = update_ne w.used d left c n in
            let o' : (d == c) ≡ false = ground arith in
            let hc : w.used c ≡ 0 + count c ts + rest c = rw o' at ((h c).0) in
            (q ∙ hc ∙ omega arith, rw q (h c).1)
      ] in
    let l = check_nodes-Checked ts rest w1 h1 in
    record {
      left = l.left;
      same = l.same;
      kills = λ c.
          kills-step c d left (count c ts) (rest c) w.killed (check_nodes ts w1).killed
            (λ k. e ∙ ap (λ x. count x ts + rest x) k) (l.kills c);
    }

-- check_conn takes the entries of the current list off: `used` stays the number of heartbeats that
-- are left, and a connection is killed exactly if one of them was its last.
pub check_conn-kills :
    (w : Wheel) (c : ℕ)
    → Counted w
    → Counted (check_conn w)
      × (In c (check_conn w).killed ↔ (
          In c w.killed
          ⊎ ((0 < count c (w.tw (w.tick % tw_size))) × (total tw_size c (check_conn w).tw ≡ 0))))
unfolding check_conn
check_conn-kills w c ok =
    let i = w.tick % tw_size in
    let tw' = update w.tw i [] in
    let rest : ℕ → ℕ = λ d. total tw_size d tw' in
    let a : (d : ℕ) → rest d + count d (w.tw i) ≡ total tw_size d w.tw =
      λ d. omega (arith, total-update tw_size d i w.tw [] (omega arith)) in
    let w1 = record w { tick = (w.tick + 1) % 4294967296 } in
    let l = check_nodes-Checked (w.tw i) rest w1 (λ d. (omega (arith, (ok d).0, a d), (ok d).1)) in
    let p : (d : ℕ) → total tw_size d (update (check_nodes (w.tw i) w1).tw i []) ≡ rest d =
      λ d. ap (λ tw. total tw_size d (update tw i [])) (l.same) in
    let k = l.kills c in
    (
      λ d. (l.left d ∙ sym (p d), omega (arith, l.left d, a d, (ok d).0, (ok d).1)),
      (
        λ m. elim (k.0 m) [ inl x ↦ inl x | inr (x, z) ↦ inr (x, p c ∙ z) ],
        λ m. k.1 (elim m [ inl x ↦ inl x | inr (x, z) ↦ inr (x, sym (p c) ∙ z) ]),
      ),
    )
