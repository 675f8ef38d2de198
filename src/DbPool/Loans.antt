-- ===== src/DbPool/Loans.antt =====
-- Which connections the threads hold, where each gives back only what it was lent.
use basic_component_design.Common.{
  ℕ, zero, suc, ◌+◌, ◌≤◌, ◌<◌, ◌≡◌, ◌≢◌, inl, inr, refl, sym, ap, ◌∙◌, Bool, true, false, List, [],
  ◌∷◌, ◌++◌, leb, ◌==◌, if◌then◌else◌, count, length, List-cases, Bool-cases, arith,
}
use native.Mathlib.Decide.{ℕ_discrete}
use basic_component_design.DbPool.{
  CdbPool, Outcome, got, null, waits, undefined, new_cdb_pool, init_loop, init, take_front,
  new_conn, get_db_conn, after_wait, remove, found, rel_db_conn, PoolTurn, min_db_conn_cnt, get,
  wake, release, delete_pool, Reach, start, turn,
}
use basic_component_design.DbPool.Accounts.{count-append, Reach-Keeps}
use basic_component_design.DbPool.Grants.{Grants, Reach-exclusive}

-- What a turn does to the connections in use: it puts the one that it lends at the end.
abbrev Lends : Outcome → List ℕ → List ℕ → Type 0
Lends (got c) before after = after ≡ before ++ (c ∷ [])
Lends null before after = Unit
Lends waits before after = Unit
Lends undefined before after = Unit

abbrev Lent : CdbPool → CdbPool × Outcome → Type 0
Lent p x = Lends x.1 p.used_list x.0.used_list

either-Lent :
    (p : CdbPool) (b : Bool) (x y : CdbPool × Outcome)
    → Lent p x
    → Lent p y
    → Lent p (if b then x else y)
either-Lent p true x y hx hy = hx
either-Lent p false x y hx hy = hy

take_front-Lends : (p : CdbPool) → Lent p (take_front p)
unfolding take_front
take_front-Lends p = elim (List-cases p.free_list) [
  | inl h ↦ rw (take_front, h) tt
  | inr (c, cs, h) ↦ rw (take_front, h) refl
]

get_db_conn-Lends : (c ret : ℕ) (p : CdbPool) → Lent p (get_db_conn c ret p)
unfolding get_db_conn new_conn
get_db_conn-Lends c ret p =
    either-Lent p p.abort_request (p, null) _ tt
      (elim (List-cases p.free_list) [
        | inr (d, ds, h) ↦ rw h (take_front-Lends p)
        | inl h ↦ rw h (
            either-Lent p (leb p.db_max_conn_cnt p.db_cur_conn_cnt) (p, waits) _ tt
              (either-Lent p (ret == 0) _ (p, null) (take_front-Lends _) tt))
      ])

after_wait-Lends : (timed : Bool) (p : CdbPool) → Lent p (after_wait timed p)
unfolding after_wait
after_wait-Lends true p = elim (List-cases p.free_list) [
  | inl h ↦ rw (after_wait, h) tt
  | inr (c, cs, h) ↦
      rw (after_wait, h)
        (either-Lent p p.abort_request (p, null) (take_front p) tt (take_front-Lends p))
]
after_wait-Lends false p =
    either-Lent p p.abort_request (p, null) (take_front p) tt (take_front-Lends p)

PoolTurn-Lends : {p q : CdbPool} {o : Outcome} → PoolTurn p q o → Lends o p.used_list q.used_list
PoolTurn-Lends (get c ret {p} fresh) = get_db_conn-Lends c ret p
PoolTurn-Lends (wake timed {p} h) = after_wait-Lends timed p
PoolTurn-Lends (release c {p} owned) = tt
PoolTurn-Lends (delete_pool {p}) = tt

-- A connection that is returned is held by nobody, and no empty list is taken from.
abbrev pub Serves : Outcome → List ℕ → Type 0
Serves (got c) held = count c held ≡ 0
Serves null held = Unit
Serves waits held = Unit
Serves undefined held = ⊥

-- The pools that threads come to that give back only what they were lent, once, with the
-- connections that they hold: one for each loan that was not given back, whoever has it.
pub data Loans (max_conn_cnt : ℕ) : CdbPool → List ℕ → Type 0 where
  begins : (make : ℕ → ℕ × ℕ) → Loans max_conn_cnt (init make (new_cdb_pool max_conn_cnt)).0 []
  lends :
      {c : ℕ} {p q : CdbPool} {held : List ℕ}
      → Loans max_conn_cnt p held
      → PoolTurn p q (got c)
      → Loans max_conn_cnt q (c ∷ held)
  -- A turn that lends none and takes none back.
  passes :
      {p q : CdbPool} {o : Outcome} {held : List ℕ}
      → Loans max_conn_cnt p held
      → PoolTurn p q o
      → q.used_list ≡ p.used_list
      → Loans max_conn_cnt q held
  gives_back :
      (c : ℕ) {p : CdbPool} (xs ys : List ℕ)
      → Loans max_conn_cnt p (xs ++ c ∷ ys)
      → Loans max_conn_cnt (rel_db_conn c p) (xs ++ ys)

init_loop-used :
    (n : ℕ) (make : ℕ → ℕ × ℕ) (p : CdbPool) → (init_loop n make p).0.used_list ≡ p.used_list
unfolding init_loop
init_loop-used zero make p = refl
init_loop-used (suc n) make p = elim (Bool-cases ((make n).1 == 0)) [
  | inl t ↦ rw (t, init_loop) (init_loop-used n make _)
  | inr t ↦ rw (t, init_loop) refl
]

count_self : (c : ℕ) (ys : List ℕ) → count c (c ∷ ys) ≡ 1 + count c ys
count_self c ys = ground arith

count_other : (c d : ℕ) (ys : List ℕ) → c ≢ d → count d (c ∷ ys) ≡ count d ys
count_other c d ys n = ground arith

count-remove_ne : (c d : ℕ) (xs : List ℕ) → c ≢ d → count d (remove c xs) ≡ count d xs
unfolding remove
count-remove_ne c d [] n = refl
count-remove_ne c d (x ∷ xs) n = let ih = count-remove_ne c d xs n in ground arith

count-remove_all : (c : ℕ) (xs : List ℕ) → count c (remove c xs) ≡ 0
unfolding remove
count-remove_all c [] = refl
count-remove_all c (x ∷ xs) = let ih = count-remove_all c xs in ground arith

found-none : (c : ℕ) (xs : List ℕ) → count c xs ≡ 0 → found c xs ≡ false
unfolding found
found-none c [] h = refl
found-none c (x ∷ xs) h = let ih = found-none c xs in ground arith

-- The loans are the connections in use, which the pool lends once.
record Even (m : ℕ) (p : CdbPool) (held : List ℕ) : Type 0 where
  reach : Reach m p
  same : (c : ℕ) → count c held ≡ count c p.used_list

module _ {m : ℕ} where
  back-Even :
      (c : ℕ) (p : CdbPool) (xs ys : List ℕ)
      → Even m p (xs ++ c ∷ ys)
      → Even m (rel_db_conn c p) (xs ++ ys)
  unfolding rel_db_conn
  back-Even c p xs ys e =
      let a = Reach-Keeps e.reach in
      let own : 0 < count c p.used_list =
        omega (arith, e.same c, count-append c xs (c ∷ ys), count_self c ys) in
      let f : found c p.free_list ≡ false =
        found-none c p.free_list (omega (arith, a.once c, own)) in
      record {
        reach = turn e.reach (release c (omega (arith, own)));
        same = λ d. elim (ℕ_discrete c d) [
          | yes k ↦
              rw (f, ← k)
                (omega (
                  arith,
                  a.once c,
                  e.same c,
                  count-append c xs (c ∷ ys),
                  count_self c ys,
                  count-append c xs ys,
                  count-remove_all c p.used_list,
                ))
          | no n ↦ rw f (
              omega (
                arith,
                e.same d,
                count-append d xs (c ∷ ys),
                count_other c d ys n,
                count-append d xs ys,
                count-remove_ne c d p.used_list n,
              ))
        ];
      }

  Loans-Even : {p : CdbPool} {held : List ℕ} → Loans m p held → Even m p held
  unfolding init new_cdb_pool
  Loans-Even (begins make) = record {
    reach = start make;
    same = λ c. sym (ap (count c) (init_loop-used min_db_conn_cnt make (new_cdb_pool m)));
  }
  Loans-Even (lends {c} {p} {q} {held} l t) =
      let e = Loans-Even l in
      record {
        reach = turn e.reach t;
        same = λ d.
            omega (
              arith,
              e.same d,
              ap (count d) (PoolTurn-Lends t),
              count-append d p.used_list (c ∷ []),
            );
      }
  Loans-Even (passes l t u) =
      let e = Loans-Even l in
      record { reach = turn e.reach t; same = λ c. e.same c ∙ sym (ap (count c) u) }
  Loans-Even (gives_back c {p} xs ys l) = back-Even c p xs ys (Loans-Even l)

  -- Where each thread gives back only connections that it was lent and has not given back yet, with a
  -- maximum of at least one connection: threads come to a pool in any order of their turns, and hold
  -- these connections. No connection is held twice, by one thread or by two, and none that is held
  -- is free. Whichever turn comes next: when it is GetDBConn that returns a connection, nobody held
  -- it, GetDBConn does not take the front of an empty list, and after the turn m_free_list and
  -- m_used_list together have no more than the maximum.
  pub Loans-exclusive :
      {p q : CdbPool} {o : Outcome} {held : List ℕ}
      → 0 < m
      → Loans m p held
      → PoolTurn p q o
      → ((c : ℕ) → count c held + count c p.free_list ≤ 1)
        × Serves o held
        × (length q.free_list + length q.used_list ≤ m)
  Loans-exclusive {p} {q} {o} {held} positive l t =
      let e = Loans-Even l in
      let a = Reach-Keeps e.reach in
      let (g, bounded, once) = Reach-exclusive positive e.reach t in
      (λ c. omega (arith, e.same c, a.once c), serves o e.same g, bounded)
    where
      serves :
          (o : Outcome)
          → ((c : ℕ) → count c held ≡ count c p.used_list)
          → Grants o p.used_list q.used_list
          → Serves o held
      serves (got c) same g = same c ∙ g.0
      serves null same g = tt
      serves waits same g = tt
      serves undefined same g = g
