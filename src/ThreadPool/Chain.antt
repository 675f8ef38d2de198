-- ===== src/ThreadPool/Chain.antt =====
-- The list macros: what LL_ADD and LL_REMOVE do to the chain of items.
use basic_component_design.Common.{
  Distinct, ℕ, ◌≡◌, ◌≢◌, inl, inr, refl, sym, ◌∙◌, true, false, List, [], ◌∷◌, ◌==◌, arith,
  if◌then◌else◌, update, update_self, update_ne, All, In,
}
use basic_component_design.ThreadPool.{Links, ll_add, ll_remove}

-- The items that lead from `p` on to the null pointer.
abbrev pub IsChain : (ℕ → ℕ) → ℕ → List ℕ → Type 0
IsChain next p [] = p ≡ 0
IsChain next p (x ∷ xs) = (p ≡ x) × (x ≢ 0) × IsChain next (next x) xs

-- A list as LL_ADD builds it: no item points back.
pub record IsList (l : Links) (xs : List ℕ) : Type 0 where
  pub chain : IsChain l.next l.list xs
  pub distinct : Distinct xs
  pub first : All (λ x. l.prev x ≡ 0) xs

IsChain-update :
    (next : ℕ → ℕ) (x v p : ℕ) (xs : List ℕ)
    → ¬ In x xs
    → IsChain next p xs
    → IsChain (update next x v) p xs
IsChain-update next x v p [] h c = c
IsChain-update next x v p (y ∷ ys) h (e, z, c) =
    let q : update next x v y ≡ next y = update_ne next x v y (λ k. h (inl k)) in
    (e, z, rw q (IsChain-update next x v (next y) ys (λ k. h (inr k)) c))

All-update :
    (prev : ℕ → ℕ) (x : ℕ) (xs : List ℕ)
    → All (λ y. prev y ≡ 0) xs
    → All (λ y. update prev x 0 y ≡ 0) xs
All-update prev x [] a = tt
All-update prev x (y ∷ ys) a = (ground (arith, a.0), All-update prev x ys a.1)

-- LL_ADD puts a new item in front.
pub ll_add-IsList :
    (x : ℕ) (l : Links) (xs : List ℕ)
    → x ≢ 0
    → ¬ In x xs
    → IsList l xs
    → IsList (ll_add x l) (x ∷ xs)
unfolding ll_add
ll_add-IsList x l xs z h i = record {
  chain = (
    refl,
    z,
    rw (update_self l.next x l.list) (IsChain-update l.next x l.list l.list xs h i.chain),
  );
  distinct = (h, i.distinct);
  first = (update_self l.prev x 0, All-update l.prev x xs i.first);
}

IsChain-cong :
    (f g : ℕ → ℕ) (p : ℕ) (xs : List ℕ) → ((x : ℕ) → f x ≡ g x) → IsChain f p xs → IsChain g p xs
IsChain-cong f g p [] h c = c
IsChain-cong f g p (x ∷ xs) h (e, z, c) = (e, z, rw (← h x) (IsChain-cong f g (f x) xs h c))

-- For an item that does not point back, LL_REMOVE only clears its own pointer to the next.
ll_remove-next :
    (x : ℕ) (l : Links) (j : ℕ) → l.prev x ≡ 0 → (ll_remove x l).next j ≡ update l.next x 0 j
unfolding ll_remove
ll_remove-next x l j h = let t : (l.prev x == 0) ≡ true = ground arith in rw t refl

ll_remove-prev :
    (x : ℕ) (l : Links) (j : ℕ) → l.prev x ≡ 0 → l.prev j ≡ 0 → (ll_remove x l).prev j ≡ 0
unfolding ll_remove
ll_remove-prev x l j h k = let t : (l.prev x == 0) ≡ true = ground arith in rw t (ground arith)

ll_remove-list :
    (x : ℕ) (l : Links)
    → l.prev x ≡ 0
    → (ll_remove x l).list ≡ (if l.list == x then l.next x else l.list)
unfolding ll_remove
ll_remove-list x l h = let t : (l.prev x == 0) ≡ true = ground arith in rw t refl

All-prev :
    (x : ℕ) (l : Links) (xs : List ℕ)
    → l.prev x ≡ 0
    → All (λ y. l.prev y ≡ 0) xs
    → All (λ y. (ll_remove x l).prev y ≡ 0) xs
All-prev x l [] h a = tt
All-prev x l (y ∷ ys) h a = (ll_remove-prev x l y h a.0, All-prev x l ys h a.1)

-- LL_REMOVE of the first item leaves the others in their order.
pub ll_remove-IsList :
    (x : ℕ) (l : Links) (xs : List ℕ) → IsList l (x ∷ xs) → (l.list ≡ x) × IsList (ll_remove x l) xs
ll_remove-IsList x l xs i =
    let (e, z, c) = i.chain in
    let q : (ll_remove x l).list ≡ l.next x =
      ll_remove-list x l i.first.0 ∙ (let t : (l.list == x) ≡ true = ground arith in rw t refl) in
    let c' = IsChain-update l.next x 0 (l.next x) xs i.distinct.0 c in
    (
      e,
      record {
        chain = rw q (
            IsChain-cong (update l.next x 0) _ (l.next x) xs
              (λ j. sym (ll_remove-next x l j i.first.0)) c');
        distinct = i.distinct.1;
        first = All-prev x l xs i.first.0 i.first.1;
      },
    )

-- LL_REMOVE of an item that is not the first fails: it stays, and all that comes after it is lost,
-- since LL_ADD never made it point back.
ll_remove-lost :
    (x y : ℕ) (l : Links) (ys : List ℕ)
    → IsList l (x ∷ y ∷ ys)
    → IsChain (ll_remove y l).next (ll_remove y l).list (x ∷ y ∷ [])
ll_remove-lost x y l ys i =
    let (e, z, (e', z', c)) = i.chain in
    let ne : x ≢ y = λ k. i.distinct.0 (inl k) in
    let q : (ll_remove y l).list ≡ x =
      ll_remove-list y l i.first.1.0 ∙ (let t : (l.list == y) ≡ false = ground arith in rw t e) in
    (
      q,
      z,
      (
        ll_remove-next y l x i.first.1.0 ∙ update_ne l.next y 0 x (λ k. ne (sym k)) ∙ e',
        z',
        ll_remove-next y l y i.first.1.0 ∙ update_self l.next y 0,
      ),
    )
