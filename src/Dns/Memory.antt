-- ===== src/Dns/Memory.antt =====
-- Bytes in memory: what `store`, `memcpy` and the 16-bit accesses of the DNS client leave there.
use basic_component_design.Common.{
  ℕ, suc, ◌+◌, ◌-◌, ◌*◌, ◌/◌, ◌%◌, ◌≤◌, ◌<◌, ◌≡◌, refl, sym, ap, ◌∙◌, ◌≢◌, ◌⊎◌, inl, inr, List, [],
  ◌∷◌, ◌++◌, length, update, arith,
}
use mathlib.Core.Path.{subst}
use basic_component_design.Dns.{store, memcpy, put_u16, get_u16}

-- The bytes of the list stand from `at` on.
abbrev pub HasBytes : (ℕ → ℕ) → ℕ → List ℕ → Type 0
HasBytes mem at [] = Unit
HasBytes mem at (b ∷ bs) = (mem at ≡ b) × HasBytes mem (suc at) bs

pub bytes_at :
    (mem : ℕ → ℕ) {at to : ℕ} (xs : List ℕ) → at ≡ to → HasBytes mem at xs → HasBytes mem to xs
bytes_at mem xs e h = subst (λ i. HasBytes mem i xs) e h

pub bytes_in : {m n : ℕ → ℕ} (at : ℕ) (xs : List ℕ) → m ≡ n → HasBytes n at xs → HasBytes m at xs
bytes_in at xs e h = subst (λ mem. HasBytes mem at xs) (sym e) h

pub HasBytes-append :
    (mem : ℕ → ℕ) (at : ℕ) (xs ys : List ℕ)
    → HasBytes mem at xs
    → HasBytes mem (at + length xs) ys
    → HasBytes mem at (xs ++ ys)
HasBytes-append mem at [] ys hx hy = bytes_at mem ys (omega arith) hy
HasBytes-append mem at (x ∷ xs) ys (e, hx) hy =
    (e, HasBytes-append mem (suc at) xs ys hx (bytes_at mem ys (omega arith) hy))

pub HasBytes-left :
    (mem : ℕ → ℕ) (at : ℕ) (xs ys : List ℕ) → HasBytes mem at (xs ++ ys) → HasBytes mem at xs
HasBytes-left mem at [] ys h = tt
HasBytes-left mem at (x ∷ xs) ys (e, h) = (e, HasBytes-left mem (suc at) xs ys h)

pub HasBytes-right :
    (mem : ℕ → ℕ) (at : ℕ) (xs ys : List ℕ)
    → HasBytes mem at (xs ++ ys)
    → HasBytes mem (at + length xs) ys
HasBytes-right mem at [] ys h = bytes_at mem ys (omega arith) h
HasBytes-right mem at (x ∷ xs) ys (e, h) =
    bytes_at mem ys (omega arith) (HasBytes-right mem (suc at) xs ys h)

-- The same bytes elsewhere, at the distance `to - from`.
pub HasBytes-moved :
    (m n : ℕ → ℕ) (from to : ℕ) (xs : List ℕ)
    → ((k i j : ℕ) → k < length xs → i ≡ to + k → j ≡ from + k → n i ≡ m j)
    → HasBytes m from xs
    → HasBytes n to xs
HasBytes-moved m n from to [] same h = tt
HasBytes-moved m n from to (x ∷ xs) same (e, h) = (
  same 0 to from (omega arith) (omega arith) (omega arith) ∙ e,
  HasBytes-moved m n (suc from) (suc to) xs
      (λ k i j lt p q. same (suc k) i j (omega arith) (omega arith) (omega arith)) h,
)

pub HasBytes-kept :
    (m n : ℕ → ℕ) (at : ℕ) (xs : List ℕ)
    → ((j : ℕ) → at ≤ j → j < at + length xs → n j ≡ m j)
    → HasBytes m at xs
    → HasBytes n at xs
HasBytes-kept m n at xs same =
    HasBytes-moved m n at at xs
      (λ k i j lt p q. let e : i ≡ j = p ∙ sym q in rw e (same j (omega arith) (omega arith)))

pub store_before : (mem : ℕ → ℕ) (at : ℕ) (xs : List ℕ) (j : ℕ) → j < at → store mem at xs j ≡ mem j
unfolding store
store_before mem at [] j lt = refl
store_before mem at (x ∷ xs) j lt =
    store_before (update mem at x) (suc at) xs j (omega arith) ∙ ground arith

pub store-HasBytes : (mem : ℕ → ℕ) (at : ℕ) (xs : List ℕ) → HasBytes (store mem at xs) at xs
unfolding store
store-HasBytes mem at [] = tt
store-HasBytes mem at (x ∷ xs) = (
  store_before (update mem at x) (suc at) xs at (omega arith) ∙ ground arith,
  store-HasBytes (update mem at x) (suc at) xs,
)

module _ (dst : ℕ → ℕ) (to : ℕ) (src : ℕ → ℕ) (from n : ℕ) where
  pub memcpy_in : (k : ℕ) → k < n → memcpy dst to src from n (to + k) ≡ src (from + k)
  unfolding memcpy
  memcpy_in k lt =
      let e : to + k - to ≡ k = omega arith in ground (arith, ap (λ (i : ℕ). src (from + i)) e)

  pub memcpy_out : (j : ℕ) → (j < to) ⊎ (to + n ≤ j) → memcpy dst to src from n j ≡ dst j
  unfolding memcpy
  memcpy_out j (inl lt) = ground arith
  memcpy_out j (inr le) = ground arith

  pub memcpy-HasBytes :
      (xs : List ℕ)
      → length xs ≤ n
      → HasBytes src from xs
      → HasBytes (memcpy dst to src from n) to xs
  memcpy-HasBytes xs le =
      HasBytes-moved src _ from to xs (λ k i j lt p q. rw (p, q) (memcpy_in k (omega arith)))

pub put_u16_out : (mem : ℕ → ℕ) (at v j : ℕ) → j ≢ at → j ≢ at + 1 → put_u16 mem at v j ≡ mem j
unfolding put_u16
put_u16_out mem at v j h k = ground arith

pub get_u16-put_u16 :
    (mem : ℕ → ℕ) (at v : ℕ) → get_u16 (put_u16 mem at v) at ≡ v % 256 * 256 + v / 256 % 256
unfolding put_u16 get_u16
get_u16-put_u16 mem at v = ground arith
