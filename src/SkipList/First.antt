-- ===== src/SkipList/First.antt =====
-- The first node whose score is not below a key: on each level that it is on, it is the first there.
use basic_component_design.Common.{
  ℕ, zero, suc, ◌<◌, ◌≤◌, ◌≡◌, ◌≢◌, ◌⊎◌, inl, inr, refl, ap, sym, ◌∙◌, true, false, List, [], ◌∷◌,
  ltb, arith, In, All-In, update, update_self,
}
use basic_component_design.SkipList.{SkipList, zskiplist_maxlevel, find, walk}
use basic_component_design.SkipList.Rows.{Chain, Distinct, IsPart, In-IsPart, stop}
use basic_component_design.SkipList.Find.{Ordered}
use basic_component_design.SkipList.Dropped.{before, before_here, before_on}
use mathlib.Core.Path.{subst}

-- `x` is the first node whose score is not below the key.
abbrev pub FirstAt : (ℕ → ℕ) → ℕ → ℕ → List ℕ → Type 0
FirstAt score key x [] = ⊥
FirstAt score key x (y ∷ ys) =
    ((score y < key) × FirstAt score key x ys) ⊎ ((y ≡ x) × (key ≤ score y))

module _ (score : ℕ → ℕ) (key x : ℕ) where
  pub FirstAt-le : (xs : List ℕ) → FirstAt score key x xs → In x xs × (key ≤ score x)
  FirstAt-le [] h = absurd h
  FirstAt-le (y ∷ ys) (inl (lt, h)) = let (m, le) = FirstAt-le ys h in (inr m, le)
  FirstAt-le (y ∷ ys) (inr (e, le)) = (inl (sym e), subst (λ v. key ≤ score v) e le)

  pub stop-before :
      (p : ℕ) (xs : List ℕ) → FirstAt score key x xs → stop score key p xs ≡ before x p xs
  stop-before p [] h = absurd h
  stop-before p (y ∷ ys) (inl (lt, h)) =
      let (_, le) = FirstAt-le ys h in
      let n : y ≢ x = λ e. not_below (subst (λ v. score v < key) e lt) le in
      let t : ltb (score y) key ≡ true = ground arith in
      (rw t refl) ∙ stop-before y ys h ∙ sym (before_on x p y ys n)
    where
      not_below : {a b : ℕ} → a < b → b ≤ a → ⊥
      not_below lt le = omega arith
  stop-before p (y ∷ ys) (inr (e, le)) =
      let t : ltb (score y) key ≡ false = ground arith in (rw t refl) ∙ sym (before_here x p y ys e)

  IsPart-FirstAt :
      (xs ys : List ℕ)
      → Distinct ys
      → IsPart xs ys
      → In x xs
      → FirstAt score key x ys
      → FirstAt score key x xs
  IsPart-FirstAt [] ys d h m f = absurd m
  IsPart-FirstAt (a ∷ rest) [] d h m f = absurd h
  IsPart-FirstAt (a ∷ rest) (y ∷ ys) (dy, d) (inl (e, h)) m (inr (q, le)) =
      inr (e ∙ q, subst (λ v. key ≤ score v) (sym e) le)
  IsPart-FirstAt (a ∷ rest) (y ∷ ys) (dy, d) (inr h) m (inr (q, le)) =
      absurd (All-In (λ v. v ≢ y) ys dy (In-IsPart x (a ∷ rest) ys h m) (sym q))
  IsPart-FirstAt (a ∷ rest) (y ∷ ys) (dy, d) (inr h) m (inl (lt, f)) =
      IsPart-FirstAt (a ∷ rest) ys d h m f
  IsPart-FirstAt (a ∷ rest) (y ∷ ys) (dy, d) (inl (e, h)) m (inl (lt, f)) =
      let (_, le) = FirstAt-le ys f in
      let below : score a < key = subst (λ v. score v < key) (sym e) lt in
      elim m [
        | inl k ↦ absurd (apart (subst (λ v. score v < key) (sym k) below) le)
        | inr later ↦ inl (below, IsPart-FirstAt rest ys d h later f)
      ]
    where
      apart : {a b : ℕ} → a < b → b ≤ a → ⊥
      apart lt le = omega arith

-- No pointer of a row leads to a node that is not in it.
pub points_inside :
    (f : ℕ → ℕ → ℕ) (i p q x : ℕ) (xs : List ℕ)
    → Chain f i p xs
    → x ≢ 0
    → ¬ In x xs
    → (q ≡ p) ⊎ In q xs
    → f q i ≢ x
points_inside f i p q x [] c nz away (inl e) = λ k. nz (sym k ∙ ap (λ (v : ℕ). f v i) e ∙ c)
points_inside f i p q x [] c nz away (inr m) = absurd m
points_inside f i p q x (y ∷ ys) (e, ny, c) nz away (inl k) =
    λ z. away (inl (sym z ∙ ap (λ (v : ℕ). f v i) k ∙ e))
points_inside f i p q x (y ∷ ys) (e, ny, c) nz away (inr m) =
    points_inside f i y q x ys c nz (λ k. away (inr k)) m

pub find-first :
    (fuel : ℕ) (s : SkipList) (n key p : ℕ) (upd : ℕ → ℕ)
    → 0 < n
    → (find fuel s n key p upd).1 ≡ (find fuel s n key p upd).0 0
unfolding find
find-first fuel s zero key p upd lt = absurd (omega arith)
find-first fuel s (suc zero) key p upd lt = sym (update_self upd 0 (walk fuel s 0 key p))
find-first fuel s (suc (suc n)) key p upd lt =
    let y = walk fuel s (suc n) key p in
    find-first fuel s (suc n) key y (update upd (suc n) y) (omega arith)

pub Chain-nonzero : (f : ℕ → ℕ → ℕ) (i p x : ℕ) (xs : List ℕ) → Chain f i p xs → In x xs → x ≢ 0
Chain-nonzero f i p x [] c m = absurd m
Chain-nonzero f i p x (y ∷ ys) (e, nz, c) (inl k) = λ z. nz (sym k ∙ z)
Chain-nonzero f i p x (y ∷ ys) (e, nz, c) (inr m) = Chain-nonzero f i y x ys c m

-- With the key of a node that is first on level 0 it is first on each level that it is on.
pub first_on :
    {s : SkipList} {rows : ℕ → List ℕ} (o : Ordered s rows) (key x : ℕ)
    → FirstAt s.score key x (rows 0)
    → (i : ℕ) → i < zskiplist_maxlevel
    → In x (rows i)
    → FirstAt s.score key x (rows i)
first_on o key x f zero lt m = f
first_on {s} {rows} o key x f (suc i) lt m =
    let m' = In-IsPart x (rows (suc i)) (rows i) (o.part i lt) m in
    IsPart-FirstAt s.score key x (rows (suc i)) (rows i) (o.distinct i (omega arith)).1
      (o.part i lt) m (first_on o key x f i (omega arith) m')
