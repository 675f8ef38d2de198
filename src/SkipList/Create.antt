-- ===== src/SkipList/Create.antt =====
-- zslCreate gives a list in order, with no node on any level.
use basic_component_design.Common.{
  ℕ, zero, suc, ◌+◌, ◌<◌, ◌≤◌, ◌≡◌, refl, sym, ap, ◌∙◌, inr, [], arith,
}
use basic_component_design.SkipList.{
  SkipList, zskiplist_maxlevel, set_forward, zsl_create_node, clear_levels, zsl_create,
}
use basic_component_design.SkipList.Find.{Ordered}
use basic_component_design.SkipList.Link.{Same, set_here, set_else}
use native.Mathlib.Decide.{ℕ_discrete}

cleared-Same : (n j : ℕ) (s : SkipList) → Same s (clear_levels n j s)
unfolding clear_levels set_forward
cleared-Same zero j s = (refl, refl, refl, refl)
cleared-Same (suc n) j s =
    let (a, b, c, d) = cleared-Same n (suc j) (set_forward s.header j 0 s) in (a, b, c, d)

cleared_else :
    (n j i : ℕ) (s : SkipList)
    → i < j
    → (clear_levels n j s).forward s.header i ≡ s.forward s.header i
unfolding clear_levels set_forward
cleared_else zero j i s lt = refl
cleared_else (suc n) j i s lt =
    cleared_else n (suc j) i (set_forward s.header j 0 s) (omega arith)
    ∙ set_else s.header j 0 s s.header i (inr (omega arith))

cleared_lem :
    (n j i : ℕ) (s : SkipList) → j ≤ i → i < j + n → (clear_levels n j s).forward s.header i ≡ 0
unfolding clear_levels set_forward
cleared_lem zero j i s ge lt = absurd (omega arith)
cleared_lem (suc n) j i s ge lt = elim (ℕ_discrete j i) [
  | yes e ↦
      cleared_else n (suc j) i (set_forward s.header j 0 s) (omega arith)
      ∙ ap (λ (k : ℕ). (set_forward s.header j 0 s).forward s.header k) (sym e)
      ∙ set_here s.header j 0 s
  | no n_e ↦ cleared_lem n (suc j) i (set_forward s.header j 0 s) (omega arith) (omega arith)
]

cleared-Ordered :
    (s : SkipList) → s.level ≡ 1 → Ordered (clear_levels zskiplist_maxlevel 0 s) (λ i. [])
cleared-Ordered s one =
    let (a, _, c, _) = cleared-Same zskiplist_maxlevel 0 s in
    let w = clear_levels zskiplist_maxlevel 0 s in
    record {
      level_pos = omega (arith, c, one);
      level_le = omega (arith, c, one);
      chain = λ i lt.
          ap (λ (h : ℕ). w.forward h i) a
          ∙ cleared_lem zskiplist_maxlevel 0 i s (omega arith) (omega arith);
      above = λ i ge lt. refl;
      part = λ i lt. tt;
      sorted = λ i lt. tt;
      distinct = λ i lt. (tt, tt);
    }

-- Whatever the memory of the new structs held, zslCreate gives a list in order that has no node.
pub zsl_create-Ordered :
    (memory : ℕ → ℕ → ℕ) (header default_handler : ℕ)
    → Ordered (zsl_create memory header default_handler) (λ i. [])
unfolding zsl_create zsl_create_node
zsl_create-Ordered memory header default_handler = cleared-Ordered _ refl

pub zsl_create-length :
    (memory : ℕ → ℕ → ℕ) (header default_handler : ℕ)
    → (zsl_create memory header default_handler).length ≡ 0
unfolding zsl_create zsl_create_node
zsl_create-length memory header default_handler =
    let (_, l, _, _) = cleared-Same zskiplist_maxlevel 0 _ in l
