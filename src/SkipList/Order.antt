-- ===== src/SkipList/Order.antt =====
-- The level that zslRandomLevel draws.
use basic_component_design.Common.{ℕ, zero, suc, ◌≤◌, Bool, arith}
use basic_component_design.SkipList.{zskiplist_maxlevel, draw_level, zsl_random_level}

draw_level-le : (fuel : ℕ) (coin : ℕ → Bool) (level : ℕ) → level ≤ draw_level fuel coin level
unfolding draw_level
draw_level-le zero coin level = omega arith
draw_level-le (suc fuel) coin level = ground (arith, draw_level-le fuel coin (suc level))

-- The drawn level is between 1 and 32.
zsl_random_level_lem :
    (fuel : ℕ) (coin : ℕ → Bool)
    → (1 ≤ zsl_random_level fuel coin) × (zsl_random_level fuel coin ≤ zskiplist_maxlevel)
unfolding zsl_random_level
zsl_random_level_lem fuel coin = ground (arith, draw_level-le fuel coin 1)
