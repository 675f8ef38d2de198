-- ===== src/Common/Words.antt =====
-- Machine words: `uint32_t`, and the values that the code names in it.
use Prim.Native.Nat.{ℕ, ◌+◌, ◌-◌, ◌%◌}

abbrev pub u32_mod : ℕ
u32_mod = 4294967296

-- `-1` converted to `uint32_t`.
abbrev pub u32_max : ℕ
u32_max = 4294967295

abbrev pub add_u32 : ℕ → ℕ → ℕ
add_u32 a b = (a + b) % u32_mod

abbrev pub sub_u32 : ℕ → ℕ → ℕ
sub_u32 a b = (a + u32_mod - b) % u32_mod
