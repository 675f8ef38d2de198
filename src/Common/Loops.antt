-- ===== src/Common/Loops.antt =====
-- A `while` loop on fuel, and its rule: with a measure below the fuel it ends by its own test.
use Prim.Native.Nat.{ℕ, zero, suc, ◌<◌}
use mathlib.Core.Path.{◌≡◌}
use mathlib.Core.Logic.{inl, inr}
use mathlib.Core.Bool.{Bool, true, false}
use native.Mathlib.Omega.{arith}
use basic_component_design.Common.Tests.{Bool-cases}

module _ {ℓ} {S : Type ℓ} (test : S → Bool) (body : S → S) where
  unfoldable pub while : ℕ → S → S
  while zero state = state
  while (suc fuel) state =
      let rest = while fuel (body state) in elim (test state) [ true ↦ rest | false ↦ state ]

  module _ {κ} (P : S → Type κ) (left : S → ℕ)
      (turn : (state : S)
        → test state ≡ true
        → P state
        → (left (body state) < left state) × P (body state)) where
    pub while_lem :
        (fuel : ℕ) (state : S)
        → P state
        → left state < fuel
        → (test (while fuel state) ≡ false) × P (while fuel state)
    unfolding while
    while_lem zero state h m = absurd (omega arith)
    while_lem (suc fuel) state h m = elim (Bool-cases (test state)) [
      | inl t ↦
          let (lt, h') = turn state t h in
          rw (t, while) (while_lem fuel (body state) h' (omega arith))
      | inr t ↦ rw (t, while) (t, h)
    ]
