-- ===== src/Common/Maps.antt =====
-- Memory as a map from addresses or indices: a write changes one place.
use Prim.Native.Nat.{ℕ}
use mathlib.Core.Path.{◌≡◌}
use mathlib.Core.Logic.{◌≢◌}
use native.Mathlib.Omega.{arith}
use basic_component_design.Common.Tests.{◌==◌, if◌then◌else◌}

module _ {ℓ} {A : Type ℓ} (f : ℕ → A) (i : ℕ) (v : A) where
  abbrev pub update : ℕ → A
  update j = if i == j then v else f j

  pub update_self : update i ≡ v
  update_self = ground arith

  pub update_ne : (j : ℕ) → i ≢ j → update j ≡ f j
  update_ne j h = ground arith
