-- ===== src/Common/Texts.antt =====
-- Texts as the lists of their bytes, integers, and maps from texts to texts.
use Prim.Native.Char.{code}
use Prim.Native.String.{String}
use Prim.Native.Nat.{ℕ}
use mathlib.Core.Bool.{Bool, true, false, ◌&&◌}
use mathlib.Core.List.{List, [], ◌∷◌}
use mathlib.Core.Option.{Option, none, some}
use basic_component_design.Common.Tests.{◌==◌, if◌then◌else◌}

abbrev pub Text : Type 0
Text = List ℕ

-- The bytes of an ASCII literal.
abbrev pub codes : String → Text
codes String.[] = []
codes (String.◌∷◌ c s) = code c ∷ codes s

abbrev pub text_eq : Text → Text → Bool
text_eq [] [] = true
text_eq [] (b ∷ bs) = false
text_eq (a ∷ xs) [] = false
text_eq (a ∷ xs) (b ∷ bs) = (a == b) && text_eq xs bs

-- `negsuc n` is -(n + 1)
pub data ℤ : Type 0 where
  pos : ℕ → ℤ
  negsuc : ℕ → ℤ

abbrev pub is_zero : ℤ → Bool
is_zero (pos n) = n == 0
is_zero (negsuc n) = false

-- A map with its entries in some order.
abbrev pub TextMap : Type 0
TextMap = List (Text × Text)

abbrev pub lookup : Text → TextMap → Option Text
lookup k [] = none
lookup k (e ∷ m) = if text_eq k e.0 then some e.1 else lookup k m

-- `m[k] = v`
abbrev pub assign : Text → Text → TextMap → TextMap
assign k v [] = (k, v) ∷ []
assign k v (e ∷ m) = if text_eq k e.0 then (k, v) ∷ m else e ∷ assign k v m

-- `m.insert(make_pair(k, v))`, which leaves an entry that is there.
abbrev pub insert : Text → Text → TextMap → TextMap
insert k v [] = (k, v) ∷ []
insert k v (e ∷ m) = if text_eq k e.0 then e ∷ m else e ∷ insert k v m
