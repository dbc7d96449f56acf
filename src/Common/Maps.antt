-- ===== src/Common/Maps.antt =====
-- Go's maps as association lists, in the order in which `range` visits them; signed numbers.
use Prim.Native.Nat.{ℕ}
use Prim.Native.String.{String}
use mathlib.Core.Bool.{Bool}
use mathlib.Core.Option.{Option, none, some}
use mathlib.Core.List.{List, [], ◌∷◌}
use nomici_orchestrator.Common.Tests.{◌==◌, if◌then◌else◌}
use nomici_orchestrator.Common.Lists.{any}

pub data ℤ : Type 0 where
  pos : ℕ → ℤ
  negsuc : ℕ → ℤ

module _ {ℓ} {V : Type ℓ} where
  -- `value, ok := m[key]`
  abbrev pub lookup : String → List (String × V) → Option V
  lookup k [] = none
  lookup k (e ∷ m) = if e.0 == k then some e.1 else lookup k m

  -- `_, ok := m[key]`
  abbrev pub has_key : String → List (String × V) → Bool
  has_key k m = any (λ e. e.0 == k) m

  -- `m[key] = value`
  abbrev pub assign : String → V → List (String × V) → List (String × V)
  assign k v [] = (k, v) ∷ []
  assign k v (e ∷ m) = if e.0 == k then (k, v) ∷ m else e ∷ assign k v m
