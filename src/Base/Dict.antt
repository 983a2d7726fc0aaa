-- ===== src/Base/Dict.antt =====
-- A Python dictionary as the list of its entries, in the order in which the keys came.
use Prim.Native.Nat.{ℕ, ◌+◌}
use mathlib.Core.Option.{Option, none, some}
use mathlib.Core.List.{List, [], ◌∷◌, ◌++◌, map}
use condora.Base.Tests.{if◌then◌else◌}
use condora.Base.Equality.{Comparable, ◌==◌}

module _ {ℓ κ} {K : Type ℓ} {V : Type κ} where
  abbrev pub keys : List (K × V) → List K
  keys m = map (λ e. e.0) m

  abbrev pub values : List (K × V) → List V
  values m = map (λ e. e.1) m

module _ {ℓ κ} {K : Type ℓ} {V : Type κ} ⦃e : Comparable K⦄ where
  -- `m.get(k)`
  unfoldable pub lookup : K → List (K × V) → Option V
  lookup k [] = none
  lookup k ((j, v) ∷ m) = if j == k then some v else lookup k m

  -- `m.get(k, default)`
  abbrev pub get_or : K → V → List (K × V) → V
  get_or k d m = elim (lookup k m) [ none ↦ d | some v ↦ v ]

  -- `m[k] = v`: a key that is there keeps its place.
  unfoldable pub insert : K → V → List (K × V) → List (K × V)
  insert k v [] = (k, v) ∷ []
  insert k v ((j, w) ∷ m) = if j == k then (j, v) ∷ m else (j, w) ∷ insert k v m

module _ {ℓ κ} {K : Type ℓ} {V : Type κ} ⦃e : Comparable K⦄ where
  -- `m.setdefault(k, []).append(v)`
  unfoldable pub append_at : K → V → List (K × List V) → List (K × List V)
  append_at k v [] = (k, v ∷ []) ∷ []
  append_at k v ((j, vs) ∷ m) = if j == k then (j, vs ++ v ∷ []) ∷ m else (j, vs) ∷ append_at k v m

module _ {ℓ} {K : Type ℓ} ⦃e : Comparable K⦄ where
  -- `m[k] = m.get(k, 0) + 1`
  unfoldable pub increment : K → List (K × ℕ) → List (K × ℕ)
  increment k [] = (k, 1) ∷ []
  increment k ((j, n) ∷ m) = if j == k then (j, n + 1) ∷ m else (j, n) ∷ increment k m
