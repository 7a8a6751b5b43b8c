-- ===== src/Prelude/Dict.antt =====
-- Python's `dict` in insertion order. Proofs elsewhere go by the laws; tests unfold the operations.

use mathlib.Core.Path.{◌≡◌, refl}
use mathlib.Core.Bool.{Bool, true, false}
use mathlib.Core.Option.{Option, none, some}
use mathlib.Core.List.{List, [], ◌∷◌}
use native.Mathlib.Omega.{arith}
use poodillion.Prelude.Tests.{Eq, ◌==◌, if◌then◌else◌}

abbrev pub Dict {ℓ κ} : Type ℓ → Type κ → Type (ℓ ⊔ κ)
Dict K V = List (K × V)

-- `d.keys()`, `d.values()`
unfoldable pub keys {ℓ κ} : {K : Type ℓ} {V : Type κ} → Dict K V → List K
keys [] = []
keys ((k, v) ∷ d) = k ∷ keys d

unfoldable pub values {ℓ κ} : {K : Type ℓ} {V : Type κ} → Dict K V → List V
values [] = []
values ((k, v) ∷ d) = v ∷ values d

-- A change of every value, in place.
unfoldable pub map_values {ℓ κ} : {K : Type ℓ} {V : Type κ} → (V → V) → Dict K V → Dict K V
map_values f [] = []
map_values f ((k, v) ∷ d) = (k, f v) ∷ map_values f d

module _ {ℓ κ} {K : Type ℓ} {V : Type κ} ⦃e : Eq K⦄ where
  -- `d.get(k)`
  unfoldable pub lookup : K → Dict K V → Option V
  lookup k [] = none
  lookup k ((j, w) ∷ d) = if k == j then some w else lookup k d

  -- `k in d`
  abbrev pub has : K → Dict K V → Bool
  has k d = elim (lookup k d) [ none ↦ false | some _ ↦ true ]

  -- `d[k] = v`
  unfoldable pub insert : K → V → Dict K V → Dict K V
  insert k v [] = (k, v) ∷ []
  insert k v ((j, w) ∷ d) = if k == j then (k, v) ∷ d else (j, w) ∷ insert k v d

  -- `del d[k]`. Every entry of the key goes; a dict has at most one.
  unfoldable pub erase : K → Dict K V → Dict K V
  erase k [] = []
  erase k ((j, w) ∷ d) = let rest = erase k d in if k == j then rest else (j, w) ∷ rest

  pub lookup-nil : (k : K) → lookup k [] ≡ none
  unfolding lookup
  lookup-nil k = refl

  pub lookup-cons :
      (j k : K) (v : V) (d : Dict K V)
      → lookup j ((k, v) ∷ d) ≡ (if j == k then some v else lookup j d)
  unfolding lookup
  lookup-cons j k v d = refl

  pub lookup-insert :
      (j k : K) (v : V) (d : Dict K V)
      → lookup j (insert k v d) ≡ (if j == k then some v else lookup j d)
  unfolding insert lookup
  lookup-insert j k v [] = refl
  lookup-insert j k v (_ ∷ d) = ground (arith, lookup-insert j k v d)

  pub lookup-erase :
      (j k : K) (d : Dict K V) → lookup j (erase k d) ≡ (if j == k then none else lookup j d)
  unfolding erase lookup
  lookup-erase j k [] = ground arith
  lookup-erase j k (_ ∷ d) = ground (arith, lookup-erase j k d)

  pub lookup-map_values :
      (f : V → V) (j : K) (d : Dict K V)
      → lookup j (map_values f d) ≡ elim (lookup j d) [ none ↦ none | some v ↦ some (f v) ]
  unfolding lookup map_values
  lookup-map_values f j [] = refl
  lookup-map_values f j ((k, v) ∷ d) = ground (arith, lookup-map_values f j d)

  -- What a mapped dict holds comes from what the dict held.
  pub lookup-map_values-some :
      (f : V → V) (j : K) (w : V) (d : Dict K V)
      → lookup j (map_values f d) ≡ some w
      → (v : V) × (lookup j d ≡ some v) × (w ≡ f v)
  lookup-map_values-some f j w d h = ground (arith, lookup-map_values f j d)

pub ruleset dict_laws = (lookup-nil, lookup-insert, lookup-erase, lookup-map_values)
