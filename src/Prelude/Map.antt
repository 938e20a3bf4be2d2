-- ===== src/Prelude/Map.antt =====
-- Finite maps as association lists: the model of `HashMap`, `BTreeMap` and `DashMap`. A write to a
-- key that is there replaces its first entry, and a new key goes to the end.
use mathlib.Core.Path.{◌≡◌, refl}
use mathlib.Core.List.{List, [], ◌∷◌}
use mathlib.Core.Option.{Option, none, some}
use native.Mathlib.Omega.{arith}
use voltra.Prelude.Tests.{if◌then◌else◌}
use voltra.Prelude.Equality.{Eq, ◌==◌}

abbrev pub Map {ℓ κ} : Type ℓ → Type κ → Type (ℓ ⊔ κ)
Map K V = List (K × V)

module _ {ℓ κ} {K : Type ℓ} {V : Type κ} ⦃e : Eq K⦄ where
  unfoldable pub lookup : K → Map K V → Option V
  lookup k [] = none
  lookup k ((j, v) ∷ m) = if j == k then some v else lookup k m

  unfoldable pub insert : K → V → Map K V → Map K V
  insert k v [] = (k, v) ∷ []
  insert k v ((j, w) ∷ m) = if j == k then (k, v) ∷ m else (j, w) ∷ insert k v m

  unfoldable pub remove : K → Map K V → Map K V
  remove k [] = []
  remove k ((j, w) ∷ m) = let rest = remove k m in if j == k then rest else (j, w) ∷ rest

  pub lookup-insert :
      (new asked : K) (x : V) (entries : Map K V)
      → lookup asked (insert new x entries)
        ≡ (if new == asked then some x else lookup asked entries)
  unfolding lookup insert
  lookup-insert new asked x [] = refl
  lookup-insert new asked x ((i, w) ∷ entries) = ground (
    arith,
    e.equals_iff new asked,
    e.equals_iff i new,
    e.equals_iff i asked,
    lookup-insert new asked x entries,
  )

  pub lookup-remove :
      (k j : K) (m : Map K V) → lookup j (remove k m) ≡ (if k == j then none else lookup j m)
  unfolding lookup remove
  lookup-remove k j [] = ground arith
  lookup-remove k j ((i, w) ∷ m) =
      ground (arith, e.equals_iff k j, e.equals_iff i k, e.equals_iff i j, lookup-remove k j m)

  -- No key stands twice.
  abbrev pub Distinct : Map K V → Type κ
  Distinct [] = Unit
  Distinct ((j, w) ∷ m) = (lookup j m ≡ none) × Distinct m

  pub insert-Distinct : (k : K) (v : V) (m : Map K V) → Distinct m → Distinct (insert k v m)
  unfolding insert lookup
  insert-Distinct k v [] d = (refl, tt)
  insert-Distinct k v ((i, w) ∷ m) d =
      ground (
        arith,
        e.equals_iff i k,
        e.equals_iff k i,
        lookup-insert k i v m,
        insert-Distinct k v m d.1,
      )

  pub remove-Distinct : (k : K) (m : Map K V) → Distinct m → Distinct (remove k m)
  unfolding remove lookup
  remove-Distinct k [] d = tt
  remove-Distinct k ((i, w) ∷ m) d =
      ground
        (arith, e.equals_iff k i, e.equals_iff i k, lookup-remove k i m, remove-Distinct k m d.1)

pub ruleset map_laws = (lookup-insert, lookup-remove)
