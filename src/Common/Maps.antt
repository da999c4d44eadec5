-- ===== src/Common/Maps.antt =====
-- A `Map` as the list of its entries, in the order of first insertion.
use mathlib.Core.Path.{◌≡◌, refl}
use mathlib.Core.Option.{Option, none, some}
use mathlib.Core.List.{List, [], ◌∷◌}
use native.Mathlib.Omega.{arith}
use minister.Common.Tests.{if◌then◌else◌}
use minister.Common.Equality.{Comparable, ◌==◌}

abbrev pub Entries {ℓ κ} : Type ℓ → Type κ → Type (ℓ ⊔ κ)
Entries K V = List (K × V)

module _ {ℓ κ} {K : Type ℓ} {V : Type κ} ⦃c : Comparable K⦄ where
  -- `entries.get(key)`.
  unfoldable pub lookup : Entries K V → K → Option V
  lookup [] key = none
  lookup ((k, v) ∷ entries) key = if k == key then some v else lookup entries key

  -- `entries.set(key, value)`.
  unfoldable pub insert : Entries K V → K → V → Entries K V
  insert [] key value = (key, value) ∷ []
  insert ((k, v) ∷ entries) key value =
      if k == key then (key, value) ∷ entries else (k, v) ∷ insert entries key value

  pub lookup-insert :
      (entries : Entries K V) (key other : K) (value : V)
      → lookup (insert entries key value) other
        ≡ (if key == other then some value else lookup entries other)
  unfolding insert lookup
  lookup-insert [] key other value = refl
  lookup-insert ((k, v) ∷ entries) key other value = ground (
    arith,
    lookup-insert entries key other value,
    c.same_iff k key,
    c.same_iff k other,
    c.same_iff key other,
  )

module _ {ℓ κ} {K : Type ℓ} {V : Type κ} ⦃c : Comparable K⦄ where
  -- `entries.delete(key)`, where no key has two entries.
  unfoldable pub erase : Entries K V → K → Entries K V
  erase [] key = []
  erase ((k, v) ∷ entries) key = if k == key then erase entries key else (k, v) ∷ erase entries key

  pub lookup-erase :
      (entries : Entries K V) (key other : K)
      → lookup (erase entries key) other ≡ (if key == other then none else lookup entries other)
  unfolding erase lookup
  lookup-erase [] key other = ground arith
  lookup-erase ((k, v) ∷ entries) key other = ground (
    arith,
    lookup-erase entries key other,
    c.same_iff k key,
    c.same_iff k other,
    c.same_iff key other,
  )

module _ {ℓ κ} {K : Type ℓ} {V : Type κ} ⦃c : Comparable K⦄ where
  -- Every key has one entry.
  abbrev pub IsMap : Entries K V → Type κ
  IsMap [] = Unit
  IsMap ((k, v) ∷ entries) = (lookup entries k ≡ none) × IsMap entries

  pub insert-IsMap :
      (entries : Entries K V) (key : K) (value : V)
      → IsMap entries
      → IsMap (insert entries key value)
  unfolding insert lookup
  insert-IsMap [] key value h = (refl, tt)
  insert-IsMap ((k, v) ∷ entries) key value h = ground (
    arith,
    c.same_iff k key,
    c.same_iff key k,
    lookup-insert entries key k value,
    insert-IsMap entries key value h.1,
  )
