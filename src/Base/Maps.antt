-- ===== src/Base/Maps.antt =====
-- A Go map as an association list: the order of the list is the order in which `range` visits it.
use mathlib.Core.Path.{◌≡◌, refl}
use mathlib.Core.Logic.{inl, inr}
use mathlib.Core.Bool.{Bool, true, false}
use mathlib.Core.List.{List, [], ◌∷◌}
use mathlib.Core.Option.{Option, none, some}
use native.Mathlib.Omega.{arith}
use erie_canal_net.Base.Tests.{Eq, ◌==◌, if◌then◌else◌, Bool-cases}

abbrev pub Assoc {ℓ κ} : Type ℓ → Type κ → Type (ℓ ⊔ κ)
Assoc K V = List (K × V)

module _ {ℓ κ} {K : Type ℓ} {V : Type κ} ⦃e : Eq K⦄ where
  unfoldable pub lookup : K → Assoc K V → Option V
  lookup key [] = none
  lookup key ((at, value) ∷ rest) = if at == key then some value else lookup key rest

  -- `m[k] = v`
  unfoldable pub insert : K → V → Assoc K V → Assoc K V
  insert key value [] = (key, value) ∷ []
  insert key value ((at, old) ∷ rest) =
      if at == key then (key, value) ∷ rest else (at, old) ∷ insert key value rest

  -- `delete(m, k)`
  unfoldable pub remove : K → Assoc K V → Assoc K V
  remove k [] = []
  remove k ((j, w) ∷ m) = let rest = remove k m in if j == k then rest else (j, w) ∷ rest

  -- `_, exist := m[k]`
  abbrev pub has_key : K → Assoc K V → Bool
  has_key k m = elim (lookup k m) [ none ↦ false | some _ ↦ true ]

  pub lookup-insert :
      (key other : K) (value : V) (m : Assoc K V)
      → lookup other (insert key value m) ≡ (if key == other then some value else lookup other m)
  unfolding lookup insert
  lookup-insert key other value [] = refl
  lookup-insert key other value ((at, old) ∷ m) = ground (
    arith,
    e.test_iff key other,
    e.test_iff at key,
    e.test_iff at other,
    lookup-insert key other value m,
  )

  pub lookup-remove :
      (k j : K) (m : Assoc K V) → lookup j (remove k m) ≡ (if k == j then none else lookup j m)
  unfolding lookup remove
  lookup-remove k j [] = ground arith
  lookup-remove k j ((i, w) ∷ m) =
      ground (arith, e.test_iff k j, e.test_iff i k, e.test_iff i j, lookup-remove k j m)

  -- No key occurs twice, as in every Go map.
  abbrev pub UniqueKeys : Assoc K V → Type κ
  UniqueKeys [] = Unit
  UniqueKeys ((k, v) ∷ m) = (lookup k m ≡ none) × UniqueKeys m

  pub remove_absent : (k : K) (m : Assoc K V) → lookup k m ≡ none → remove k m ≡ m
  unfolding lookup remove
  remove_absent k [] h = refl
  remove_absent k ((j, v) ∷ m) h = ground (arith, remove_absent k m)

  pub insert-UniqueKeys : (k : K) (v : V) (m : Assoc K V) → UniqueKeys m → UniqueKeys (insert k v m)
  unfolding insert lookup
  insert-UniqueKeys k v [] u = (refl, tt)
  insert-UniqueKeys k v ((j, w) ∷ m) u = elim (Bool-cases (j == k)) [
    | inl same ↦ rw same (rw (← (e.test_iff j k).0 same) u.0, u.1)
    | inr other ↦ rw other (
      ground (arith, lookup-insert k j v m, e.test_iff j k, e.test_iff k j, u.0),
      insert-UniqueKeys k v m u.1,
    )
  ]

  absent_after_remove : (k j : K) (m : Assoc K V) → lookup j m ≡ none → lookup j (remove k m) ≡ none
  absent_after_remove k j m h = rw lookup-remove (ground arith)

  pub remove-UniqueKeys : (k : K) (m : Assoc K V) → UniqueKeys m → UniqueKeys (remove k m)
  unfolding remove
  remove-UniqueKeys k [] u = tt
  remove-UniqueKeys k ((j, w) ∷ m) u = elim (Bool-cases (j == k)) [
    | inl same ↦ rw same (remove-UniqueKeys k m u.1)
    | inr other ↦ rw other (absent_after_remove k j m u.0, remove-UniqueKeys k m u.1)
  ]

  pub has_key-insert :
      (k j : K) (v : V) (m : Assoc K V)
      → has_key j (insert k v m) ≡ (if k == j then true else has_key j m)
  has_key-insert k j v m = ground (arith, lookup-insert k j v m)

  pub has_key-remove :
      (k j : K) (m : Assoc K V) → has_key j (remove k m) ≡ (if k == j then false else has_key j m)
  has_key-remove k j m = ground (arith, lookup-remove k j m)
