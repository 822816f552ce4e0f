-- ===== src/Prelude/Map.antt =====
-- A Go map as an association list: the list's order stands for the order of a `range` loop.
use mathlib.Core.Path.{◌≡◌, refl, ap}
use mathlib.Core.Logic.{◌≢◌, inl, inr}
use mathlib.Core.Bool.{Bool}
use mathlib.Core.List.{List, [], ◌∷◌}
use mathlib.Core.Option.{Option, none, some}
use native.Mathlib.Omega.{arith}
use innerstack.Prelude.Tests.{if◌then◌else◌, Bool-cases}
use innerstack.Prelude.Keys.{KeyEq, ◌==◌, same_refl}

abbrev pub Map {ℓ} : Type 0 → Type ℓ → Type ℓ
Map K V = List (K × V)

module _ {ℓ} {K : Type 0} {V : Type ℓ} ⦃e : KeyEq K⦄ where
  -- m[k] = v
  unfoldable pub insert : K → V → Map K V → Map K V
  insert k new [] = (k, new) ∷ []
  insert k new ((i, old) ∷ rest) =
      let tail = insert k new rest in if i == k then (i, new) ∷ rest else (i, old) ∷ tail

  -- v, ok := m[k]
  unfoldable pub lookup : K → Map K V → Option V
  lookup k [] = none
  lookup k ((i, v) ∷ rest) = let later = lookup k rest in if i == k then some v else later

  -- delete(m, k)
  unfoldable pub delete : K → Map K V → Map K V
  delete k [] = []
  delete k ((j, w) ∷ m) = let rest = delete k m in if j == k then rest else (j, w) ∷ rest

  -- A loop that deletes the keys which fail a test.
  unfoldable pub keep_keys : (K → Bool) → Map K V → Map K V
  keep_keys p [] = []
  keep_keys p ((j, w) ∷ m) = let rest = keep_keys p m in if p j then (j, w) ∷ rest else rest

  -- What a read gives after a write, and, below, after a deletion.
  pub lookup-insert :
      (k asked : K) (new : V) (m : Map K V)
      → lookup asked (insert k new m) ≡ (if k == asked then some new else lookup asked m)
  unfolding insert lookup
  lookup-insert k asked new [] = refl
  lookup-insert k asked new ((i, old) ∷ rest) = ground (
    arith,
    lookup-insert k asked new rest,
    e.same_iff i k,
    e.same_iff i asked,
    e.same_iff k asked,
  )

  pub lookup-delete :
      (k j : K) (m : Map K V) → lookup j (delete k m) ≡ (if k == j then none else lookup j m)
  unfolding lookup delete
  lookup-delete k j [] = ground arith
  lookup-delete k j ((i, w) ∷ m) =
      ground (arith, e.same_iff k j, e.same_iff i k, e.same_iff i j, lookup-delete k j m)

  pub lookup-keep_keys :
      (p : K → Bool) (j : K) (m : Map K V)
      → lookup j (keep_keys p m) ≡ (if p j then lookup j m else none)
  unfolding lookup keep_keys
  lookup-keep_keys p j [] = ground arith
  lookup-keep_keys p j ((i, w) ∷ m) = elim (Bool-cases (i == j)) [
    | inl same ↦
        let s : i ≡ j = (e.same_iff i j).0 same in ground (arith, ap p s, lookup-keep_keys p j m)
    | inr other ↦ ground (arith, lookup-keep_keys p j m)
  ]

  pub lookup-insert_self : (k : K) (v : V) (m : Map K V) → lookup k (insert k v m) ≡ some v
  lookup-insert_self k v m = rw (lookup-insert, same_refl)

  pub lookup-insert_ne :
      (k j : K) (v : V) (m : Map K V) → k ≢ j → lookup j (insert k v m) ≡ lookup j m
  lookup-insert_ne k j v m ne = ground (arith, lookup-insert k j v m, e.same_iff k j)
