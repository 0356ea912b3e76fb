-- ===== src/Base/Dict.antt =====
-- Go maps as association lists; the list's order stands for the order of a `range` loop.
use mathlib.Core.Path.{◌≡◌, refl}
use mathlib.Core.Option.{Option, none, some}
use mathlib.Core.List.{List, [], ◌∷◌, ◌++◌}
use native.Mathlib.Omega.{arith}
use navlink.Base.Tests.{if◌then◌else◌, Comparable, ◌==◌}

module _ {ℓ κ} {K : Type ℓ} {V : Type κ} ⦃e : Comparable K⦄ where
  -- m[k]
  unfoldable pub lookup : K → List (K × V) → Option V
  lookup k [] = none
  lookup k ((j, v) ∷ m) = if j == k then some v else lookup k m

  -- m[k] = v
  unfoldable pub insert : K → V → List (K × V) → List (K × V)
  insert key value [] = (key, value) ∷ []
  insert key value ((old, w) ∷ m) =
      let rest = insert key value m in if old == key then (key, value) ∷ m else (old, w) ∷ rest

  -- delete(m, k)
  unfoldable pub delete : K → List (K × V) → List (K × V)
  delete k [] = []
  delete k ((j, w) ∷ m) = let rest = delete k m in if j == k then rest else (j, w) ∷ rest

  -- Reading a map after a write.
  pub lookup-insert :
      (key read : K) (value : V) (d : List (K × V))
      → lookup read (insert key value d) ≡ (if key == read then some value else lookup read d)
  unfolding lookup insert
  lookup-insert key read value ((old, _) ∷ d) = ground (
    arith,
    lookup-insert key read value d,
    e.equal_iff old read,
    e.equal_iff old key,
    e.equal_iff key read,
  )
  lookup-insert key read value [] = refl

  pub lookup-delete :
      (k j : K) (m : List (K × V)) → lookup j (delete k m) ≡ (if k == j then none else lookup j m)
  unfolding lookup delete
  lookup-delete k j [] = ground arith
  lookup-delete k j ((i, w) ∷ m) =
      ground (arith, e.equal_iff k j, e.equal_iff i k, e.equal_iff i j, lookup-delete k j m)

module _ {ℓ κ} {K : Type ℓ} {V : Type κ} ⦃e : Comparable K⦄ where
  -- A new key is put at the end.
  pub insert_new :
      (k : K) (v : V) (m : List (K × V)) → lookup k m ≡ none → insert k v m ≡ m ++ ((k, v) ∷ [])
  unfolding insert lookup
  insert_new k v [] new = refl
  insert_new k v ((j, w) ∷ m) new = ground (arith, insert_new k v m)
