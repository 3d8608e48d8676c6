-- ===== src/Prelude/Maps.antt =====
-- Go's maps with string keys, as association lists. The order of the list is the order in which
-- `range` visits the map, which Go leaves open: what is proved for every list holds in every order.
use Prim.Native.String.{String}
use mathlib.Core.Path.{◌≡◌, refl}
use mathlib.Core.Option.{Option, none, some}
use mathlib.Core.List.{List, [], ◌∷◌}
use native.Mathlib.Omega.{arith}
use faultlab.Prelude.Tests.{if◌then◌else◌}
use faultlab.Prelude.Text.{◌==◌, eq_iff}

abbrev pub GoMap {ℓ} : Type ℓ → Type ℓ
GoMap V = List (String × V)

module _ {ℓ} {V : Type ℓ} where
  -- v, ok := m[k]
  unfoldable pub at : GoMap V → String → Option V
  at [] k = none
  at ((j, v) ∷ m) k = if j == k then some v else at m k

  -- m[k] = v
  unfoldable pub insert : GoMap V → String → V → GoMap V
  insert [] k v = (k, v) ∷ []
  insert ((j, w) ∷ m) k v = if j == k then (j, v) ∷ m else (j, w) ∷ insert m k v

  -- delete(m, k)
  unfoldable pub delete : GoMap V → String → GoMap V
  delete [] k = []
  delete ((j, w) ∷ m) k = let rest = delete m k in if j == k then rest else (j, w) ∷ rest

  -- Each key stands once.
  abbrev pub IsMap : GoMap V → Type ℓ
  IsMap [] = Unit
  IsMap ((k, v) ∷ m) = (at m k ≡ none) × IsMap m

  pub at-insert :
      (m : GoMap V) (k : String) (v : V) (j : String)
      → at (insert m k v) j ≡ (if k == j then some v else at m j)
  unfolding at insert
  at-insert [] k v j = refl
  at-insert ((i, w) ∷ m) k v j =
      ground (arith, eq_iff i k, eq_iff i j, eq_iff k j, at-insert m k v j)

  pub at-delete :
      (m : GoMap V) (k j : String) → at (delete m k) j ≡ (if k == j then none else at m j)
  unfolding at delete
  at-delete [] k j = ground arith
  at-delete ((i, w) ∷ m) k j = ground (arith, eq_iff i k, eq_iff i j, eq_iff k j, at-delete m k j)

  pub insert-IsMap : (m : GoMap V) (k : String) (v : V) → IsMap m → IsMap (insert m k v)
  unfolding at insert
  insert-IsMap [] k v h = (refl, tt)
  insert-IsMap ((i, w) ∷ m) k v h =
      ground (arith, eq_iff i k, eq_iff k i, insert-IsMap m k v h.1, at-insert m k v i)

  pub delete-IsMap : (m : GoMap V) (k : String) → IsMap m → IsMap (delete m k)
  unfolding at delete
  delete-IsMap [] k h = tt
  delete-IsMap ((i, w) ∷ m) k h =
      ground (arith, eq_iff i k, eq_iff k i, delete-IsMap m k h.1, at-delete m k i)

  -- for k, v := range from { into[k] = v }
  unfoldable pub insert_all : GoMap V → GoMap V → GoMap V
  insert_all into [] = into
  insert_all into ((k, v) ∷ from) = insert_all (insert into k v) from

  -- What two maps hold together, the second before the first.
  pub at-insert_all :
      (into from : GoMap V) (k : String)
      → IsMap from
      → at (insert_all into from) k ≡ (elim (at from k) [ none ↦ at into k | some v ↦ some v ])
  unfolding at insert_all
  at-insert_all into [] k h = refl
  at-insert_all into ((j, v) ∷ from) k h =
      ground (arith, at-insert_all (insert into j v) from k h.1, at-insert into j v k, eq_iff j k)

  pub insert_all-IsMap : (into from : GoMap V) → IsMap into → IsMap (insert_all into from)
  unfolding insert_all
  insert_all-IsMap into [] h = h
  insert_all-IsMap into ((k, v) ∷ from) h =
      insert_all-IsMap (insert into k v) from (insert-IsMap into k v h)
