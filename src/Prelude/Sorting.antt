-- ===== src/Prelude/Sorting.antt =====
-- The stable sort of the standard library (sort.SliceStable, sort.Strings), by the source's test.
use Prim.Native.Nat.{suc}
use mathlib.Core.Path.{◌≡◌, refl}
use mathlib.Core.Logic.{◌⊎◌, inl, inr}
use mathlib.Core.Bool.{Bool, true, false}
use mathlib.Core.List.{List, [], ◌∷◌}
use native.Mathlib.Omega.{arith}
use faultlab.Prelude.Tests.{if◌then◌else◌, Bool-cases}
use faultlab.Prelude.Lists.{All, length}

-- Some member of the list has the property.
abbrev pub Any {ℓ} : {A : Type ℓ} → (A → Type 0) → List A → Type 0
Any P [] = ⊥
Any P (x ∷ xs) = P x ⊎ Any P xs

module _ {ℓ} {A : Type ℓ} (lt : A → A → Bool) where
  -- `x` goes before the first element that is not below it, so equal elements keep their order.
  unfoldable pub insert_sorted : A → List A → List A
  insert_sorted x [] = x ∷ []
  insert_sorted x (y ∷ ys) =
      let rest = insert_sorted x ys in if lt y x then y ∷ rest else x ∷ y ∷ ys

  unfoldable pub sort_stable : List A → List A
  unfolding insert_sorted
  sort_stable [] = []
  sort_stable (x ∷ xs) = insert_sorted x (sort_stable xs)

  -- No element is below an earlier one.
  abbrev pub IsSorted : List A → Type 0
  IsSorted [] = Unit
  IsSorted (x ∷ xs) = All (λ y. lt y x ≡ false) xs × IsSorted xs

  insert_sorted-All :
      (P : A → Type 0) (x : A) (ys : List A) → P x → All P ys → All P (insert_sorted x ys)
  unfolding insert_sorted
  insert_sorted-All P x [] p h = (p, tt)
  insert_sorted-All P x (y ∷ ys) p (q, h) = elim (Bool-cases (lt y x)) [
    | inl e ↦ rw e (q, insert_sorted-All P x ys p h)
    | inr e ↦ rw e (p, (q, h))
  ]

  All-insert_sorted :
      (P : A → Type 0) (x : A) (ys : List A) → All P (insert_sorted x ys) → P x × All P ys
  unfolding insert_sorted
  All-insert_sorted P x [] h = h
  All-insert_sorted P x (y ∷ ys) h = elim (Bool-cases (lt y x)) [
    | inl e ↦
        let (q, r) : P y × All P (insert_sorted x ys) = rw e at h in
        let (p, t) = All-insert_sorted P x ys r in (p, (q, t))
    | inr e ↦ rw e at h
  ]

  pub sort_stable-All : (P : A → Type 0) (xs : List A) → All P xs → All P (sort_stable xs)
  unfolding sort_stable
  sort_stable-All P [] h = tt
  sort_stable-All P (x ∷ xs) (p, h) =
      insert_sorted-All P x (sort_stable xs) p (sort_stable-All P xs h)

  pub All-sort_stable : (P : A → Type 0) (xs : List A) → All P (sort_stable xs) → All P xs
  unfolding sort_stable
  All-sort_stable P [] h = tt
  All-sort_stable P (x ∷ xs) h =
      let (p, t) = All-insert_sorted P x (sort_stable xs) h in (p, All-sort_stable P xs t)

  Any-insert_sorted :
      (P : A → Type 0) (x : A) (ys : List A) → Any P (insert_sorted x ys) → P x ⊎ Any P ys
  unfolding insert_sorted
  Any-insert_sorted P x [] h = h
  Any-insert_sorted P x (y ∷ ys) h = elim (Bool-cases (lt y x)) [
    | inl e ↦
        let split : P y ⊎ Any P (insert_sorted x ys) = rw e at h in
        elim split [
          | inl q ↦ inr (inl q)
          | inr r ↦ elim (Any-insert_sorted P x ys r) [ inl p ↦ inl p | inr t ↦ inr (inr t) ]
        ]
    | inr e ↦ rw e at h
  ]

  pub Any-sort_stable : (P : A → Type 0) (xs : List A) → Any P (sort_stable xs) → Any P xs
  unfolding sort_stable
  Any-sort_stable P [] h = h
  Any-sort_stable P (x ∷ xs) h = elim (Any-insert_sorted P x (sort_stable xs) h) [
    | inl p ↦ inl p
    | inr t ↦ inr (Any-sort_stable P xs t)
  ]

  length-insert_sorted : (x : A) (ys : List A) → length (insert_sorted x ys) ≡ suc (length ys)
  unfolding insert_sorted
  length-insert_sorted x [] = refl
  length-insert_sorted x (y ∷ ys) = ground (arith, length-insert_sorted x ys)

  pub length-sort_stable : (xs : List A) → length (sort_stable xs) ≡ length xs
  unfolding sort_stable
  length-sort_stable [] = refl
  length-sort_stable (x ∷ xs) =
      ground (arith, length-insert_sorted x (sort_stable xs), length-sort_stable xs)

  -- For a strict weak order the result is sorted.
  module _ (asymm : (x y : A) → lt x y ≡ true → lt y x ≡ false)
      (negtrans : (x y z : A) → lt x y ≡ false → lt y z ≡ false → lt x z ≡ false) where
    above :
        (x y : A) (zs : List A)
        → lt y x ≡ false
        → All (λ z. lt z y ≡ false) zs
        → All (λ z. lt z x ≡ false) zs
    above x y [] h hs = tt
    above x y (z ∷ zs) h (k, ks) = (negtrans z y x k h, above x y zs h ks)

    insert_sorted-IsSorted : (x : A) (ys : List A) → IsSorted ys → IsSorted (insert_sorted x ys)
    unfolding insert_sorted
    insert_sorted-IsSorted x [] h = (tt, tt)
    insert_sorted-IsSorted x (y ∷ ys) (h, s) = elim (Bool-cases (lt y x)) [
      | inl e ↦ rw e (
        insert_sorted-All (λ z. lt z y ≡ false) x ys (asymm y x e) h,
        insert_sorted-IsSorted x ys s,
      )
      | inr e ↦ rw e ((e, above x y ys e h), (h, s))
    ]

    pub sort_stable-IsSorted : (xs : List A) → IsSorted (sort_stable xs)
    unfolding sort_stable
    sort_stable-IsSorted [] = tt
    sort_stable-IsSorted (x ∷ xs) =
        insert_sorted-IsSorted x (sort_stable xs) (sort_stable-IsSorted xs)
