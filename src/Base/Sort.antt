-- ===== src/Base/Sort.antt =====
-- `sorted`: a list in ascending order, by insertion.
use mathlib.Core.Path.{◌≡◌}
use mathlib.Core.Logic.{◌⊎◌, ◌↔◌, inl, inr}
use mathlib.Core.List.{List, [], ◌∷◌}
use suprime.Base.Key.{Order, ◌≺◌}
use suprime.Base.Lists.{In}
use suprime.Base.Tests.{if◌then◌else◌, Bool-cases}

module _ {A : Type 0} ⦃o : Order A⦄ where
  unfoldable pub insert : A → List A → List A
  insert a [] = a ∷ []
  insert a (x ∷ xs) = let rest = insert a xs in if a ≺ x then a ∷ x ∷ xs else x ∷ rest

  unfoldable pub sorted : List A → List A
  unfolding insert
  sorted [] = []
  sorted (x ∷ xs) = insert x (sorted xs)

  In-insert : (a b : A) (xs : List A) → In b (insert a xs) ↔ ((a ≡ b) ⊎ In b xs)
  unfolding insert
  In-insert a b [] = (λ h. h, λ h. h)
  In-insert a b (x ∷ xs) = elim (Bool-cases (a ≺ x)) [
    | inl less ↦ rw less (λ h. h, λ h. h)
    | inr more ↦ rw more (
      λ h. elim h [
        | inl here ↦ inr (inl here)
        | inr there ↦ elim ((In-insert a b xs).0 there) [
          | inl same ↦ inl same
          | inr old ↦ inr (inr old)
        ]
      ],
      λ h. elim h [
        | inl same ↦ inr ((In-insert a b xs).1 (inl same))
        | inr (inl here) ↦ inl here
        | inr (inr old) ↦ inr ((In-insert a b xs).1 (inr old))
      ],
    )
  ]

  -- Sorting keeps the elements.
  pub In-sorted : (b : A) (xs : List A) → In b (sorted xs) ↔ In b xs
  unfolding sorted
  In-sorted b [] = (λ h. h, λ h. h)
  In-sorted b (x ∷ xs) = (
    λ h. elim ((In-insert x b (sorted xs)).0 h) [
      | inl same ↦ inl same
      | inr old ↦ inr ((In-sorted b xs).0 old)
    ],
    λ h.
        (In-insert x b (sorted xs)).1
          (elim h [ inl same ↦ inl same | inr old ↦ inr ((In-sorted b xs).1 old) ]),
  )
