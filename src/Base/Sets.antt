-- ===== src/Base/Sets.antt =====
-- Python's `set`: a list read by membership alone, which adds an element once.
use mathlib.Core.Path.{◌≡◌, refl}
use mathlib.Core.Bool.{Bool, true, false, ◌&&◌, ◌||◌, not}
use mathlib.Core.List.{List, [], ◌∷◌, ◌++◌}
use native.Mathlib.Omega.{arith}
use suprime.Base.Key.{Eq, ◌==◌}
use suprime.Base.Tests.{if◌then◌else◌, Bool-cases}
use mathlib.Core.Logic.{◌↔◌, inl, inr}

module _ {ℓ} {A : Type ℓ} ⦃e : Eq A⦄ where
  -- a in s
  unfoldable pub member : A → List A → Bool
  member a [] = false
  member a (x ∷ s) = x == a || member a s

  -- s.add(a)
  unfoldable pub add : A → List A → List A
  unfolding member
  add a s = if member a s then s else s ++ a ∷ []

  -- s.discard(a)
  unfoldable pub discard : A → List A → List A
  discard a [] = []
  discard a (x ∷ s) = let rest = discard a s in if x == a then rest else x ∷ rest

  -- s |= t
  unfoldable pub union : List A → List A → List A
  unfolding add
  union s [] = s
  union s (x ∷ t) = union (add x s) t

  -- s <= t, s.issubset(t)
  unfoldable pub subset : List A → List A → Bool
  unfolding member
  subset [] t = true
  subset (x ∷ s) t = member x t && subset s t

  -- s &= t, s.intersection_update(t)
  unfoldable pub intersect : List A → List A → List A
  unfolding member
  intersect [] t = []
  intersect (x ∷ s) t = let rest = intersect s t in if member x t then x ∷ rest else rest

  -- s.difference(t)
  unfoldable pub difference : List A → List A → List A
  unfolding member
  difference [] t = []
  difference (x ∷ s) t = let rest = difference s t in if member x t then rest else x ∷ rest

  pub member-append : (a : A) (s t : List A) → member a (s ++ t) ≡ (member a s || member a t)
  unfolding member
  member-append a [] t = refl
  member-append a (x ∷ s) t = ground (arith, member-append a s t)

  pub member-add : (a b : A) (s : List A) → member b (add a s) ≡ (a == b || member b s)
  unfolding add member
  member-add a b s = ground (arith, member-append b s (a ∷ []), e.beq_iff a b)

  pub member-discard :
      (a b : A) (s : List A) → member b (discard a s) ≡ (not (a == b) && member b s)
  unfolding discard member
  member-discard a b [] = ground arith
  member-discard a b (x ∷ s) =
      ground (arith, member-discard a b s, e.beq_iff a b, e.beq_iff x b, e.beq_iff x a)

  pub member-union : (a : A) (s t : List A) → member a (union s t) ≡ (member a s || member a t)
  unfolding union member
  member-union a s [] = ground arith
  member-union a s (x ∷ t) = ground (arith, member-union a (add x s) t, member-add x a s)

  pub member-intersect :
      (a : A) (s t : List A) → member a (intersect s t) ≡ (member a s && member a t)
  unfolding intersect member
  member-intersect a [] t = refl
  member-intersect a (x ∷ s) t = ground (arith, member-intersect a s t, e.beq_iff x a)

  pub member-difference :
      (a : A) (s t : List A) → member a (difference s t) ≡ (member a s && not (member a t))
  unfolding difference member
  member-difference a [] t = refl
  member-difference a (x ∷ s) t = ground (arith, member-difference a s t, e.beq_iff x a)

  pub subset_sound :
      (s t : List A) (a : A) → subset s t ≡ true → member a s ≡ true → member a t ≡ true
  unfolding subset member
  subset_sound [] t a h m = cc
  subset_sound (x ∷ s) t a h m = ground (arith, subset_sound s t a, e.beq_iff x a)

  subset_complete :
      (s t : List A) → ((a : A) → member a s ≡ true → member a t ≡ true) → subset s t ≡ true
  unfolding subset member
  subset_complete [] t h = refl
  subset_complete (x ∷ s) t h =
      ground (arith, h x, e.beq_iff x x, subset_complete s t (λ a m. h a (ground arith)))

  pub subset_iff :
      (s t : List A) → (subset s t ≡ true) ↔ ((a : A) → member a s ≡ true → member a t ≡ true)
  subset_iff s t = (λ h a. subset_sound s t a h, subset_complete s t)

  pub not_subset :
      (s t : List A) → subset s t ≡ false → (a : A) × (member a s ≡ true) × (member a t ≡ false)
  unfolding subset member
  not_subset [] t h = cc
  not_subset (x ∷ s) t h = elim (Bool-cases (member x t)) [
    | inr out ↦ (x, ground (arith, e.beq_iff x x), out)
    | inl there ↦ let (a, mine, out) = not_subset s t (ground arith) in (a, ground arith, out)
  ]
