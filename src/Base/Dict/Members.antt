-- ===== src/Base/Dict/Members.antt =====
-- Entries of a dictionary as elements of the list.
use mathlib.Core.Path.{◌≡◌, ap}
use mathlib.Core.Logic.{inl, inr}
use mathlib.Core.Option.{none, some}
use mathlib.Core.List.{[], ◌∷◌}
use native.Mathlib.Omega.{arith}
use suprime.Base.Key.{Eq, ◌==◌}
use suprime.Base.Lists.{In}
use suprime.Base.Tests.{Bool-cases}
use suprime.Base.Dict.{Dict, Distinct, get}

module _ {K V : Type 0} ⦃e : Eq K⦄ where
  pub get-In : (k : K) (v : V) (d : Dict K V) → get k d ≡ some v → In (k, v) d
  unfolding get
  get-In k v [] at = cc
  get-In k v ((j, w) ∷ d) at = elim (Bool-cases (j == k)) [
    | inl same ↦ inl (ground (arith, at, same, e.beq_iff j k))
    | inr other ↦ inr (get-In k v d (ground (arith, at, other)))
  ]

  In-some : (k : K) (v : V) (d : Dict K V) → In (k, v) d → get k d ≡ none → ⊥
  unfolding get
  In-some k v [] there out = there
  In-some k v ((j, w) ∷ d) (inl here) out =
      let at = ap (λ p. p.0) here in ground (arith, at, out, e.beq_iff j k)
  In-some k v ((j, w) ∷ d) (inr there) out = In-some k v d there (ground (arith, out))

  -- An entry of a dictionary is what its key reads as.
  pub In-get : (k : K) (v : V) (d : Dict K V) → Distinct d → In (k, v) d → get k d ≡ some v
  unfolding get
  In-get k v [] h there = absurd there
  In-get k v ((j, w) ∷ d) h (inl here) =
      let at = ap (λ p. p.0) here in
      let is = ap (λ p. p.1) here in ground (arith, at, is, e.beq_iff j k)
  In-get k v ((j, w) ∷ d) h (inr there) = elim (Bool-cases (j == k)) [
    | inr other ↦ ground (arith, other, In-get k v d h.1 there)
    | inl same ↦ absurd (In-some k v d there (ground (arith, h.0, same, e.beq_iff j k)))
  ]
