-- ===== src/Base/Dict.antt =====
-- Python's `dict` in insertion order: the entries, first inserted first.
pub mod Merge
pub mod Count
pub mod Members
use mathlib.Core.Path.{◌≡◌, refl}
use mathlib.Core.Bool.{Bool, true, false, ◌||◌}
use mathlib.Core.Option.{Option, none, some}
use mathlib.Core.List.{List, [], ◌∷◌, map}
use native.Mathlib.Omega.{arith}
use suprime.Base.Key.{Eq, ◌==◌}
use suprime.Base.Tests.{if◌then◌else◌}

abbrev pub Dict {ℓ κ} : Type ℓ → Type κ → Type (ℓ ⊔ κ)
Dict K V = List (K × V)

module _ {ℓ κ} {K : Type ℓ} {V : Type κ} where
  -- list(d.keys()), list(d.values())
  unfoldable pub keys : Dict K V → List K
  keys = map (λ e. e.0)

  unfoldable pub values : Dict K V → List V
  values = map (λ e. e.1)

module _ {ℓ κ} {K : Type ℓ} {V : Type κ} ⦃e : Eq K⦄ where
  -- d.get(k)
  unfoldable pub get : K → Dict K V → Option V
  get k [] = none
  get k ((j, v) ∷ d) = if j == k then some v else get k d

  -- k in d
  unfoldable pub has : K → Dict K V → Bool
  has k [] = false
  has k ((j, v) ∷ d) = j == k || has k d

  -- d[k] = v: in place if the key is there, else at the end
  unfoldable pub put : K → V → Dict K V → Dict K V
  put k v [] = (k, v) ∷ []
  put k v ((j, w) ∷ d) = if j == k then (j, v) ∷ d else (j, w) ∷ put k v d

  -- d.pop(k, None)
  unfoldable pub del : K → Dict K V → Dict K V
  del k [] = []
  del k ((j, w) ∷ d) = let rest = del k d in if j == k then rest else (j, w) ∷ rest

  -- No key twice.
  abbrev pub Distinct : Dict K V → Type κ
  Distinct [] = Unit
  Distinct ((k, v) ∷ d) = (get k d ≡ none) × Distinct d

  pub get-put :
      (k j : K) (v : V) (d : Dict K V) → get j (put k v d) ≡ (if k == j then some v else get j d)
  unfolding get put
  get-put k j v [] = refl
  get-put k j v ((i, w) ∷ d) =
      ground (arith, e.beq_iff i k, e.beq_iff i j, e.beq_iff k j, get-put k j v d)

  pub get-del : (k j : K) (d : Dict K V) → get j (del k d) ≡ (if k == j then none else get j d)
  unfolding get del
  get-del k j [] = ground arith
  get-del k j ((i, w) ∷ d) =
      ground (arith, e.beq_iff i k, e.beq_iff i j, e.beq_iff k j, get-del k j d)

  pub put-Distinct : (k : K) (v : V) (d : Dict K V) → Distinct d → Distinct (put k v d)
  unfolding get put
  put-Distinct k v [] h = (refl, tt)
  put-Distinct k v ((i, w) ∷ d) h =
      ground (arith, put-Distinct k v d, get-put k i v d, e.beq_iff i k, e.beq_iff k i)

  pub del-Distinct : (k : K) (d : Dict K V) → Distinct d → Distinct (del k d)
  unfolding get del
  del-Distinct k [] h = tt
  del-Distinct k ((i, w) ∷ d) h =
      ground (arith, del-Distinct k d, get-del k i d, e.beq_iff i k, e.beq_iff k i)

  pub has-get : (k : K) (d : Dict K V) → has k d ≡ elim (get k d) [ none ↦ false | some _ ↦ true ]
  unfolding get has
  has-get k [] = refl
  has-get k ((i, w) ∷ d) = ground (arith, has-get k d)

  pub del_absent : (k : K) (d : Dict K V) → get k d ≡ none → del k d ≡ d
  unfolding get del
  del_absent k [] h = refl
  del_absent k ((i, w) ∷ d) h = ground (arith, del_absent k d)
