-- ===== src/Base/Dict/Merge.antt =====
-- The loop that the state-based types share: `for k, v in other.items(): if better(self.get(k), v):
-- self[k] = v; changed = True`.
use mathlib.Core.Path.{◌≡◌, refl, ap}
use mathlib.Core.Logic.{◌↔◌, inl, inr}
use mathlib.Core.Bool.{Bool, true, false}
use mathlib.Core.Option.{Option, none, some}
use mathlib.Core.List.{[], ◌∷◌}
use native.Mathlib.Omega.{arith}
use suprime.Base.Key.{Eq, ◌==◌}
use suprime.Base.Tests.{if◌then◌else◌, Bool-cases}
use suprime.Base.Dict.{Dict, Distinct, get, put, get-put, put-Distinct}

-- What the loop leaves at one key.
unfoldable pub pick {κ} :
    {V : Type κ} (better : Option V → V → Bool) → Option V → Option V → Option V
pick better cur none = cur
pick better cur (some v) = if better cur v then some v else cur

module _ {ℓ κ} {K : Type ℓ} {V : Type κ} ⦃e : Eq K⦄ (better : Option V → V → Bool) where
  unfoldable pub merge_step : Dict K V × Bool → K → V → Dict K V × Bool
  merge_step (d, changed) k v = if better (get k d) v then (put k v d, true) else (d, changed)

  unfoldable pub merge_loop : Dict K V × Bool → Dict K V → Dict K V × Bool
  unfolding merge_step
  merge_loop s [] = s
  merge_loop s ((k, v) ∷ other) = merge_loop (merge_step s k v) other

  get-merge_step :
      (d : Dict K V) (c : Bool) (k j : K) (v : V)
      → get j (merge_step (d, c) k v).0
        ≡ (if k == j then pick better (get k d) (some v) else get j d)
  unfolding merge_step pick
  get-merge_step d c k j v = ground (arith, get-put k j v d, e.beq_iff k j)

  pub get-merge_loop :
      (s : Dict K V × Bool) (other : Dict K V) (j : K)
      → Distinct other
      → get j (merge_loop s other).0 ≡ pick better (get j s.0) (get j other)
  unfolding merge_loop get pick
  get-merge_loop s [] j h = refl
  get-merge_loop (d, c) ((k, v) ∷ other) j h = ground (
    arith,
    get-merge_loop (merge_step (d, c) k v) other j h.1,
    get-merge_step d c k j v,
    e.beq_iff k j,
  )

  pub merge_loop-Distinct :
      (s : Dict K V × Bool) (other : Dict K V) → Distinct s.0 → Distinct (merge_loop s other).0
  unfolding merge_loop
  merge_loop-Distinct s [] h = h
  merge_loop-Distinct (d, c) ((k, v) ∷ other) h =
      merge_loop-Distinct (merge_step (d, c) k v) other (ground (arith, put-Distinct k v d))

  merge_loop_stays : (d : Dict K V) (other : Dict K V) → (merge_loop (d, true) other).1 ≡ true
  unfolding merge_loop
  merge_loop_stays d [] = refl
  merge_loop_stays d ((k, v) ∷ other) =
      ground (arith, merge_loop_stays d other, merge_loop_stays (put k v d) other)

  -- A loop that reports no change has left the dictionary alone, its order included.
  pub merge_loop_unchanged :
      (d other : Dict K V)
      → (merge_loop (d, false) other).1 ≡ false
      → merge_loop (d, false) other ≡ (d, false)
  unfolding merge_loop
  merge_loop_unchanged d [] h = refl
  merge_loop_unchanged d ((k, v) ∷ other) h =
      ground (arith, merge_loop_unchanged d other, merge_loop_stays (put k v d) other)

  -- A loop that reports a change has met an entry that was better than what stood at its key.
  pub merge_loop_changed :
      (d other : Dict K V)
      → Distinct other
      → (merge_loop (d, false) other).1 ≡ true
      → (k : K) × (v : V) × (get k other ≡ some v) × (better (get k d) v ≡ true)
  unfolding merge_loop get
  merge_loop_changed d [] h c = absurd (ground arith)
  merge_loop_changed d ((k, v) ∷ other) h c = elim (Bool-cases (better (get k d) v)) [
    | inl hit ↦ (k, v, ground (arith, e.beq_iff k k), hit)
    | inr miss ↦
        let (k', v', found, wins) = merge_loop_changed d other h.1 (ground arith) in
        (k', v', ground (arith, e.beq_iff k k'), wins)
  ]

  -- Where nothing is better than itself, the flag says whether any lookup changed.
  pub merge_loop_flag :
      (d other : Dict K V)
      → ((v : V) → better (some v) v ≡ false)
      → Distinct other
      → ((merge_loop (d, false) other).1 ≡ false)
        ↔ ((k : K) → get k (merge_loop (d, false) other).0 ≡ get k d)
  unfolding pick
  merge_loop_flag d other strict h = (
    λ p k. ap (λ s. get k s.0) (merge_loop_unchanged d other p),
    λ same. elim (Bool-cases (merge_loop (d, false) other).1) [
      | inr p ↦ p
      | inl p ↦
          let (k, v, at, win) = merge_loop_changed d other h p in
          absurd (ground (arith, get-merge_loop (d, false) other k h, same k, strict v))
    ],
  )
