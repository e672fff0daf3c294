-- ===== src/Crdt/VectorClock/Merge.antt =====
-- `VectorClock.merge` is the least upper bound of two clocks.
use suprime.Base.{◌↔◌, ℕ, ◌≡◌, refl, ◌⊎◌, inl, inr, arith}
use suprime.Base.Key.{Eq}
use suprime.Base.Dict.{Distinct, Dict, Distinct}
use suprime.Crdt.VectorClock.Compare.{compare-Relates}
use suprime.Crdt.VectorClock.Scan.{NotAbove, Relates}
use suprime.Base.Dict.Count.{count}
use suprime.Crdt.VectorClock.{
  merge, count-merge, VectorClock, Verdict, before, after, equal, concurrent, compare, merge,
  count-merge,
}

module _ {K : Type 0} ⦃e : Eq K⦄ where
  NotAbove-verdict :
      (v : Verdict) (c d : Dict K ℕ) → Relates v c d → NotAbove c d → (v ≡ before) ⊎ (v ≡ equal)
  NotAbove-verdict before c d r n = inl refl
  NotAbove-verdict after c d (_, (k, h)) n = absurd (omega (arith, n k))
  NotAbove-verdict equal c d r n = inr refl
  NotAbove-verdict concurrent c d (_, (k, h)) n = absurd (omega (arith, n k))

  verdict-NotAbove :
      (v : Verdict) (c d : Dict K ℕ) → Relates v c d → (v ≡ before) ⊎ (v ≡ equal) → NotAbove c d
  verdict-NotAbove before c d r h = r.0
  verdict-NotAbove equal c d r h = λ k. omega (arith, r k)
  verdict-NotAbove after c d r h = absurd (ground arith)
  verdict-NotAbove concurrent c d r h = absurd (ground arith)

  -- The merge with a clock that names no node twice is the least clock that is not below either.
  pub merge_lub :
      (a b c : VectorClock K)
      → Distinct b.clock
      → NotAbove (merge a b).clock c.clock ↔ (NotAbove a.clock c.clock × NotAbove b.clock c.clock)
  merge_lub a b c h = (
    λ m. (
      λ k. omega (arith, count-merge a b k h, m k),
      λ k. omega (arith, count-merge a b k h, m k),
    ),
    λ n k. omega (arith, count-merge a b k h, n.0 k, n.1 k),
  )

  -- Merging decides the comparison: `b` adds nothing to `a` exactly when it is before or equal.
  pub merge_absorbs :
      (a b : VectorClock K)
      → Distinct b.clock
      → ((k : K) → count k (merge a b).clock ≡ count k a.clock)
        ↔ ((compare b a ≡ before) ⊎ (compare b a ≡ equal))
  merge_absorbs a b h = (
    λ m.
        NotAbove-verdict (compare b a) b.clock a.clock (compare-Relates b a)
          (λ k. omega (arith, count-merge a b k h, m k)),
    λ v k. omega (
      arith,
      count-merge a b k h,
      verdict-NotAbove (compare b a) b.clock a.clock (compare-Relates b a) v k,
    ),
  )
