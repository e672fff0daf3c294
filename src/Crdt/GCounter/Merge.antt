-- ===== src/Crdt/GCounter/Merge.antt =====
-- What `GCounter.merge` leaves at each node, what its flag says, and the value.
use suprime.Base.{
  inl, inr, ap, max, ℕ, ◌+◌, ◌≤◌, ◌≡◌, ◌↔◌, refl, true, false, Option, none, some, arith,
  Bool-cases,
}
use suprime.Base.Key.{Eq, Blank}
use suprime.Base.Int.{ℤ, pos, negsuc}
use suprime.Base.Result.{ok, raise, value_error}
use suprime.Base.Dict.{Distinct, get, put, put-Distinct}
use suprime.Base.Dict.Count.{count, or_zero, total-put, total_mono}
use suprime.Base.Dict.Merge.{
  pick, get-merge_loop, merge_loop-Distinct, merge_loop_unchanged, merge_loop_changed,
}
use suprime.Crdt.GCounter.{GCounter, larger, increment, value, merge, digest, apply_digest, init}

or_zero-pick : (cur o : Option ℕ) → or_zero (pick larger cur o) ≡ max (or_zero cur) (or_zero o)
unfolding pick larger
or_zero-pick cur none = omega arith
or_zero-pick cur (some n) = ground arith

module _ {K : Type 0} ⦃e : Eq K⦄ where
  -- After a merge each node's count is the larger of the two.
  pub count-merge :
      (a b : GCounter K) (k : K)
      → Distinct b.counts
      → count k (merge a b).0.counts ≡ max (count k a.counts) (count k b.counts)
  unfolding merge count
  count-merge a b k h =
      rw (get-merge_loop larger (a.counts, false) b.counts k h)
        (or_zero-pick (get k a.counts) (get k b.counts))

  pub merge-Distinct : (a b : GCounter K) → Distinct a.counts → Distinct (merge a b).0.counts
  unfolding merge
  merge-Distinct a b h = merge_loop-Distinct larger (a.counts, false) b.counts h

  pub increment-Distinct :
      (n : ℤ) (a b : GCounter K) → increment n a ≡ ok b → Distinct a.counts → Distinct b.counts
  unfolding increment
  increment-Distinct (pos n) a b p h =
      ground (arith, put-Distinct a.node_id (count a.node_id a.counts + n) a.counts h)
  increment-Distinct (negsuc n) a b p h = cc

  -- An increment by a negative number raises `ValueError`; any other adds that much to the value.
  pub value-increment :
      (n : ℕ) (a : GCounter K)
      → (increment (negsuc n) a ≡ raise value_error)
        × ((b : GCounter K) × (increment (pos n) a ≡ ok b) × (value b ≡ value a + n))
  unfolding increment value
  value-increment n a = (
    refl,
    (
      record a { counts = put a.node_id (count a.node_id a.counts + n) a.counts },
      refl,
      omega (arith, total-put a.node_id (count a.node_id a.counts + n) a.counts),
    ),
  )

  -- The value never falls in a merge, on either side.
  pub value-merge-le :
      (a b : GCounter K)
      → Distinct a.counts
      → Distinct b.counts
      → (value a ≤ value (merge a b).0) × (value b ≤ value (merge a b).0)
  unfolding value
  value-merge-le a b ha hb = (
    total_mono a.counts (merge a b).0.counts ha (merge-Distinct a b ha)
        (λ k. omega (arith, count-merge a b k hb)),
    total_mono b.counts (merge a b).0.counts hb (merge-Distinct a b ha)
        (λ k. omega (arith, count-merge a b k hb)),
  )

  pub merge_unchanged : (a b : GCounter K) → (merge a b).1 ≡ false → (merge a b).0 ≡ a
  unfolding merge
  merge_unchanged a b h = ground (arith, merge_loop_unchanged larger a.counts b.counts)

  larger_not :
      (a b : GCounter K)
      → Distinct b.counts
      → ((k : K) → count k b.counts ≤ count k a.counts)
      → (merge a b).1 ≡ true
      → ⊥
  unfolding merge larger count
  larger_not a b h le p =
      let (k, v, at, win) = merge_loop_changed larger a.counts b.counts h p in ground (arith, le k)

  -- The flag is false exactly when no count of the other side was larger, and then nothing moved.
  pub merge_flag :
      (a b : GCounter K)
      → Distinct b.counts
      → ((merge a b).1 ≡ false) ↔ ((k : K) → count k b.counts ≤ count k a.counts)
  merge_flag a b h = (
    λ p k. omega (arith, count-merge a b k h, ap (λ c. count k c.counts) (merge_unchanged a b p)),
    λ le. elim (Bool-cases (merge a b).1) [ inr p ↦ p | inl p ↦ absurd (larger_not a b h le p) ],
  )

  -- A replica that applies another's digest is merged with it.
  pub apply_digest-digest : ⦃n : Blank K⦄ (a b : GCounter K) → apply_digest a (digest b) ≡ merge a b
  unfolding apply_digest digest merge init
  apply_digest-digest a b = refl
