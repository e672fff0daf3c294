-- ===== src/Crdt/PnCounter/Merge.antt =====
-- The value of a `PNCounter` under its operations, and the convergence of its merge.
use mathlib.Core.Path.{ap₂}
use suprime.Base.{◌≤◌, ℕ, ◌+◌, ◌≡◌, ◌↔◌, false, arith}
use suprime.Base.Key.{Eq, Blank}
use suprime.Base.Int.{pos, pos_part, neg_part, sub_ℕ, sub_ℕ_parts}
use suprime.Base.Result.{ok}
use suprime.Base.Dict.{Distinct}
use suprime.Base.Dict.Count.{count}
use suprime.Crdt.GCounter
use suprime.Crdt.GCounter.{GCounter}
use suprime.Crdt.GCounter.View.{value-merge_order}
use suprime.Crdt.GCounter.Merge.{value-increment, merge-Distinct, apply_digest-digest, merge_flag}
use suprime.Crdt.PnCounter.{PnCounter, increment, decrement, value, merge, digest, apply_digest}

module _ {K : Type 0} ⦃e : Eq K⦄ where
  pub record IsValid (c : PnCounter K) : Type 0 where
    pub p : Distinct c.p.counts
    pub n : Distinct c.n.counts

  -- The value is the increments less the decrements, below zero too.
  pub value_parts :
      (c : PnCounter K)
      → pos_part (value c) + GCounter.value c.n ≡ neg_part (value c) + GCounter.value c.p
  unfolding value
  value_parts c = sub_ℕ_parts (GCounter.value c.p) (GCounter.value c.n)

  -- An increment moves the value up by its amount, a decrement down by it, below zero too.
  pub value_moves :
      (n : ℕ) (c : PnCounter K)
      → ((d : PnCounter K) × (increment (pos n) c ≡ ok d)
          × (pos_part (value d) + neg_part (value c) ≡ neg_part (value d) + pos_part (value c) + n))
        × ((d : PnCounter K) × (decrement (pos n) c ≡ ok d)
            × (pos_part (value d) + neg_part (value c) + n
                ≡ neg_part (value d) + pos_part (value c)))
  unfolding increment decrement
  value_moves n c =
      let (up, done, more) = (value-increment n c.p).1 in
      let (down, done', more') = (value-increment n c.n).1 in
      let d : PnCounter K = record c { p = up } in
      let d' : PnCounter K = record c { n = down } in
      (
        (d, rw done, omega (arith, value_parts d, value_parts c)),
        (d', rw done', omega (arith, value_parts d', value_parts c)),
      )

  pub merge-IsValid : (a b : PnCounter K) → IsValid a → IsValid (merge a b).0
  unfolding merge
  merge-IsValid a b h = record { p = merge-Distinct a.p b.p h.p; n = merge-Distinct a.n b.n h.n }

  -- Two replicas that merge the same two peers in either order report the same value.
  pub value-merge_order_pn :
      (a b c : PnCounter K)
      → IsValid a
      → IsValid b
      → IsValid c
      → value (merge (merge a b).0 c).0 ≡ value (merge (merge a c).0 b).0
  unfolding value merge
  value-merge_order_pn a b c ha hb hc =
      ap₂ sub_ℕ (value-merge_order (a.p, ha.p) (b.p, hb.p) (c.p, hc.p))
        (value-merge_order (a.n, ha.n) (b.n, hb.n) (c.n, hc.n))

  -- The flag is false exactly when neither counter of the other side has a larger count.
  pub merge_flag_pn :
      (a b : PnCounter K)
      → IsValid b
      → ((merge a b).1 ≡ false) ↔ (
          ((k : K) → count k b.p.counts ≤ count k a.p.counts)
          × ((k : K) → count k b.n.counts ≤ count k a.n.counts))
  unfolding merge
  merge_flag_pn a b h = (
    λ q. ((merge_flag a.p b.p h.p).0 (ground arith), (merge_flag a.n b.n h.n).0 (ground arith)),
    λ le. rw ((merge_flag a.p b.p h.p).1 le.0, (merge_flag a.n b.n h.n).1 le.1),
  )

  pub apply_digest-digest_pn :
      ⦃n : Blank K⦄ (a b : PnCounter K) → apply_digest a (digest b) ≡ merge a b
  unfolding apply_digest digest merge
  apply_digest-digest_pn a b = rw (apply_digest-digest a.p b.p, apply_digest-digest a.n b.n)
