-- ===== src/Crdt/GCounter/View.antt =====
-- Replicas of a `GCounter` up to the order of their dictionaries and to zero counts. The owner of a
-- replica, in whose name it increments, is part of its view.
use mathlib.Core.Path.{fun_ext}
use mathlib.Core.Quot
use mathlib.Core.Quot.{Quot, Quot-set}
use mathlib.Core.HLevel.{Π_set, Π_prop}
use native.Mathlib.Nat.{ℕ_set}
use suprime.Base.{ℕ, ◌≡◌, refl, sym, ◌∙◌, arith}
use suprime.Base.Key.{Eq}
use suprime.Base.Dict.{Distinct}
use suprime.Base.Dict.Count.{count, total-cong}
use suprime.Crdt.GCounter.{GCounter, value, merge}
use suprime.Crdt.GCounter.Merge.{count-merge, merge-Distinct}

module _ {K : Type 0} ⦃e : Eq K⦄ where
  abbrev pub SameCounts : GCounter K → GCounter K → Type 0
  SameCounts a b = (k : K) → count k a.counts ≡ count k b.counts

  -- One owner, and the same counts.
  abbrev pub SameReplica : GCounter K → GCounter K → Type 0
  SameReplica a b = (a.node_id ≡ b.node_id) × SameCounts a b

  node_id-merge : (a b : GCounter K) → (merge a b).0.node_id ≡ a.node_id
  unfolding merge
  node_id-merge a b = refl

  SameCounts-merge :
      (a b c d : GCounter K)
      → Distinct b.counts
      → Distinct d.counts
      → SameCounts a c
      → SameCounts b d
      → SameCounts (merge a b).0 (merge c d).0
  SameCounts-merge a b c d hb hd p q k =
      omega (arith, count-merge a b k hb, count-merge c d k hd, p k, q k)

  SameReplica-merge :
      (a b c d : GCounter K)
      → Distinct b.counts
      → Distinct d.counts
      → SameReplica a c
      → SameCounts b d
      → SameReplica (merge a b).0 (merge c d).0
  SameReplica-merge a b c d hb hd p q =
      (node_id-merge a b ∙ p.0 ∙ sym (node_id-merge c d), SameCounts-merge a b c d hb hd p.1 q)

module _ (K : Type 0) ⦃e : Eq K⦄ where
  -- A replica: a counter whose dictionary holds no key twice.
  abbrev pub Replica : Type 0
  Replica = (c : GCounter K) × Distinct c.counts

  abbrev pub View : Type 0
  View = Quot (λ (a b : Replica). SameReplica a.0 b.0)

module _ {K : Type 0} ⦃e : Eq K⦄ where
  abbrev merged : Replica K → Replica K → Replica K
  merged a b = ((merge a.0 b.0).0, merge-Distinct a.0 b.0 a.1)

  pub join_with : Replica K → View K → View K
  join_with a =
      Quot.lift Quot-set (λ b. Quot.mk (merged a b))
        (λ b d h. Quot.sound (SameReplica-merge a.0 b.0 a.0 d.0 b.1 d.1 (refl, λ k. refl) h.1))

  join_with-cong : (a c : Replica K) → SameReplica a.0 c.0 → join_with a ≡ join_with c
  unfolding join_with
  join_with-cong a c h = fun_ext (
      Quot.ind (λ v. Quot-set _ _)
        (λ b. Quot.sound (SameReplica-merge a.0 b.0 c.0 b.0 b.1 b.1 h (λ k. refl))))

  pub join : View K → View K → View K
  unfolding join_with
  join = Quot.lift (Π_set (λ v. Quot-set)) join_with join_with-cong

  -- The counts of a view, without its owner.
  pub counts_of : View K → K → ℕ
  counts_of = Quot.lift (Π_set (λ k. ℕ_set)) (λ a k. count k a.0.counts) (λ a b h. fun_ext h.1)

  pub join_comm : (v w : View K) → counts_of (join v w) ≡ counts_of (join w v)
  unfolding join join_with counts_of
  join_comm =
      Quot.ind (λ v. Π_prop (λ w. Π_set (λ k. ℕ_set) _ _))
        (λ a.
          Quot.ind (λ w. Π_set (λ k. ℕ_set) _ _)
            (λ b.
              fun_ext (λ k. omega (arith, count-merge a.0 b.0 k b.1, count-merge b.0 a.0 k a.1))))

  assoc_at :
      (a b c : Replica K) (k : K)
      → count k (merge (merge a.0 b.0).0 c.0).0.counts
        ≡ count k (merge a.0 (merge b.0 c.0).0).0.counts
  assoc_at a b c k = omega (
    arith,
    count-merge (merge a.0 b.0).0 c.0 k c.1,
    count-merge a.0 b.0 k b.1,
    count-merge a.0 (merge b.0 c.0).0 k (merge-Distinct b.0 c.0 b.1),
    count-merge b.0 c.0 k c.1,
  )

  assoc_owner :
      (a b c : Replica K)
      → (merge (merge a.0 b.0).0 c.0).0.node_id ≡ (merge a.0 (merge b.0 c.0).0).0.node_id
  assoc_owner a b c =
      node_id-merge (merge a.0 b.0).0 c.0
      ∙ node_id-merge a.0 b.0
      ∙ sym (node_id-merge a.0 (merge b.0 c.0).0)

  join_assoc : (u v w : View K) → join (join u v) w ≡ join u (join v w)
  unfolding join join_with
  join_assoc =
      Quot.ind (λ u. Π_prop (λ v. Π_prop (λ w. Quot-set _ _)))
        (λ a.
          Quot.ind (λ v. Π_prop (λ w. Quot-set _ _))
            (λ b.
              Quot.ind (λ w. Quot-set _ _)
                (λ c. Quot.sound (assoc_owner a b c, λ k. assoc_at a b c k))))

  join_idem : (v : View K) → join v v ≡ v
  unfolding join join_with
  join_idem =
      Quot.ind (λ v. Quot-set _ _)
        (λ a. Quot.sound (node_id-merge a.0 a.0, λ k. omega (arith, count-merge a.0 a.0 k a.1)))

  -- On replicas up to the order of their dictionaries and to zero counts, each with its owner, the
  -- merge is associative and idempotent; the counts of the merge, its owner apart, are the same in
  -- either order.
  pub join_laws :
      (u v w : View K)
      → (counts_of (join u v) ≡ counts_of (join v u))
        × (join (join u v) w ≡ join u (join v w))
        × (join u u ≡ u)
  join_laws u v w = (join_comm u v, join_assoc u v w, join_idem u)

  value-cong : (a b : Replica K) → SameReplica a.0 b.0 → value a.0 ≡ value b.0
  unfolding value
  value-cong a b h = total-cong a.0.counts b.0.counts a.1 b.1 h.1

  -- The value of a view.
  pub view_value : View K → ℕ
  view_value = Quot.lift ℕ_set (λ a. value a.0) value-cong

  pub view : Replica K → View K
  view a = Quot.mk a

  -- The value is read off the view, so replicas with one view report one value.
  pub view_value-view : (a : Replica K) → view_value (view a) ≡ value a.0
  unfolding view_value view
  view_value-view a = refl

  -- Whatever the order in which a replica merges two others, it reports the same value.
  pub value-merge_order :
      (a b c : Replica K)
      → value (merge (merge a.0 b.0).0 c.0).0 ≡ value (merge (merge a.0 c.0).0 b.0).0
  value-merge_order a b c = value-cong (merged (merged a b) c) (merged (merged a c) b) (
    node_id-merge (merge a.0 b.0).0 c.0
        ∙ node_id-merge a.0 b.0
        ∙ sym (node_id-merge (merge a.0 c.0).0 b.0 ∙ node_id-merge a.0 c.0),
    λ k. omega (
      arith,
      count-merge (merge a.0 b.0).0 c.0 k c.1,
      count-merge a.0 b.0 k b.1,
      count-merge (merge a.0 c.0).0 b.0 k b.1,
      count-merge a.0 c.0 k c.1,
    ),
  )
