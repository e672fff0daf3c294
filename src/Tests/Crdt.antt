-- ===== src/Tests/Crdt.antt =====
-- Replicas of nodes 1, 2 and 3.
use suprime.Base.{ℕ, ◌≡◌, refl, [], ◌∷◌}
use suprime.Base.Key.{nat_eq, nat_order, pair_eq}
use suprime.Base.Dict.{Dict, Distinct, get}
use suprime.Crdt.VectorClock.{VectorClock, compare}
use suprime.Crdt.VectorClock.Scan.{Relates}
use suprime.Crdt.VectorClock.Compare.{compare-Relates}
use suprime.Crdt.GCounter.{GCounter}
use suprime.Crdt.GCounter.View.{Replica, view, join, counts_of, join_laws}
use suprime.Crdt.PnCounter.{PnCounter}

abbrev counts_1 : Dict ℕ ℕ
counts_1 = (1, 4) ∷ (2, 1) ∷ []

abbrev counts_2 : Dict ℕ ℕ
counts_2 = (2, 3) ∷ (1, 2) ∷ []

counts_1-Distinct : Distinct counts_1
unfolding get
counts_1-Distinct = (refl, (refl, tt))

counts_2-Distinct : Distinct counts_2
unfolding get
counts_2-Distinct = (refl, (refl, tt))

abbrev clock_1 : VectorClock ℕ
clock_1 = record { clock = counts_1 }

abbrev clock_2 : VectorClock ℕ
clock_2 = record { clock = counts_2 }

compare-Relates_example : Relates (compare clock_1 clock_2) counts_1 counts_2
compare-Relates_example = compare-Relates clock_1 clock_2

abbrev counter_1 : GCounter ℕ
counter_1 = record { node_id = 1; counts = counts_1 }

abbrev counter_2 : GCounter ℕ
counter_2 = record { node_id = 2; counts = counts_2 }

abbrev replica_1 : Replica ℕ
replica_1 = (counter_1, counts_1-Distinct)

abbrev replica_2 : Replica ℕ
replica_2 = (counter_2, counts_2-Distinct)

join_laws_example :
    (counts_of (join (view replica_1) (view replica_2))
      ≡ counts_of (join (view replica_2) (view replica_1)))
    × (join (join (view replica_1) (view replica_2)) (view replica_1)
        ≡ join (view replica_1) (join (view replica_2) (view replica_1)))
    × (join (view replica_1) (view replica_1) ≡ view replica_1)
join_laws_example = join_laws (view replica_1) (view replica_2) (view replica_1)

abbrev pn_1 : PnCounter ℕ
pn_1 = record { p = counter_1; n = counter_2 }
