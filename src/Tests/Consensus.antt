-- ===== src/Tests/Consensus.antt =====
-- Leader election seen by node 2 among nodes 1, 2 and 3.
use suprime.Base.{ℕ, ◌≡◌, ◌↔◌, refl, List, some, none, [], ◌∷◌}
use suprime.Base.Key.{nat_eq, nat_order}
use suprime.Consensus.{elect_leader, LeaderView, init, update}
use suprime.Consensus.Agreement.{leader-update}

abbrev seen_by_2 : List ℕ
seen_by_2 = 3 ∷ 1 ∷ []

abbrev view_of_2 : LeaderView ℕ
unfolding init
view_of_2 = init 2

elects_least : elect_leader 2 seen_by_2 ≡ 1
unfolding elect_leader
elects_least = refl

leader-update_example :
    ((update seen_by_2 view_of_2).0.leader ≡ some (elect_leader view_of_2.self_id seen_by_2))
    × (((update seen_by_2 view_of_2).1 ≡ none)
        ↔ (view_of_2.leader ≡ some (elect_leader view_of_2.self_id seen_by_2)))
    × ((update seen_by_2 (update seen_by_2 view_of_2).0).1 ≡ none)
leader-update_example = leader-update seen_by_2 view_of_2
