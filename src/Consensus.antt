-- ===== src/Consensus.antt =====
-- suprime/consensus.py: the leader is the smallest live id.
pub mod Agreement
use suprime.Base.{Bool, true, false, ◌||◌, not, Option, none, some, List, [], ◌∷◌, if◌then◌else◌}
use suprime.Base.Key.{Eq, Order, ◌==◌, ◌≺◌}

module _ {K : Type 0} ⦃o : Order K⦄ where
  -- `min` over a set that holds `self_id`: the set's order and its repetitions do not show.
  unfoldable pub elect_leader : K → List K → K
  elect_leader self_id [] = self_id
  elect_leader self_id (p ∷ alive) =
      let best = elect_leader self_id alive in if p ≺ best then p else best

pub record LeaderView (K : Type 0) : Type 0 where
  pub self_id : K
  pub leader : Option K

module _ {K : Type 0} where
  unfoldable pub init : K → LeaderView K
  init self_id = record { self_id = self_id; leader = none }

module _ {K : Type 0} ⦃e : Eq K⦄ where
  -- `a == b` of a leader that may be `None` and an id
  abbrev pub is_id : Option K → K → Bool
  is_id none k = false
  is_id (some j) k = j == k

  unfoldable pub is_leader : LeaderView K → Bool
  is_leader v = is_id v.leader v.self_id

module _ {K : Type 0} ⦃e : Eq K⦄ ⦃o : Order K⦄ where
  -- The new leader, if it changed.
  unfoldable pub update : List K → LeaderView K → LeaderView K × Option K
  unfolding elect_leader
  update alive v =
      let new_leader = elect_leader v.self_id alive in
      if not (is_id v.leader new_leader)
      then (record v { leader = some new_leader }, some new_leader)
      else (v, none)
