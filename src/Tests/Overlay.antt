-- ===== src/Tests/Overlay.antt =====
-- The broadcast tree of a node with neighbours 2 and 3, and the views of node 1. The random choice
-- takes the first of the list, and the state of the generator counts the choices.
use suprime.Base.{ℕ, suc, ◌≡◌, refl, true, ◌||◌, [], ◌∷◌, ◌++◌, some, arith, leb, if◌then◌else◌}
use suprime.Base.Key.{nat_eq}
use suprime.Base.Lists.{length}
use suprime.Base.Dict.{has}
use suprime.Base.Sets.{member, add}
use suprime.Plumtree.{Plumtree, prune, on_gossip}
use suprime.Plumtree.Links.{HasLinks}
use suprime.Plumtree.Delivery.{copies, delivered-on_gossip}
use suprime.HyParView
use suprime.HyParView.{
  Config, HyParView, on_join, on_forward_join, on_neighbor, on_neighbor_reply, on_disconnect,
  on_shuffle, on_shuffle_reply, prune_dead, repair, is_empty,
}
use suprime.HyParView.Views.{IsChoice}
use suprime.HyParView.Active.{IsBounded}
use suprime.HyParView.Repair.{repair_done, steps-IsBounded}

abbrev tree : Plumtree ℕ ℕ ℕ
tree = record {
  graft_timeout = 2;
  cache_cap = 2;
  eager = 2 ∷ [];
  lazy = 3 ∷ [];
  received = (50, 500) ∷ (51, 510) ∷ [];
  missing = (52, 1) ∷ [];
  ihave_from = (52, 3 ∷ []) ∷ [];
  lazy_queue = [];
  delivered = (50, 500) ∷ (51, 510) ∷ [];
  sent = [];
}

tree-HasLinks : HasLinks tree
unfolding member
tree-HasLinks x at = ground (arith, at)

delivered-on_gossip_example :
    ((on_gossip 53 530 3 tree).delivered
      ≡ (if has 53 tree.received then tree.delivered else tree.delivered ++ (53, 530) ∷ []))
    × ((on_gossip 53 530 3 tree).sent ≡ (
        if has 53 tree.received
        then tree.sent ++ (3, prune) ∷ []
        else tree.sent ++ copies 53 530 (some 3) (add 3 tree.eager)))
delivered-on_gossip_example = delivered-on_gossip 53 530 3 tree

abbrev config : Config ℕ ℕ ℕ
config = record {
  id = 1;
  address = 10;
  is_set = λ k. true;
  is_reachable = λ a. true;
  choice = λ r x xs. (x, suc r);
  sample = λ r xs n. (xs, suc r);
  active_size = 2;
  passive_size = 2;
  arwl = 3;
  prwl = 2;
  shuffle_ttl = 2;
}

config-IsChoice : IsChoice config
unfolding member
config-IsChoice r x xs = ground arith

abbrev views : HyParView ℕ ℕ ℕ
views = record {
  active = 2 ∷ 3 ∷ [];
  passive = 4 ∷ 5 ∷ [];
  book = (2, 20) ∷ (3, 30) ∷ (4, 40) ∷ (5, 50) ∷ [];
  rng = 0;
  sent = [];
}

views-IsBounded : IsBounded config views
unfolding member
views-IsBounded = record {
  active_le = omega arith;
  passive_le = omega arith;
  no_self = (refl, refl);
  apart = λ x at. ground (arith, at);
}

steps-IsBounded_example :
    IsBounded config (on_join config 6 60 views)
    × IsBounded config (on_forward_join config 6 60 2 3 views)
    × IsBounded config (on_neighbor config 6 60 true views)
    × IsBounded config (on_neighbor_reply config 6 60 true views)
    × IsBounded config (on_disconnect config 6 views)
    × IsBounded config (on_shuffle config 6 60 ((7, 70) ∷ []) 2 3 views)
    × IsBounded config (on_shuffle_reply config 6 60 ((7, 70) ∷ []) views)
    × IsBounded config (HyParView.tick config views)
    × IsBounded config (prune_dead config (2 ∷ 4 ∷ []) views)
steps-IsBounded_example =
    steps-IsBounded config config-IsChoice 6 60 ((7, 70) ∷ []) 2 3 true (2 ∷ 4 ∷ []) views
      (omega arith) (omega arith) views-IsBounded

abbrev lonely : HyParView ℕ ℕ ℕ
lonely = record views { active = 2 ∷ [] }

lonely-IsBounded : IsBounded config lonely
unfolding member
lonely-IsBounded = record {
  active_le = omega arith;
  passive_le = omega arith;
  no_self = (refl, refl);
  apart = λ x at. ground (arith, at);
}

repair_done_example :
    IsBounded config (repair config (length lonely.passive) lonely)
    × ((leb config.active_size (length (repair config (length lonely.passive) lonely).active)
          || is_empty (repair config (length lonely.passive) lonely).passive)
        ≡ true)
repair_done_example = repair_done config config-IsChoice lonely lonely-IsBounded
