-- ===== src/Gossip/Fanout.antt =====
-- How many peers a round reaches.
use suprime.Base.{ℕ, ◌-◌, ◌≤◌, ◌≡◌, List, arith, if◌then◌else◌, min}
use suprime.Base.Lists.{length}
use suprime.Peers.{addresses}
use suprime.Gossip.{GossipService, effective_fanout, select_targets}

module _ {K A V C : Type 0} (ceil_log2 : ℕ → ℕ) (sample : List A → ℕ → List A) where
  -- A round pushes to as many addresses as the effective fanout, or to all where there are fewer;
  -- that fanout is at most the maximum when it adapts and the configured one otherwise; and the
  -- boost goes down by one round, to no less than zero. The random sample of a list is taken to
  -- have the size asked for, where the list is long enough.
  pub length-select_targets :
      (g : GossipService K A V C)
      → ((xs : List A) (n : ℕ) → n ≤ length xs → length (sample xs n) ≡ n)
      → (length (select_targets ceil_log2 sample g).0
          ≡ min (effective_fanout ceil_log2 g) (length (addresses g.peers)))
        × (effective_fanout ceil_log2 g ≤ (if g.adaptive then g.max_fanout else g.fanout))
        × ((select_targets ceil_log2 sample g).1.boosted ≡ g.boosted - 1)
  unfolding select_targets
  length-select_targets g size = (
    ground (arith, size (addresses g.peers) (effective_fanout ceil_log2 g)),
    unfold effective_fanout in ground arith,
    ground arith,
  )
