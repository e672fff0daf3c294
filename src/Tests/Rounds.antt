-- ===== src/Tests/Rounds.antt =====
-- A gossip round of node 1 with three peers and a fanout of two.
use Prim.Native.Nat.{zero, suc}
use suprime.Base.{ℕ, ◌-◌, ◌≤◌, ◌≡◌, refl, true, false, List, [], ◌∷◌, arith, if◌then◌else◌, min}
use suprime.Base.Lists.{length}
use suprime.Peers.{Peer, alive, addresses}
use suprime.Gossip.{GossipService, effective_fanout, select_targets}
use suprime.Gossip.Fanout.{length-select_targets}

abbrev peer : ℕ → ℕ × Peer ℕ ℕ
peer n = (n, record { node_id = n; address = n; heartbeat = 1; state = alive; last_update = 0 })

abbrev service : GossipService ℕ ℕ ℕ ℕ
service = record {
  self_id = 1;
  peers = record {
    self_id = 1;
    suspect_after = 50;
    dead_after = 200;
    peers = peer 2 ∷ peer 3 ∷ peer 4 ∷ [];
  };
  store = record {
    node_id = 1;
    entries = [];
    subscribers = [];
    commit_subs = [];
    highest_ts = 0;
    calls = [];
  };
  fanout = 2;
  heartbeat = 7;
  include_store = true;
  adaptive = false;
  max_fanout = 8;
  boosted = 1;
}

-- The first `n`.
abbrev first : List ℕ → ℕ → List ℕ
first [] n = []
first (x ∷ xs) zero = []
first (x ∷ xs) (suc n) = x ∷ first xs n

length-first : (xs : List ℕ) (n : ℕ) → n ≤ length xs → length (first xs n) ≡ n
length-first [] n le = omega (arith, le)
length-first (x ∷ xs) zero le = refl
length-first (x ∷ xs) (suc n) le = omega (arith, length-first xs n (omega (arith, le)))

length-select_targets_example :
    (length (select_targets (λ n. n) first service).0
      ≡ min (effective_fanout (λ n. n) service) (length (addresses service.peers)))
    × (effective_fanout (λ n. n) service
        ≤ (if service.adaptive then service.max_fanout else service.fanout))
    × ((select_targets (λ n. n) first service).1.boosted ≡ service.boosted - 1)
length-select_targets_example = length-select_targets (λ n. n) first service length-first
