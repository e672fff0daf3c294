-- ===== src/Tests/Faults.antt =====
-- A network of addresses 1 to 4, cut into two groups; addresses 4 and 5 are in no group.
use suprime.Base.{ℕ, ◌+◌, ◌≡◌, true, ◌||◌, not, List, [], ◌∷◌}
use suprime.Base.Key.{nat_eq}
use suprime.Chaos.{ChaosController, sent, World, partition, heal, share, can_reach}
use suprime.Chaos.Faults.{is_listed, can_reach-partition}

abbrev groups : List (List ℕ)
groups = (1 ∷ 2 ∷ []) ∷ (3 ∷ []) ∷ []

abbrev controller : ChaosController ℕ ℕ
controller = record {
  drop_rate = 3;
  duplicate_rate = 9;
  latency = 0;
  jitter = 0;
  rng = 5;
  partitions = [];
  delivered = 0;
  dropped = 0;
  duplicated = 0;
}

-- A generator that counts, and a transport that keeps what it is given.
abbrev world : World ℕ ℕ (List ℕ) ℕ
world = record {
  random = λ n. (n, n + 1);
  inner_send = λ inbox address message. (message ∷ inbox, sent);
}

can_reach-partition_example :
    (can_reach 1 3 (partition groups controller)
      ≡ (share 1 3 groups || not (is_listed 1 groups || is_listed 3 groups)))
    × (can_reach 1 3 (partition groups controller) ≡ can_reach 3 1 (partition groups controller))
    × (can_reach 1 3 (heal (partition groups controller)) ≡ true)
can_reach-partition_example = can_reach-partition 1 3 groups controller
