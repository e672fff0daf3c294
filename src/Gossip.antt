-- ===== src/Gossip.antt =====
-- suprime/gossip.py: the digests that a node pushes, and the peers it pushes them to. The table and
-- the store that the service shares with its node are part of the state. The address of the moment,
-- `math.ceil(math.log2(n))` and the random sample are arguments.
pub mod Fanout
use suprime.Base.{
  ℕ, ◌+◌, ◌-◌, max, min, Bool, true, false, ◌||◌, Option, none, some, List, [], ◌∷◌, ◌++◌, ltb, leb,
  if◌then◌else◌,
}
use suprime.Base.Key.{Eq, Order}
use suprime.Base.Result.{Result, ok, raise}
use suprime.Base.Lists.{length}
use suprime.Base.Dict.{Dict}
use suprime.Peers
use suprime.Peers.{PeerTable, Descriptor}
use suprime.Store.{Store}
use suprime.Store.Wire
use suprime.Store.Wire.{Sent}

pub record GossipService (K A V C : Type 0) : Type 0 where
  pub self_id : K
  pub peers : PeerTable K A
  pub store : Store K V C
  pub fanout : ℕ
  pub heartbeat : ℕ
  pub include_store : Bool
  pub adaptive : Bool
  pub max_fanout : ℕ
  pub boosted : ℕ

-- The payload, either part of which a sender may leave out.
pub record Payload (K A V : Type 0) : Type 0 where
  pub membership : Option (List (Descriptor K A))
  pub store : Option (Dict K (Sent K V))

abbrev pub or_empty : {A : Type 0} → Option (List A) → List A
or_empty none = []
or_empty (some xs) = xs

module _ {K A V C : Type 0} where
  -- `boost`
  unfoldable pub boost : ℕ → GossipService K A V C → GossipService K A V C
  boost rounds g = record g { boosted = max g.boosted rounds }

  unfoldable pub effective_fanout : (ℕ → ℕ) → GossipService K A V C → ℕ
  unfolding Peers.size
  effective_fanout ceil_log2 g =
      let base = max g.fanout (ceil_log2 (Peers.size g.peers + 2)) in
      let boosted = if ltb 0 g.boosted then g.max_fanout else base in
      if g.adaptive then min g.max_fanout boosted else g.fanout

  unfoldable pub bump_heartbeat : GossipService K A V C → ℕ × GossipService K A V C
  bump_heartbeat g = (g.heartbeat + 1, record g { heartbeat = g.heartbeat + 1 })

  unfoldable pub select_targets :
      (ℕ → ℕ) → (List A → ℕ → List A) → GossipService K A V C → List A × GossipService K A V C
  unfolding effective_fanout Peers.addresses
  select_targets ceil_log2 sample g =
      let addresses = Peers.addresses g.peers in
      let fanout = effective_fanout ceil_log2 g in
      (
        if leb (length addresses) fanout then addresses else sample addresses fanout,
        record g { boosted = g.boosted - 1 },
      )

  unfoldable pub build_digest : A → GossipService K A V C → Payload K A V
  unfolding Peers.digest Wire.digest
  build_digest address g = record {
    membership = some (
        Peers.digest g.peers
        ++ record { node_id = some g.self_id; address = some address; heartbeat = some g.heartbeat }
          ∷ []);
    store = some (if g.include_store then Wire.digest g.store else []);
  }

-- The answer of `apply` from those of the two tables.
abbrev pub either : Bool → Result Bool → Result Bool
either changed (raise err) = raise err
either changed (ok more) = ok (changed || more)

module _ {K A V C : Type 0} ⦃e : Eq K⦄ ⦃o : Order K⦄ where
  abbrev pub apply_store :
      Payload K A V → Result Bool → GossipService K A V C → GossipService K A V C × Result Bool
  apply_store payload (raise err) g = (g, raise err)
  apply_store payload (ok changed) g =
      let (store, answer) = Wire.apply_digest (or_empty payload.store) g.store in
      (record g { store = store }, either changed answer)

  -- An exception while the membership is read leaves the store as it was.
  unfoldable pub apply :
      ℕ → Payload K A V → GossipService K A V C → GossipService K A V C × Result Bool
  unfolding Peers.apply_digest Wire.apply_digest
  apply now payload g =
      let (peers, answer) = Peers.apply_digest now (or_empty payload.membership) g.peers in
      apply_store payload answer (record g { peers = peers })
