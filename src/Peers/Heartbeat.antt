-- ===== src/Peers/Heartbeat.antt =====
-- Heartbeats and the failure detector over time.
use suprime.Base.{
  ℕ, ◌+◌, ◌≤◌, ◌≡◌, inl, inr, refl, max, Bool, true, false, ◌||◌, not, Option, none, some, [], ◌∷◌,
  map, arith, ltb, leb, if◌then◌else◌, Option-cases,
}
use suprime.Base.Key.{Eq, ◌==◌, ==_refl}
use suprime.Base.Result.{ok}
use suprime.Base.Dict.{Dict, Distinct, get, get-put, values}
use suprime.Peers.{
  alive, suspect, Peer, PeerTable, silent_for, tick, merge, observe, introduce, refresh, apply_from,
  apply_digest, digest, to_dict,
}
use suprime.Peers.Tick.{IsKeyed, classify, get-tick}
use suprime.Peers.Table.{IsTable, operations-IsTable}

-- The higher of two heartbeats, either of which may be unknown.
abbrev pub latest : Option ℕ → Option ℕ → Option ℕ
latest none n = n
latest (some m) none = some m
latest (some m) (some n) = some (max m n)

module _ {K A : Type 0} where
  -- What a heartbeat makes of the entry it is about.
  abbrev pub heard : K → A → ℕ → ℕ → Option (Peer K A) → Option (Peer K A)
  heard node_id address heartbeat now none = some (record {
    node_id = node_id;
    address = address;
    heartbeat = heartbeat;
    state = alive;
    last_update = now;
  })
  heard node_id address heartbeat now (some p) =
      if ltb p.heartbeat heartbeat
      then some
          (record p { heartbeat = heartbeat; address = address; last_update = now; state = alive })
      else some p

  abbrev pub beat : Option (Peer K A) → Option ℕ
  beat none = none
  beat (some p) = some p.heartbeat

  -- The heartbeat is no news: the peer is there with one as high.
  abbrev pub no_news : ℕ → Option (Peer K A) → Bool
  no_news heartbeat none = false
  no_news heartbeat (some p) = leb heartbeat p.heartbeat

module _ {K A : Type 0} ⦃e : Eq K⦄ where
  -- A heartbeat changes at most the entry of its peer: it adds the peer, or raises its heartbeat
  -- and clears its suspicion, or is no news. The node's own id is ignored. The answer is true
  -- exactly when the heartbeat was news.
  pub merge_heartbeat :
      (node_id : K) (address : A) (heartbeat now : ℕ) (t : PeerTable K A) (k : K)
      → (get k (merge node_id address heartbeat now t).0.peers ≡ (
          if node_id == t.self_id
          then get k t.peers
          else if node_id == k
          then heard node_id address heartbeat now (get k t.peers)
          else get k t.peers))
        × ((merge node_id address heartbeat now t).1
            ≡ not (node_id == t.self_id || no_news heartbeat (get node_id t.peers)))
  unfolding merge observe introduce
  merge_heartbeat node_id address heartbeat now t k = elim (Option-cases (get node_id t.peers)) [
    | inl absent ↦
        let new : Peer K A = record {
          node_id = node_id;
          address = address;
          heartbeat = heartbeat;
          state = alive;
          last_update = now;
        } in
        (ground (arith, get-put node_id k new t.peers, e.beq_iff node_id k), ground (arith, absent))
    | inr (p, at) ↦
        let raised : Peer K A = record p {
          heartbeat = heartbeat;
          address = address;
          last_update = now;
          state = alive;
        } in
        (ground (arith, get-put node_id k raised t.peers, e.beq_iff node_id k), ground (arith, at))
  ]

  refresh_lem :
      (k : K) (seen : ℕ) (t : PeerTable K A) (p : Peer K A)
      → get k t.peers ≡ some p
      → (get k (refresh k seen t).0.peers ≡ some (record p { last_update = seen; state = alive }))
        × ((refresh k seen t).0.suspect_after ≡ t.suspect_after)
        × ((refresh k seen t).0.dead_after ≡ t.dead_after)
  unfolding refresh
  refresh_lem k seen t p at = (
    ground (arith, get-put k k (record p { last_update = seen; state = alive }) t.peers, ==_refl k),
    ground arith,
    ground arith,
  )

  self_id-merge :
      (node_id : K) (address : A) (heartbeat now : ℕ) (t : PeerTable K A)
      → (merge node_id address heartbeat now t).0.self_id ≡ t.self_id
  unfolding merge observe introduce
  self_id-merge node_id address heartbeat now t = ground arith

  heartbeat-merge :
      (q : Peer K A) (now : ℕ) (t : PeerTable K A) (k : K)
      → beat (get k (merge q.node_id q.address q.heartbeat now t).0.peers) ≡ (
          if q.node_id == t.self_id
          then beat (get k t.peers)
          else if q.node_id == k
          then latest (beat (get k t.peers)) (some q.heartbeat)
          else beat (get k t.peers))
  heartbeat-merge q now t k =
      ground (arith, merge_heartbeat q.node_id q.address q.heartbeat now t k)

  heartbeat-apply :
      (now : ℕ) (d : Dict K (Peer K A)) (t : PeerTable K A) (c : Bool) (k : K)
      → Distinct d
      → IsKeyed d
      → ((c' : Bool) × ((apply_from now (t, ok c) (map to_dict (values d))).1 ≡ ok c'))
        × (beat (get k (apply_from now (t, ok c) (map to_dict (values d))).0.peers) ≡ (
            if k == t.self_id
            then beat (get k t.peers)
            else latest (beat (get k t.peers)) (beat (get k d))))
  unfolding apply_from to_dict values get
  heartbeat-apply now [] t c k hd hk = ((c, refl), ground arith)
  heartbeat-apply now ((j, q) ∷ d) t c k hd hk =
      let step = merge q.node_id q.address q.heartbeat now t in
      let rest = heartbeat-apply now d step.0 (if step.1 then true else c) k hd.1 hk.1 in
      (
        rest.0,
        ground (
          arith,
          rest.1,
          hk.0,
          hd.0,
          heartbeat-merge q now t k,
          self_id-merge q.node_id q.address q.heartbeat now t,
          e.beq_iff j k,
          e.beq_iff j t.self_id,
          e.beq_iff k t.self_id,
        ),
      )

  -- Applying the digest of a valid table never raises. For every other node it leaves the higher
  -- of the two tables' heartbeats, and the peers of either; the node itself gains no entry.
  pub heartbeat-apply_digest :
      (now : ℕ) (t u : PeerTable K A) (k : K)
      → IsTable u
      → ((c : Bool) × ((apply_digest now (digest u) t).1 ≡ ok c))
        × (beat (get k (apply_digest now (digest u) t).0.peers) ≡ (
            if k == t.self_id
            then beat (get k t.peers)
            else latest (beat (get k t.peers)) (beat (get k u.peers))))
  unfolding apply_digest digest
  heartbeat-apply_digest now t u k h = heartbeat-apply now u.peers t false k h.distinct h.keyed

  -- In a valid table whose suspect limit is at most its dead limit, after a sign of life at `seen`
  -- a known peer is alive until the suspect limit, suspect from then until the dead limit, and
  -- gone from then on.
  pub tick-refresh :
      (k : K) (seen now : ℕ) (t : PeerTable K A) (p : Peer K A)
      → IsTable t
      → get k t.peers ≡ some p
      → t.suspect_after ≤ t.dead_after
      → get k (tick now (refresh k seen t).0).peers ≡ (
          if ltb now (seen + t.suspect_after)
          then some (record p { last_update = seen; state = alive })
          else if ltb now (seen + t.dead_after)
          then some (record p { last_update = seen; state = suspect })
          else none)
  unfolding classify silent_for
  tick-refresh k seen now t p h at le =
      let fresh : Peer K A = record p { last_update = seen; state = alive } in
      let valid = (operations-IsTable k p.address p.heartbeat seen [] t h).1 in
      let after = get-tick now (refresh k seen t).0 k valid.distinct valid.keyed in
      let there = refresh_lem k seen t p at in ground (arith, after, there)
