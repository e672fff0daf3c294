-- ===== src/Tests/Peers.antt =====
-- The table of node 1, with peer 2 last heard at 100 and peer 3 at 40.
use suprime.Base.{ℕ, ◌≡◌, ◌≢◌, refl, Bool, some, [], ◌∷◌, if◌then◌else◌, arith}
use suprime.Base.Key.{◌==◌, nat_eq}
use suprime.Base.Result.{ok}
use suprime.Base.Dict.{Distinct, get}
use suprime.Peers.{
  PeerState, alive, dead, Peer, PeerTable, merge, refresh, evict, tick, digest, apply_digest,
}
use suprime.Peers.Tick.{IsKeyed, classify, get-tick}
use suprime.Peers.Table.{IsTable, operations-IsTable}
use suprime.Peers.Heartbeat.{beat, latest, heartbeat-apply_digest}

abbrev peer_2 : Peer ℕ ℕ
peer_2 = record { node_id = 2; address = 20; heartbeat = 5; state = alive; last_update = 100 }

abbrev peer_3 : Peer ℕ ℕ
peer_3 = record { node_id = 3; address = 30; heartbeat = 9; state = alive; last_update = 40 }

abbrev table_1 : PeerTable ℕ ℕ
table_1 = record {
  self_id = 1;
  suspect_after = 50;
  dead_after = 200;
  peers = (2, peer_2) ∷ (3, peer_3) ∷ [];
}

abbrev table_4 : PeerTable ℕ ℕ
table_4 = record {
  self_id = 4;
  suspect_after = 50;
  dead_after = 200;
  peers = (3, record peer_3 { heartbeat = 7 }) ∷ (1, record peer_2 { node_id = 1 }) ∷ [];
}

table_1-Distinct : Distinct table_1.peers
unfolding get
table_1-Distinct = (refl, (refl, tt))

table_1-IsKeyed : IsKeyed table_1.peers
table_1-IsKeyed = (refl, (refl, tt))

not_dead : (s : PeerState) → s ≡ alive → s ≢ dead
not_dead s h = λ is. cc

table_1-IsTable : IsTable table_1
unfolding get
table_1-IsTable = record {
  distinct = table_1-Distinct;
  keyed = table_1-IsKeyed;
  no_self = refl;
  no_dead = λ k p at. not_dead p.state (ground (arith, at));
}

table_4-IsTable : IsTable table_4
unfolding get
table_4-IsTable = record {
  distinct = (refl, (refl, tt));
  keyed = (refl, (refl, tt));
  no_self = refl;
  no_dead = λ k p at. not_dead p.state (ground (arith, at));
}

get-tick_example :
    get 3 (tick 150 table_1).peers
    ≡ classify table_1.suspect_after table_1.dead_after 150 (get 3 table_1.peers)
get-tick_example = get-tick 150 table_1 3 table_1-Distinct table_1-IsKeyed

operations-IsTable_example :
    IsTable (merge 5 50 1 150 table_1).0
    × IsTable (refresh 5 150 table_1).0
    × IsTable (evict 5 table_1)
    × IsTable (tick 150 table_1)
    × IsTable (apply_digest 150 (digest table_4) table_1).0
operations-IsTable_example = operations-IsTable 5 50 1 150 (digest table_4) table_1 table_1-IsTable

heartbeat-apply_digest_example :
    ((c : Bool) × ((apply_digest 150 (digest table_4) table_1).1 ≡ ok c))
    × (beat (get 3 (apply_digest 150 (digest table_4) table_1).0.peers) ≡ (
        if peer_3.node_id == table_1.self_id
        then beat (get 3 table_1.peers)
        else latest (beat (get 3 table_1.peers)) (beat (get 3 table_4.peers))))
heartbeat-apply_digest_example = heartbeat-apply_digest 150 table_1 table_4 3 table_4-IsTable

peer_3_there : get 3 table_1.peers ≡ some peer_3
unfolding get
peer_3_there = refl
