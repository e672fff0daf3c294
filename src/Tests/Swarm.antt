-- ===== src/Tests/Swarm.antt =====
-- Nodes `a` and `b` at addresses 1 and 2, which know one another; the transport keeps what it is given.
use Prim.Native.String.{String}
use suprime.Base.{
  ℕ, ◌+◌, ◌≡◌, refl, inl, true, false, Option, some, none, List, [], ◌∷◌, arith, ltb, if◌then◌else◌,
}
use suprime.Base.Key.{string_eq, string_order, nat_eq}
use suprime.Base.Result.{type_error}
use suprime.Base.Dict.{Dict, get, Distinct}
use suprime.Base.Sets.{member}
use suprime.Peers
use suprime.Peers.{Peer, PeerTable, alive, suspect, tick_loop, tick_peer, silent_for}
use suprime.Peers.Table.{IsTable}
use suprime.Store
use suprime.Store.Entries.{Entry}
use suprime.Tasks.{Value, other_value, returned}
use suprime.AntiEntropy.Exchange.{AgreeOn}
use suprime.Node.{direct, indirect, Probing, Letter, ack_body, SwarmNode, World}
use suprime.Node.Probe.{swim_probe, asked, helpers_of}
use suprime.Node.Receive.{on_message, handle_ack, is_target}
use suprime.Node.Round.{tick, tick_start}
use suprime.Node.Seen.{on_message-IsSeen, on_message_twice}
use suprime.Node.Cache.{IsSeen}
use suprime.Node.Probed.{is_fresh, request_of, sent_to_all, pinged}
use suprime.Node.Swim.{probe_given_up, handle_ack-tick}
use suprime.Node.Rumour.{rumour, gossip_converge}
use suprime.Node.Blocked.{tick_blocked}

abbrev peer : String → ℕ → Peer String ℕ
peer id address = record {
  node_id = id;
  address = address;
  heartbeat = 1;
  state = suspect;
  last_update = 0;
}

abbrev table : String → String → ℕ → PeerTable String ℕ
table id other address = record {
  self_id = id;
  suspect_after = 50;
  dead_after = 200;
  peers = (other, peer other address) ∷ [];
}

abbrev Sent : Type 0
Sent = List (ℕ × Letter ℕ ℕ ℕ)

abbrev node :
    String
    → ℕ
    → PeerTable String ℕ
    → Dict String (Entry String (Value ℕ))
    → SwarmNode ℕ ℕ ℕ ℕ Sent ℕ
node id address peers entries = record {
  id = id;
  address = address;
  seeds = [];
  swim = false;
  probe_timeout = 10;
  indirect_k = 2;
  probe = none;
  gossip = record {
    self_id = id;
    peers = peers;
    store = record {
      node_id = id;
      entries = entries;
      subscribers = [];
      commit_subs = [];
      highest_ts = 0;
      calls = [];
    };
    fanout = 3;
    heartbeat = 4;
    include_store = true;
    adaptive = false;
    max_fanout = 8;
    boosted = 0;
  };
  tasks = record {
    node_id = id;
    store = record {
      node_id = id;
      entries = [];
      subscribers = [];
      commit_subs = [];
      highest_ts = 0;
      calls = [];
    };
    claim_grace_rounds = 3;
    handlers = [];
    executed = [];
    claim_age = [];
    claim_sig = [];
    load_weight = 0;
    reads = 0;
    runs = [];
  };
  leader_view = record { self_id = id; leader = none };
  last_member_count = 1;
  tombstone_gc_after = none;
  gc_counter = 0;
  metrics = record { counters = []; gauges = []; gauge_fns = [] };
  app_handlers = [];
  leader_callbacks = [];
  is_running = true;
  seen_messages = "m1" ∷ [];
  seen_order = "m1" ∷ [];
  seen_cap = 10000;
  tick_hooks = [];
  transport = [];
  calls = [];
}

abbrev world : World ℕ ℕ ℕ Sent ℕ
world = record {
  send = λ sent address m. ((address, m) ∷ sent, true);
  returns = λ call. true;
  ceil_log2 = λ n. n;
  sample_addresses = λ xs n. xs;
  choice = λ p ps. p;
  sample_peers = λ ps n. ps;
  task_calls = record { clock = λ n. n; load = 0; run = λ kind t. returned 0; empty = 0 };
}

abbrev entry : ℕ → ℕ → String → Entry String (Value ℕ)
entry value ts origin = record {
  value = some (other_value value);
  version = record { ts = ts; origin = origin };
  deleted = false;
}

abbrev entries_a : Dict String (Entry String (Value ℕ))
entries_a = ("x", entry 10 5 "a") ∷ ("y", entry 20 3 "a") ∷ []

abbrev entries_b : Dict String (Entry String (Value ℕ))
entries_b = ("x", entry 11 7 "b") ∷ []

abbrev node_a : SwarmNode ℕ ℕ ℕ ℕ Sent ℕ
node_a = node "a" 1 (table "a" "b" 2) entries_a

abbrev node_b : SwarmNode ℕ ℕ ℕ ℕ Sent ℕ
node_b = node "b" 2 (table "b" "a" 1) entries_b

abbrev answer : Letter ℕ ℕ ℕ
answer = record { src = "b"; dst = none; body = ack_body (some "b") }

node_a-IsSeen : IsSeen node_a
unfolding member
node_a-IsSeen = record { same = λ id. refl; unique = (refl, tt); bounded = omega arith }

on_message-IsSeen_example : IsSeen (on_message world 5 (some "m2") answer node_a)
on_message-IsSeen_example = on_message-IsSeen world 5 (some "m2") answer node_a node_a-IsSeen

on_message_twice_example :
    on_message world 6 (some "m2") answer (on_message world 5 (some "m2") answer node_a)
    ≡ on_message world 5 (some "m2") answer node_a
on_message_twice_example =
    on_message_twice world 5 6 "m2" answer answer node_a node_a-IsSeen (omega arith)

-- A probe of `b`, sent at 3.
abbrev probing : Probing
probing = record { target = "b"; sent_at = 3; phase = direct }

-- A third peer, which is alive and can help.
abbrev helper : Peer String ℕ
helper = record { node_id = "c"; address = 3; heartbeat = 1; state = alive; last_update = 0 }

abbrev node_probing : SwarmNode ℕ ℕ ℕ ℕ Sent ℕ
node_probing =
    record (node "a" 1 (record (table "a" "b" 2) { peers = ("b", peer "b" 2) ∷ ("c", helper) ∷ [] })
      entries_a) { probe = some probing }

b_known : Peers.lookup "b" node_probing.gossip.peers ≡ some (peer "b" 2)
unfolding Peers.lookup get
b_known = refl

-- It is `c` that is asked.
c_asked : asked world 2 (helpers_of "b" (Peers.alive_peers node_probing.gossip.peers)) ≡ helper ∷ []
unfolding Peers.alive_peers
c_asked = refl

probe_given_up_example :
    let s1 = swim_probe world 14 node_probing in
    let s2 = swim_probe world 30 s1 in
    (swim_probe world 12 node_probing ≡ node_probing)
    × (s1.probe ≡ some (record { target = "b"; sent_at = 14; phase = indirect }))
    × (s1.transport
        ≡ sent_to_all world
            (request_of "a" 1 "b" 2)
            (asked world 2 (helpers_of "b" (Peers.alive_peers node_probing.gossip.peers)))
            [])
    × (is_fresh 30 s2.probe ≡ true)
    × (s2.transport ≡ pinged world s1 s2.probe)
probe_given_up_example =
    probe_given_up world 12 14 30 probing (peer "b" 2) node_probing refl refl b_known (omega arith)
      (omega arith) (omega arith)

table_a-IsTable : IsTable (table "a" "b" 2)
unfolding get
table_a-IsTable = record {
  distinct = (refl, tt);
  keyed = (refl, tt);
  no_self = refl;
  no_dead = λ k p at. ground arith;
}

table_b-IsTable : IsTable (table "b" "a" 1)
unfolding get
table_b-IsTable = record {
  distinct = (refl, tt);
  keyed = (refl, tt);
  no_self = refl;
  no_dead = λ k p at. ground arith;
}

b_there : get "b" node_a.gossip.peers.peers ≡ some (peer "b" 2)
unfolding get
b_there = refl

handle_ack-tick_example :
    (is_target (handle_ack 40 (some "b") node_a).probe "b" ≡ false)
    × (get "b" (Peers.tick 60 (handle_ack 40 (some "b") node_a).gossip.peers).peers ≡ (
        if ltb 60 (40 + 50)
        then some (record (peer "b" 2) { last_update = 40; state = alive })
        else if ltb 60 (40 + 200)
        then some (record (peer "b" 2) { last_update = 40; state = suspect })
        else none))
handle_ack-tick_example =
    handle_ack-tick 40 60 "b" (peer "b" 2) node_a refl table_a-IsTable b_there (omega arith)

entries_a-Distinct : Distinct entries_a
unfolding get
entries_a-Distinct = (refl, (refl, tt))

entries_b-Distinct : Distinct entries_b
unfolding get
entries_b-Distinct = (refl, tt)

agree : AgreeOn entries_b entries_a
unfolding get
agree k x y p q ts origin = ground arith

new_a : member "m2" node_a.seen_messages ≡ false
unfolding member
new_a = refl

gossip_converge_example :
    let b' = on_message world 5 (some "m2") (rumour node_a) node_b in
    let a' = on_message world 6 (some "m2") (rumour b') node_a in
    get "x" a'.gossip.store.entries ≡ get "x" b'.gossip.store.entries
gossip_converge_example =
    gossip_converge world world 5 6 "m2" "m2" node_a node_b "x" table_a-IsTable table_b-IsTable refl
      refl entries_a-Distinct entries_b-Distinct agree new_a new_a

-- A task key that holds a number.
abbrev node_blocked : SwarmNode ℕ ℕ ℕ ℕ Sent ℕ
node_blocked = node "a" 1 (table "a" "b" 2) (("__task__/t", entry 7 5 "b") ∷ [])

abbrev stuck : String × Option (Value ℕ)
stuck = ("__task__/t", some (other_value 7))

still_there : Store.items (tick_start world 60 node_blocked).gossip.store ≡ stuck ∷ []
unfolding Store.items tick_start
still_there = refl

tick_blocked_example :
    ((tick world 60 node_blocked).1 ≡ false)
    × ((tick world 60 node_blocked).0.transport ≡ (tick_start world 60 node_blocked).transport)
    × ((tick world 60 node_blocked).0.gossip.store
        ≡ (tick_start world 60 node_blocked).gossip.store)
tick_blocked_example =
    tick_blocked world 60 "__task__/t" (some (other_value 7)) node_blocked
      (rw still_there (inl refl)) refl (type_error, refl)
