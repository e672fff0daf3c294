-- ===== src/Node.antt =====
-- suprime/node.py: one participant of the swarm. Node ids are strings; `A` are the addresses, `X` the
-- JSON values of tasks, `P` the payloads of the application, `N` the states of the transport and
-- `H` the functions registered with the node, whose calls are the field `calls`, in order.
-- The table and the store are those of the field `gossip`; the task board is lent that store for
-- its step. Times are whole, and one reading of the clock stands for those of a step.
pub mod Probe
pub mod Receive
pub mod Round
pub mod App
pub mod Seen
pub mod Cache
pub mod Steps
pub mod Swim
pub mod Probed
pub mod Rumour
pub mod Blocked
use Prim.Native.String.{String}
use suprime.Base.{
  ℕ, ◌+◌, Bool, true, false, Option, none, some, List, [], ◌∷◌, ◌++◌, ltb, if◌then◌else◌,
}
use suprime.Base.Key.{Eq, ◌==◌, string_eq, string_order}
use suprime.Base.Lists.{length}
use suprime.Base.Dict.{Dict, get, put}
use suprime.Base.Sets.{member, add, discard}
use suprime.Peers
use suprime.Peers.{Peer}
use suprime.Store
use suprime.Gossip.{GossipService, Payload}
use suprime.Consensus
use suprime.Consensus.{LeaderView}
use suprime.Metrics
use suprime.Metrics.{MetricsRegistry}
use suprime.Tasks
use suprime.Tasks.{Value, TaskBoard, Calls}

pub data Phase : Type 0 where
  direct indirect : Phase

-- The probe in flight.
pub record Probing : Type 0 where
  pub target : String
  pub sent_at : ℕ
  pub phase : Phase

-- The payload of `PING` and `PING_REQ`, any of whose fields may be missing.
pub record ProbePayload (A : Type 0) : Type 0 where
  pub subject : Option String
  pub subject_addr : Option A
  pub ack_to : Option String
  pub ack_addr : Option A

-- A message by its type; `none` is a field that is missing. Empty addresses are not modelled.
pub data Body (A X P : Type 0) : Type 0 where
  gossip_body : Payload String A (Value X) → Body A X P
  join_body : Option A → Option ℕ → Body A X P
  welcome_body : Payload String A (Value X) → Body A X P
  ping_body : ProbePayload A → Body A X P
  ping_req_body : ProbePayload A → Body A X P
  ack_body : Option String → Body A X P
  app_body : String → P → Body A X P

-- A message without its random id and its timestamp, which no node reads.
pub record Letter (A X P : Type 0) : Type 0 where
  pub src : String
  pub dst : Option String
  pub body : Body A X P

-- The functions registered with a node, as it calls them.
pub data Call (A X P H : Type 0) : Type 0 where
  handler_call : H → Letter A X P → Call A X P H
  leader_call : H → String → Call A X P H
  hook_call : H → Call A X P H

pub data Gauge : Type 0 where
  peers_alive store_keys : Gauge

pub record SwarmNode (A X C P N H : Type 0) : Type 0 where
  pub id : String
  pub address : A
  pub seeds : List A
  pub swim : Bool
  pub probe_timeout : ℕ
  pub indirect_k : ℕ
  pub probe : Option Probing
  pub gossip : GossipService String A (Value X) C
  pub tasks : TaskBoard X C
  pub leader_view : LeaderView String
  pub last_member_count : ℕ
  pub tombstone_gc_after : Option ℕ
  pub gc_counter : ℕ
  pub metrics : MetricsRegistry Gauge
  pub app_handlers : Dict String (List H)
  pub leader_callbacks : List H
  pub is_running : Bool
  pub seen_messages : List String
  pub seen_order : List String
  pub seen_cap : ℕ
  pub tick_hooks : List H
  pub transport : N
  pub calls : List (Call A X P H)

-- What the node calls: the transport, which raises where the flag is false; the registered
-- functions, each of which returns or raises; the random choices; the task handlers and the clock.
pub record World (A X P N H : Type 0) : Type 0 where
  pub send : N → A → Letter A X P → N × Bool
  pub returns : Call A X P H → Bool
  pub ceil_log2 : ℕ → ℕ
  pub sample_addresses : List A → ℕ → List A
  pub choice : Peer String A → List (Peer String A) → Peer String A
  pub sample_peers : List (Peer String A) → ℕ → List (Peer String A)
  pub task_calls : Calls X

-- The arguments of the constructor that have no fixed initial value.
pub record Config (A : Type 0) : Type 0 where
  pub seeds : List A
  pub fanout : ℕ
  pub suspect_after : ℕ
  pub dead_after : ℕ
  pub claim_grace_rounds : ℕ
  pub gossip_store : Bool
  pub adaptive_gossip : Bool
  pub max_fanout : ℕ
  pub tombstone_gc_after : Option ℕ
  pub swim : Bool
  pub probe_timeout : ℕ
  pub indirect_k : ℕ

module _ {A X C P N H : Type 0} where
  unfoldable pub init : String → A → N → Config A → SwarmNode A X C P N H
  unfolding Peers.init Store.init Tasks.init Consensus.init Metrics.init Metrics.gauge_from
  init id address transport c = record {
    id = id;
    address = address;
    seeds = c.seeds;
    swim = c.swim;
    probe_timeout = c.probe_timeout;
    indirect_k = c.indirect_k;
    probe = none;
    gossip = record {
      self_id = id;
      peers = Peers.init id c.suspect_after c.dead_after;
      store = Store.init id;
      fanout = c.fanout;
      heartbeat = 0;
      include_store = c.gossip_store;
      adaptive = c.adaptive_gossip;
      max_fanout = c.max_fanout;
      boosted = 0;
    };
    tasks = Tasks.init id (Store.init id) c.claim_grace_rounds;
    leader_view = Consensus.init id;
    last_member_count = 0;
    tombstone_gc_after = c.tombstone_gc_after;
    gc_counter = 0;
    metrics =
        Metrics.gauge_from "store_keys" store_keys
          (Metrics.gauge_from "peers_alive" peers_alive Metrics.init);
    app_handlers = [];
    leader_callbacks = [];
    is_running = false;
    seen_messages = [];
    seen_order = [];
    seen_cap = 10000;
    tick_hooks = [];
    transport = transport;
    calls = [];
  }

  -- `self.metrics.inc(name)`
  unfoldable pub count : String → SwarmNode A X C P N H → SwarmNode A X C P N H
  unfolding Metrics.inc
  count name s = record s { metrics = Metrics.inc name 1 s.metrics }

  -- `self._transport.send(address, message)`
  unfoldable pub transmit :
      World A X P N H → A → Letter A X P → SwarmNode A X C P N H → SwarmNode A X C P N H × Bool
  transmit w address message s =
      let (transport, went) = w.send s.transport address message in
      (record s { transport = transport }, went)

  -- A send whose exception is swallowed, counted under a name where it returns.
  abbrev pub tally : String → SwarmNode A X C P N H × Bool → SwarmNode A X C P N H
  tally name (s, true) = count name s
  tally name (s, false) = s

  unfoldable pub discard_oldest : SwarmNode A X C P N H → List String → SwarmNode A X C P N H
  unfolding discard
  discard_oldest s [] = s
  discard_oldest s (oldest ∷ order) = record s {
    seen_messages = discard oldest s.seen_messages;
    seen_order = order;
  }

  unfoldable pub remember : String → SwarmNode A X C P N H → SwarmNode A X C P N H
  unfolding add discard_oldest
  remember message_id s =
      let order = s.seen_order ++ message_id ∷ [] in
      let s' = record s { seen_messages = add message_id s.seen_messages; seen_order = order } in
      if ltb s.seen_cap (length order) then discard_oldest s' order else s'

  -- The join that a node sends to each seed; a dead seed is passed over.
  unfoldable pub bootstrap_from :
      World A X P N H → List A → SwarmNode A X C P N H → SwarmNode A X C P N H
  unfolding transmit
  bootstrap_from w [] s = s
  bootstrap_from w (seed ∷ seeds) s =
      let join : Letter A X P = record {
        src = s.id;
        dst = none;
        body = join_body (some s.address) (some s.gossip.heartbeat);
      } in
      bootstrap_from w seeds (transmit w seed join s).0

  unfoldable pub bootstrap : World A X P N H → SwarmNode A X C P N H → SwarmNode A X C P N H
  unfolding bootstrap_from
  bootstrap w s = bootstrap_from w s.seeds s
