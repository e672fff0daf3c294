-- ===== src/Node/Receive.antt =====
-- `_on_message` and the handlers that it routes to. A handler's flag is false where an exception
-- leaves it.
use Prim.Native.String.{String}
use suprime.Base.{ℕ, Bool, true, false, Option, none, some, List, [], ◌∷◌, ◌++◌, if◌then◌else◌}
use suprime.Base.Key.{◌==◌, string_eq, string_order, nat_eq}
use suprime.Base.Result.{Result, ok, raise}
use suprime.Base.Dict.{get}
use suprime.Base.Sets.{member}
use suprime.Peers
use suprime.Peers.{Peer}
use suprime.Gossip
use suprime.Gossip.{GossipService, Payload}
use suprime.Tasks.{Value}
use suprime.Node.{
  Probing, ProbePayload, Body, gossip_body, join_body, welcome_body, ping_body, ping_req_body,
  ack_body, app_body, Letter, handler_call, SwarmNode, World, count, transmit, remember,
}

-- `payload.get("heartbeat", 0)`
abbrev pub or_zero : Option ℕ → ℕ
or_zero none = 0
or_zero (some n) = n

-- `if subject:`, of a text that may be missing or empty.
abbrev pub non_empty : Option String → Option String
non_empty none = none
non_empty (some text) = if text == "" then none else some text

abbrev pub is_target : Option Probing → String → Bool
is_target none subject = false
is_target (some p) subject = p.target == subject

abbrev pub returned : Result Bool → Bool
returned (ok changed) = true
returned (raise err) = false

abbrev pub or_nothing : {A : Type 0} → Option (List A) → List A
or_nothing none = []
or_nothing (some xs) = xs

module _ {A X C P N H : Type 0} where
  -- `self.gossip.apply(message)`
  unfoldable pub apply_gossip :
      ℕ → Payload String A (Value X) → SwarmNode A X C P N H → SwarmNode A X C P N H × Bool
  unfolding Gossip.apply
  apply_gossip now payload s =
      let (gossip, answer) = Gossip.apply now payload s.gossip in
      (record s { gossip = gossip }, returned answer)

  abbrev pub acknowledged : ℕ → Option String → SwarmNode A X C P N H → SwarmNode A X C P N H
  acknowledged now none s = s
  acknowledged now (some subject) s =
      let known = record s {
        gossip = record s.gossip { peers = (Peers.refresh subject now s.gossip.peers).0 };
      } in
      let counted = count "swim_acks" known in
      if is_target s.probe subject then record counted { probe = none } else counted

  unfoldable pub handle_ack : ℕ → Option String → SwarmNode A X C P N H → SwarmNode A X C P N H
  unfolding Peers.refresh count
  handle_ack now subject s = acknowledged now (non_empty subject) s

module _ {A X C P N H : Type 0} (w : World A X P N H) where
  unfoldable pub handle_join :
      ℕ → String → Option A → Option ℕ → SwarmNode A X C P N H → SwarmNode A X C P N H
  unfolding Peers.merge Gossip.build_digest transmit
  handle_join now src none heartbeat s = s
  handle_join now src (some address) heartbeat s =
      let peers = (Peers.merge src address (or_zero heartbeat) now s.gossip.peers).0 in
      let s' = record s { gossip = record s.gossip { peers = peers } } in
      let welcome : Letter A X P = record {
        src = s.id;
        dst = some src;
        body = welcome_body (Gossip.build_digest s.address s'.gossip);
      } in
      (transmit w address welcome s').0

  unfoldable pub handle_ping : Option A → SwarmNode A X C P N H → SwarmNode A X C P N H
  unfolding transmit
  handle_ping none s = s
  handle_ping (some address) s =
      (transmit w address (record { src = s.id; dst = none; body = ack_body (some s.id) }) s).0

  -- A payload that lacks a field raises `KeyError`.
  abbrev pub relay :
      Option String
      → Option A
      → Option String
      → Option A
      → SwarmNode A X C P N H
      → SwarmNode A X C P N H × Bool
  relay (some subject) (some subject_addr) (some ack_to) (some ack_addr) s =
      let ping : ProbePayload A = record {
        subject = some subject;
        subject_addr = none;
        ack_to = some ack_to;
        ack_addr = some ack_addr;
      } in
      let message : Letter A X P = record { src = s.id; dst = none; body = ping_body ping } in
      ((transmit w subject_addr message s).0, true)
  relay none subject_addr ack_to ack_addr s = (s, false)
  relay (some subject) none ack_to ack_addr s = (s, false)
  relay (some subject) (some subject_addr) none ack_addr s = (s, false)
  relay (some subject) (some subject_addr) (some ack_to) none s = (s, false)

  unfoldable pub handle_ping_req :
      ProbePayload A → SwarmNode A X C P N H → SwarmNode A X C P N H × Bool
  unfolding transmit
  handle_ping_req p s = relay p.subject p.subject_addr p.ack_to p.ack_addr s

  -- One application handler, whose exception is counted.
  abbrev pub call_handler : H → Letter A X P → SwarmNode A X C P N H → SwarmNode A X C P N H
  call_handler handler message s =
      let called = record s { calls = s.calls ++ handler_call handler message ∷ [] } in
      if w.returns (handler_call handler message) then called else count "handler_errors" called

  unfoldable pub dispatch : List H → Letter A X P → SwarmNode A X C P N H → SwarmNode A X C P N H
  unfolding count
  dispatch [] message s = s
  dispatch (handler ∷ handlers) message s =
      dispatch handlers message (call_handler handler message s)

  unfoldable pub dispatch_app :
      String → Letter A X P → SwarmNode A X C P N H → SwarmNode A X C P N H
  unfolding dispatch get
  dispatch_app kind message s = dispatch (or_nothing (get kind s.app_handlers)) message s

  abbrev pub route_body :
      ℕ → Letter A X P → Body A X P → SwarmNode A X C P N H → SwarmNode A X C P N H × Bool
  route_body now m (gossip_body payload) s = apply_gossip now payload s
  route_body now m (join_body address heartbeat) s =
      (handle_join now m.src address heartbeat s, true)
  route_body now m (welcome_body payload) s = apply_gossip now payload s
  route_body now m (ping_body p) s = (handle_ping p.ack_addr s, true)
  route_body now m (ping_req_body p) s = handle_ping_req p s
  route_body now m (ack_body subject) s = (handle_ack now subject s, true)
  route_body now m (app_body kind payload) s = (dispatch_app kind m s, true)

  unfoldable pub route : ℕ → Letter A X P → SwarmNode A X C P N H → SwarmNode A X C P N H × Bool
  unfolding apply_gossip handle_join handle_ping handle_ping_req handle_ack dispatch_app
  route now m s = route_body now m m.body s

  -- A bad message is counted and dropped.
  abbrev pub isolated : SwarmNode A X C P N H × Bool → SwarmNode A X C P N H
  isolated (s, true) = s
  isolated (s, false) = count "bad_messages" s

  abbrev pub receive : ℕ → Letter A X P → SwarmNode A X C P N H → SwarmNode A X C P N H
  receive now m s = isolated (route now m (count "messages_received" s))

  -- A message without an id is not looked for among those seen.
  unfoldable pub on_message :
      ℕ → Option String → Letter A X P → SwarmNode A X C P N H → SwarmNode A X C P N H
  unfolding count remember route member
  on_message now none m s = receive now m s
  on_message now (some id) m s =
      let fresh = receive now m (remember id s) in if member id s.seen_messages then s else fresh
