-- ===== src/Node/Probed.antt =====
-- What a probe sends: a PING to its target, then a PING_REQ to each helper; the table stays as it
-- was.
use Prim.Native.String.{String}
use suprime.Base.{
  ℕ, ◌≡◌, refl, ◌∙◌, inl, inr, arith, Bool, true, false, ◌&&◌, Option, none, some, List, [], ◌∷◌,
  ap,
}
use suprime.Base.Key.{string_eq, string_order, nat_eq}
use suprime.Peers
use suprime.Peers.{Peer}
use suprime.Node.{
  Phase, direct, indirect, Probing, ProbePayload, ping_body, ping_req_body, Letter, SwarmNode,
  World, count, transmit, tally,
}
use suprime.Base.{Option-cases}
use suprime.Peers.{alive, suspect, tick, PeerTable}
use suprime.Node.Probe.{is_some, ask_helpers, asked, helpers_of, request_some, send_ping_reqs}

abbrev pub is_direct : Phase → Bool
is_direct direct = true
is_direct indirect = false

-- A direct probe of this moment, or none.
abbrev pub is_fresh : ℕ → Option Probing → Bool
is_fresh now none = true
is_fresh now (some p) = is_direct p.phase && nat_eq.beq p.sent_at now

module _ {A X C P N H : Type 0} where
  -- A probe in flight is of a peer in the table.
  abbrev pub has_target : SwarmNode A X C P N H → Option Probing → Bool
  has_target s none = true
  has_target s (some p) = is_some (Peers.lookup p.target s.gossip.peers)

  -- Whether a step, but for the probe and what was sent, changed nothing of the table.
  abbrev pub KeepsTable : SwarmNode A X C P N H → SwarmNode A X C P N H → Type 0
  KeepsTable s s' = (s'.gossip ≡ s.gossip) × (s'.probe_timeout ≡ s.probe_timeout)

module _ {A X P : Type 0} where
  -- The PING of node `id` at `address` for `target`.
  abbrev pub ping_of : String → A → String → Letter A X P
  ping_of id address target =
      let ping : ProbePayload A = record {
        subject = some target;
        subject_addr = none;
        ack_to = some id;
        ack_addr = some address;
      } in
      record { src = id; dst = none; body = ping_body ping }

  -- Its PING_REQ for `target` at `addr`.
  abbrev pub request_of : String → A → String → A → Letter A X P
  request_of id address target addr =
      let request : ProbePayload A = record {
        subject = some target;
        subject_addr = some addr;
        ack_to = some id;
        ack_addr = some address;
      } in
      record { src = id; dst = none; body = ping_req_body request }

module _ {A X P N H : Type 0} where
  -- The network after one message to each peer of a list.
  abbrev pub sent_to_all : World A X P N H → Letter A X P → List (Peer String A) → N → N
  sent_to_all w m [] n = n
  sent_to_all w m (p ∷ ps) n = sent_to_all w m ps (w.send n p.address m).0

  abbrev pub pinged_at :
      {C : Type 0} → World A X P N H → SwarmNode A X C P N H → String → Option (Peer String A) → N
  pinged_at w s target none = s.transport
  pinged_at w s target (some peer) =
      (w.send s.transport peer.address (ping_of s.id s.address target)).0

  -- The network after a PING to the target of a probe, if it is a known peer.
  abbrev pub pinged : {C : Type 0} → World A X P N H → SwarmNode A X C P N H → Option Probing → N
  pinged w s none = s.transport
  pinged w s (some p) = pinged_at w s p.target (Peers.lookup p.target s.gossip.peers)

module _ {A X C P N H : Type 0} (w : World A X P N H) where
  pub tally-sent :
      (name : String) (address : A) (m : Letter A X P) (s : SwarmNode A X C P N H)
      → let s' = tally name (transmit w address m s) in
        (s'.transport ≡ (w.send s.transport address m).0)
        × (s'.id ≡ s.id)
        × (s'.address ≡ s.address)
  unfolding transmit count
  tally-sent name address m s = (ground arith, ground arith, ground arith)

  pub transport-ask_helpers :
      (target : String) (addr : A) (helpers : List (Peer String A)) (s : SwarmNode A X C P N H)
      → (ask_helpers w target addr helpers s).transport
        ≡ sent_to_all w (request_of s.id s.address target addr) helpers s.transport
  unfolding ask_helpers
  transport-ask_helpers target addr [] s = refl
  transport-ask_helpers target addr (helper ∷ helpers) s =
      let m = request_of s.id s.address target addr in
      let s' = tally "swim_ping_reqs" (transmit w helper.address m s) in
      let (went, id, address) = tally-sent "swim_ping_reqs" helper.address m s in
      transport-ask_helpers target addr helpers s'
      ∙ ap (λ i. sent_to_all w (request_of i s'.address target addr) helpers s'.transport) id
      ∙ ap (λ a. sent_to_all w (request_of s.id a target addr) helpers s'.transport) address
      ∙ ap (sent_to_all w m helpers) went

  pub tally-KeepsTable :
      (name : String) (address : A) (m : Letter A X P) (s : SwarmNode A X C P N H)
      → KeepsTable s (tally name (transmit w address m s))
  unfolding transmit count
  tally-KeepsTable name address m s = (ground arith, ground arith)

  pub ask_helpers-KeepsTable :
      (target : String) (addr : A) (helpers : List (Peer String A)) (s : SwarmNode A X C P N H)
      → KeepsTable s (ask_helpers w target addr helpers s)
  unfolding ask_helpers
  ask_helpers-KeepsTable target addr [] s = (refl, refl)
  ask_helpers-KeepsTable target addr (helper ∷ helpers) s =
      let request : ProbePayload A = record {
        subject = some target;
        subject_addr = some addr;
        ack_to = some s.id;
        ack_addr = some s.address;
      } in
      let s' = tally "swim_ping_reqs" (
        transmit w helper.address (record { src = s.id; dst = none; body = ping_req_body request })
          s) in
      let rest = ask_helpers-KeepsTable target addr helpers s' in
      let first =
        tally-KeepsTable "swim_ping_reqs" helper.address
          (record { src = s.id; dst = none; body = ping_req_body request }) s in
      (rest.0 ∙ first.0, rest.1 ∙ first.1)

  pub send_ping_reqs-KeepsTable :
      (target : String) (s : SwarmNode A X C P N H) → KeepsTable s (send_ping_reqs w target s)
  unfolding send_ping_reqs
  send_ping_reqs-KeepsTable target s = elim (Option-cases (Peers.lookup target s.gossip.peers)) [
    | inl none_there ↦ rw none_there (refl, refl)
    | inr (peer, there) ↦ rw there (
        ask_helpers-KeepsTable target peer.address
          (asked w s.indirect_k (helpers_of target (Peers.alive_peers s.gossip.peers))) s)
  ]

  pub transport-send_ping_reqs :
      (target : String) (peer : Peer String A) (s : SwarmNode A X C P N H)
      → Peers.lookup target s.gossip.peers ≡ some peer
      → let helpers = asked w s.indirect_k (helpers_of target (Peers.alive_peers s.gossip.peers)) in
        (send_ping_reqs w target s).transport
        ≡ sent_to_all w (request_of s.id s.address target peer.address) helpers s.transport
  unfolding send_ping_reqs
  transport-send_ping_reqs target peer s there =
      ap (λ found. (request_some w target found s).transport) there
      ∙ transport-ask_helpers target peer.address
          (asked w s.indirect_k (helpers_of target (Peers.alive_peers s.gossip.peers))) s
