-- ===== src/Node/Probe.antt =====
-- `_swim_probe`: one step of the failure detector.
use Prim.Native.String.{String}
use suprime.Base.{
  ℕ, ◌+◌, Bool, true, false, not, Option, none, some, List, [], ◌∷◌, leb, min, if◌then◌else◌,
}
use suprime.Base.Key.{◌==◌, string_eq, string_order, nat_eq}
use suprime.Base.Lists.{length}
use suprime.Peers
use suprime.Peers.{Peer}
use suprime.Node.{
  Phase, direct, indirect, Probing, ProbePayload, ping_body, ping_req_body, SwarmNode, World, count,
  transmit, tally,
}

abbrev pub is_some : {A : Type 0} → Option A → Bool
is_some none = false
is_some (some a) = true

module _ {A : Type 0} where
  -- The live peers apart from the target.
  abbrev pub helpers_of : String → List (Peer String A) → List (Peer String A)
  helpers_of target [] = []
  helpers_of target (p ∷ ps) =
      let rest = helpers_of target ps in if p.node_id == target then rest else p ∷ rest

module _ {A X P N H : Type 0} (w : World A X P N H) where
  -- The helpers that are asked; where there are none, nobody is.
  abbrev pub asked : ℕ → List (Peer String A) → List (Peer String A)
  asked k [] = []
  asked k (p ∷ ps) = w.sample_peers (p ∷ ps) (min k (length (p ∷ ps)))

  -- `self.gossip._rng.choice(candidates).node_id`
  abbrev pub pick_from : List (Peer String A) → Option String
  pick_from [] = none
  pick_from (p ∷ ps) = some (w.choice p ps).node_id

module _ {A X C P N H : Type 0} (w : World A X P N H) where
  abbrev pub ping_to :
      ℕ → String → Option (Peer String A) → SwarmNode A X C P N H → SwarmNode A X C P N H
  ping_to now target none s = s
  ping_to now target (some peer) s =
      let ping : ProbePayload A = record {
        subject = some target;
        subject_addr = none;
        ack_to = some s.id;
        ack_addr = some s.address;
      } in
      let probing : Probing = record { target = target; sent_at = now; phase = direct } in
      tally "swim_pings" (
        transmit w peer.address (record { src = s.id; dst = none; body = ping_body ping })
          (record s { probe = some probing }))

  unfoldable pub send_ping : ℕ → String → SwarmNode A X C P N H → SwarmNode A X C P N H
  unfolding Peers.lookup transmit count
  send_ping now target s = ping_to now target (Peers.lookup target s.gossip.peers) s

  -- One request to each helper.
  unfoldable pub ask_helpers :
      String → A → List (Peer String A) → SwarmNode A X C P N H → SwarmNode A X C P N H
  unfolding transmit count
  ask_helpers target addr [] s = s
  ask_helpers target addr (helper ∷ helpers) s =
      let request : ProbePayload A = record {
        subject = some target;
        subject_addr = some addr;
        ack_to = some s.id;
        ack_addr = some s.address;
      } in
      ask_helpers target addr helpers (
        tally "swim_ping_reqs" (
          transmit w helper.address
            (record { src = s.id; dst = none; body = ping_req_body request }) s))

  abbrev pub request_some :
      String → Option (Peer String A) → SwarmNode A X C P N H → SwarmNode A X C P N H
  request_some target none s = s
  request_some target (some peer) s =
      ask_helpers target peer.address
        (asked w s.indirect_k (helpers_of target (Peers.alive_peers s.gossip.peers))) s

  unfoldable pub send_ping_reqs : String → SwarmNode A X C P N H → SwarmNode A X C P N H
  unfolding Peers.lookup Peers.alive_peers ask_helpers
  send_ping_reqs target s = request_some target (Peers.lookup target s.gossip.peers) s

  -- A probe without an answer for as long as the timeout.
  abbrev pub escalate : ℕ → Probing → Phase → SwarmNode A X C P N H → SwarmNode A X C P N H
  escalate now p direct s = record (send_ping_reqs p.target s) {
    probe = some (record p { sent_at = now; phase = indirect });
  }
  escalate now p indirect s = record s { probe = none }

  unfoldable pub advance : ℕ → Option Probing → SwarmNode A X C P N H → SwarmNode A X C P N H
  unfolding Peers.lookup send_ping_reqs
  advance now none s = s
  advance now (some p) s =
      let gone = not (is_some (Peers.lookup p.target s.gossip.peers)) in
      if gone
      then record s { probe = none }
      else if leb (p.sent_at + s.probe_timeout) now
      then escalate now p p.phase s
      else s

  unfoldable pub pick_probe_target : SwarmNode A X C P N H → Option String
  unfolding Peers.all
  pick_probe_target s = pick_from w (Peers.all s.gossip.peers)

  abbrev pub ping_some : ℕ → Option String → SwarmNode A X C P N H → SwarmNode A X C P N H
  ping_some now none s = s
  ping_some now (some target) s = send_ping now target s

  abbrev pub start_if : ℕ → Option Probing → SwarmNode A X C P N H → SwarmNode A X C P N H
  start_if now (some p) s = s
  start_if now none s = ping_some now (pick_probe_target s) s

  unfoldable pub swim_probe : ℕ → SwarmNode A X C P N H → SwarmNode A X C P N H
  unfolding advance pick_probe_target send_ping
  swim_probe now s = let s' = advance now s.probe s in start_if now s'.probe s'
