-- ===== src/Node/App.antt =====
-- What the application calls on a node: registration, sends, start and stop.
use Prim.Native.String.{String}
use suprime.Base.{ℕ, ◌+◌, Bool, true, false, Option, none, some, List, [], ◌∷◌, ◌++◌, if◌then◌else◌}
use suprime.Base.Key.{string_eq, string_order, nat_eq}
use suprime.Base.Dict.{get, put}
use suprime.Peers
use suprime.Peers.{Peer}
use suprime.Consensus
use suprime.Node.{app_body, Letter, SwarmNode, World, transmit, bootstrap}
use suprime.Node.Round.{is_empty}

abbrev pub or_nothing : {A : Type 0} → Option (List A) → List A
or_nothing none = []
or_nothing (some xs) = xs

module _ {A X C P N H : Type 0} where
  unfoldable pub on : String → H → SwarmNode A X C P N H → SwarmNode A X C P N H
  unfolding get put
  on kind handler s = record s {
    app_handlers = put kind (or_nothing (get kind s.app_handlers) ++ handler ∷ []) s.app_handlers;
  }

  unfoldable pub on_tick : H → SwarmNode A X C P N H → SwarmNode A X C P N H
  on_tick hook s = record s { tick_hooks = s.tick_hooks ++ hook ∷ [] }

  unfoldable pub on_leader_change : H → SwarmNode A X C P N H → SwarmNode A X C P N H
  on_leader_change callback s = record s { leader_callbacks = s.leader_callbacks ++ callback ∷ [] }

  unfoldable pub leader : SwarmNode A X C P N H → Option String
  leader s = s.leader_view.leader

  unfoldable pub is_leader : SwarmNode A X C P N H → Bool
  unfolding Consensus.is_leader
  is_leader s = Consensus.is_leader s.leader_view

module _ {A X C P N H : Type 0} (w : World A X P N H) where
  unfoldable pub send_to :
      A → String → P → Option String → SwarmNode A X C P N H → SwarmNode A X C P N H × Bool
  unfolding transmit
  send_to address kind payload dst s =
      transmit w address (record { src = s.id; dst = dst; body = app_body kind payload }) s

  abbrev pub send_peer :
      Option (Peer String A) → Letter A X P → SwarmNode A X C P N H → SwarmNode A X C P N H × Bool
  send_peer none message s = (s, false)
  send_peer (some peer) message s = transmit w peer.address message s

  unfoldable pub send : String → String → P → SwarmNode A X C P N H → SwarmNode A X C P N H × Bool
  unfolding Peers.lookup transmit
  send node_id kind payload s =
      send_peer (Peers.lookup node_id s.gossip.peers)
        (record { src = s.id; dst = some node_id; body = app_body kind payload }) s

  -- One turn of the loop of `broadcast`.
  abbrev pub one_more : SwarmNode A X C P N H × Bool → ℕ → SwarmNode A X C P N H × ℕ
  one_more (s, true) sent = (s, sent + 1)
  one_more (s, false) sent = (s, sent)

  unfoldable pub broadcast_to :
      List (Peer String A) → Letter A X P → SwarmNode A X C P N H × ℕ → SwarmNode A X C P N H × ℕ
  unfolding transmit
  broadcast_to [] message s = s
  broadcast_to (peer ∷ peers) message (s, sent) =
      broadcast_to peers message (one_more (transmit w peer.address message s) sent)

  unfoldable pub broadcast : String → P → SwarmNode A X C P N H → SwarmNode A X C P N H × ℕ
  unfolding Peers.all broadcast_to
  broadcast kind payload s =
      broadcast_to (Peers.all s.gossip.peers)
        (record { src = s.id; dst = none; body = app_body kind payload }) (s, 0)

  -- `start`, without the files and the task of the automatic loop.
  unfoldable pub start : SwarmNode A X C P N H → SwarmNode A X C P N H
  unfolding Peers.known_ids Consensus.update bootstrap
  start s =
      let view = (Consensus.update (Peers.known_ids false s.gossip.peers) s.leader_view).0 in
      let s' = record s { is_running = true; leader_view = view } in
      let called = bootstrap w s' in if is_empty s.seeds then s' else called
