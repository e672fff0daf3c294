-- ===== src/Node/Round.antt =====
-- `tick`: one round of the node. A flag is false where an exception ends the round.
use Prim.Native.String.{String}
use suprime.Base.{
  ℕ, ◌+◌, Bool, true, false, ◌&&◌, not, Option, none, some, List, [], ◌∷◌, ◌++◌, map, leb,
  if◌then◌else◌,
}
use suprime.Base.Key.{string_eq, string_order, nat_eq}
use suprime.Base.Result.{Result, ok, raise}
use suprime.Peers
use suprime.Peers.{Peer}
use suprime.Store
use suprime.Gossip
use suprime.Gossip.{GossipService, Payload}
use suprime.Consensus
use suprime.Tasks.Evaluate
use suprime.Node.{
  gossip_body, Letter, leader_call, hook_call, SwarmNode, World, count, transmit, tally, bootstrap,
}
use suprime.Node.Probe.{swim_probe}

abbrev pub is_empty : {A : Type 0} → List A → Bool
is_empty [] = true
is_empty (x ∷ xs) = false

abbrev pub returned : Result (Unit {0}) → Bool
returned (ok _) = true
returned (raise err) = false

abbrev pub gc_rounds : ℕ
gc_rounds = 50

module _ {A X C P N H : Type 0} (w : World A X P N H) where
  abbrev pub knock : SwarmNode A X C P N H → SwarmNode A X C P N H
  knock s =
      let called = bootstrap w s in
      if not (is_empty s.seeds) && nat_eq.beq (Peers.size s.gossip.peers) 0 then called else s

  abbrev pub probe_if : ℕ → SwarmNode A X C P N H → SwarmNode A X C P N H
  probe_if now s = let probed = swim_probe w now s in if s.swim then probed else s

module _ {A X C P N H : Type 0} where
  -- Membership churn: the count differs from that of the last round.
  unfoldable pub note_churn : SwarmNode A X C P N H → SwarmNode A X C P N H
  unfolding Peers.size Gossip.boost
  note_churn s =
      let n = Peers.size s.gossip.peers in
      if nat_eq.beq n s.last_member_count
      then s
      else record s { gossip = Gossip.boost 3 s.gossip; last_member_count = n }

  abbrev pub sweep : ℕ → Option ℕ → SwarmNode A X C P N H → SwarmNode A X C P N H
  sweep now none s = s
  sweep now (some age) s =
      if leb gc_rounds (s.gc_counter + 1)
      then record s {
        gc_counter = 0;
        gossip = record s.gossip { store = (Store.collect_garbage age now s.gossip.store).1 };
      }
      else record s { gc_counter = s.gc_counter + 1 }

  unfoldable pub collect_garbage : ℕ → SwarmNode A X C P N H → SwarmNode A X C P N H
  unfolding Store.collect_garbage
  collect_garbage now s = sweep now s.tombstone_gc_after s

module _ {A X C P N H : Type 0} (w : World A X P N H) where
  -- The callbacks in order, up to one that raises.
  unfoldable pub tell_leader :
      List H → String → SwarmNode A X C P N H → SwarmNode A X C P N H × Bool
  tell_leader [] leader s = (s, true)
  tell_leader (callback ∷ callbacks) leader s =
      let called = record s { calls = s.calls ++ leader_call callback leader ∷ [] } in
      let rest = tell_leader callbacks leader called in
      if w.returns (leader_call callback leader) then rest else (called, false)

  abbrev pub tell_if : Option String → SwarmNode A X C P N H → SwarmNode A X C P N H × Bool
  tell_if none s = (s, true)
  tell_if (some leader) s = tell_leader s.leader_callbacks leader s

  unfoldable pub update_leader : SwarmNode A X C P N H → SwarmNode A X C P N H × Bool
  unfolding Peers.alive_peers Consensus.update tell_leader
  update_leader s =
      let alive = map (λ p. p.node_id) (Peers.alive_peers s.gossip.peers) in
      let (view, changed) = Consensus.update alive s.leader_view in
      tell_if changed (record s { leader_view = view })

  -- `self.tasks.evaluate()`, over the store that the board shares with the node.
  unfoldable pub evaluate_tasks : SwarmNode A X C P N H → SwarmNode A X C P N H × Bool
  unfolding Evaluate.evaluate
  evaluate_tasks s =
      let (tasks, answer) =
        Evaluate.evaluate w.task_calls (record s.tasks { store = s.gossip.store }) in
      (
        record s { tasks = tasks; gossip = record s.gossip { store = tasks.store } },
        returned answer,
      )

  unfoldable pub push_to : List A → Letter A X P → SwarmNode A X C P N H → SwarmNode A X C P N H
  unfolding transmit count
  push_to [] message s = s
  push_to (address ∷ addresses) message s =
      push_to addresses message (tally "gossip_sent" (transmit w address message s))

  unfoldable pub gossip_once : SwarmNode A X C P N H → SwarmNode A X C P N H
  unfolding Gossip.select_targets Gossip.build_digest push_to
  gossip_once s =
      let (targets, gossip) = Gossip.select_targets w.ceil_log2 w.sample_addresses s.gossip in
      let s' = record s { gossip = gossip } in
      push_to targets
        (record {
          src = s.id;
          dst = none;
          body = gossip_body (Gossip.build_digest s.address gossip);
        })
        s'

  abbrev pub call_hook : H → SwarmNode A X C P N H → SwarmNode A X C P N H
  call_hook hook s =
      let called = record s { calls = s.calls ++ hook_call hook ∷ [] } in
      if w.returns (hook_call hook) then called else count "hook_errors" called

  unfoldable pub run_hooks : List H → SwarmNode A X C P N H → SwarmNode A X C P N H
  unfolding count
  run_hooks [] s = s
  run_hooks (hook ∷ hooks) s = run_hooks hooks (call_hook hook s)

  -- What a step that may raise is followed by.
  abbrev pub and_then :
      (SwarmNode A X C P N H → SwarmNode A X C P N H × Bool)
      → SwarmNode A X C P N H × Bool
      → SwarmNode A X C P N H × Bool
  and_then f (s, true) = f s
  and_then f (s, false) = (s, false)

  -- The steps before those that may raise.
  unfoldable pub tick_start : ℕ → SwarmNode A X C P N H → SwarmNode A X C P N H
  unfolding count Gossip.bump_heartbeat Peers.tick Peers.size bootstrap swim_probe note_churn
      collect_garbage
  tick_start now s =
      let counted = count "ticks" s in
      let bumped = record counted { gossip = (Gossip.bump_heartbeat counted.gossip).1 } in
      let aged = record bumped {
        gossip = record bumped.gossip { peers = Peers.tick now bumped.gossip.peers };
      } in
      collect_garbage now (note_churn (probe_if w now (knock w aged)))

  unfoldable pub disseminate : SwarmNode A X C P N H → SwarmNode A X C P N H × Bool
  unfolding gossip_once run_hooks
  disseminate s = let s' = gossip_once s in (run_hooks s'.tick_hooks s', true)

  unfoldable pub tick : ℕ → SwarmNode A X C P N H → SwarmNode A X C P N H × Bool
  unfolding tick_start update_leader evaluate_tasks disseminate
  tick now s = and_then disseminate (and_then evaluate_tasks (update_leader (tick_start now s)))
