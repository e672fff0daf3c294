-- ===== src/Node/Swim.antt =====
-- What becomes of a probe: escalated after a timeout, given up after another, or answered.
use Prim.Native.String.{String}
use suprime.Base.{
  ℕ, ◌+◌, ◌≤◌, ◌<◌, ◌≡◌, refl, ap, sym, ◌∙◌, inl, inr, arith, Bool-cases, true, false, none, some,
  ltb, if◌then◌else◌,
}
use suprime.Base.Key.{◌==◌, string_eq, string_order, nat_eq}
use suprime.Base.Dict.{get}
use suprime.Peers
use suprime.Peers.{Peer}
use suprime.Node.{direct, indirect, Probing, SwarmNode, World, count}
use suprime.Peers.{alive, suspect, tick, PeerTable}
use suprime.Peers.Table.{IsTable}
use suprime.Peers.Heartbeat.{tick-refresh}
use suprime.Node.Probe.{is_some, helpers_of, asked, escalate, advance, start_if, swim_probe}
use suprime.Node.Receive.{is_target, handle_ack}
use suprime.Node.Probed.{
  is_fresh, request_of, sent_to_all, pinged, KeepsTable, send_ping_reqs-KeepsTable,
  transport-send_ping_reqs,
}
use suprime.Node.Steps.{advance_due, advance_early, started, step-idle, step-busy}

module _ {A X C P N H : Type 0} (w : World A X P N H) where
  -- The steps of a direct and of an indirect probe that are due.
  step_direct :
      (now : ℕ) (p : Probing) (peer : Peer String A) (s : SwarmNode A X C P N H)
      → s.probe ≡ some p
      → p.phase ≡ direct
      → Peers.lookup p.target s.gossip.peers ≡ some peer
      → p.sent_at + s.probe_timeout ≤ now
      → let s' = swim_probe w now s in
        let helpers =
          asked w s.indirect_k (helpers_of p.target (Peers.alive_peers s.gossip.peers)) in
        ((s'.probe ≡ some (record { target = p.target; sent_at = now; phase = indirect }))
          × (s'.transport
              ≡ sent_to_all w
                  (request_of s.id s.address p.target peer.address)
                  helpers
                  s.transport))
        × KeepsTable s s'
  step_direct now p peer s is phase known due =
      let later = escalate w now p direct s in
      let moved : advance w now s.probe s ≡ later =
        ap (λ pr. advance w now pr s) is
        ∙ advance_due w now p s (ap is_some known) (ground (arith, due))
        ∙ ap (λ ph. escalate w now p ph s) phase in
      let same =
        step-busy w now (record { target = p.target; sent_at = now; phase = indirect }) s
          (ap (λ t. t.probe) moved)
        ∙ moved in
      let kept = send_ping_reqs-KeepsTable w p.target s in
      (
        (
          ap (λ t. t.probe) same,
          ap (λ t. t.transport) same ∙ transport-send_ping_reqs w p.target peer s known,
        ),
        (ap (λ t. t.gossip) same ∙ kept.0, ap (λ t. t.probe_timeout) same ∙ kept.1),
      )

  step_indirect :
      (now : ℕ) (p : Probing) (s : SwarmNode A X C P N H)
      → s.probe ≡ some p
      → p.phase ≡ indirect
      → is_some (Peers.lookup p.target s.gossip.peers) ≡ true
      → p.sent_at + s.probe_timeout ≤ now
      → let s' = swim_probe w now s in
        (is_fresh now s'.probe ≡ true) × (s'.transport ≡ pinged w s s'.probe)
  step_indirect now p s is phase known due =
      let idle : SwarmNode A X C P N H = record s { probe = none } in
      let moved : advance w now s.probe s ≡ idle =
        ap (λ pr. advance w now pr s) is
        ∙ advance_due w now p s known (ground (arith, due))
        ∙ ap (λ ph. escalate w now p ph s) phase in
      let same = step-idle w now s (ap (λ t. t.probe) moved) ∙ ap (start_if w now none) moved in
      let (_, fresh, sent) = started w now idle refl in
      (
        ap (λ t. is_fresh now t.probe) same ∙ fresh,
        ap (λ t. t.transport) same ∙ sent ∙ sym (ap (λ t. pinged w s t.probe) same),
      )

  -- A direct probe of a known peer is left alone before its timeout; a step after the timeout
  -- makes it indirect and sends a PING_REQ for the peer to each sampled live helper, and nothing
  -- else; and a step a timeout later gives it up, for a direct probe of that moment whose PING is
  -- all that the step sends, or for none, when it sends nothing.
  pub probe_given_up :
      (t0 t1 t2 : ℕ) (p : Probing) (peer : Peer String A) (s : SwarmNode A X C P N H)
      → s.probe ≡ some p
      → p.phase ≡ direct
      → Peers.lookup p.target s.gossip.peers ≡ some peer
      → t0 < p.sent_at + s.probe_timeout
      → p.sent_at + s.probe_timeout ≤ t1
      → t1 + s.probe_timeout ≤ t2
      → let s1 = swim_probe w t1 s in
        let s2 = swim_probe w t2 s1 in
        let helpers =
          asked w s.indirect_k (helpers_of p.target (Peers.alive_peers s.gossip.peers)) in
        (swim_probe w t0 s ≡ s)
        × (s1.probe ≡ some (record { target = p.target; sent_at = t1; phase = indirect }))
        × (s1.transport
            ≡ sent_to_all w (request_of s.id s.address p.target peer.address) helpers s.transport)
        × (is_fresh t2 s2.probe ≡ true)
        × (s2.transport ≡ pinged w s1 s2.probe)
  probe_given_up t0 t1 t2 p peer s is phase known early due1 due2 =
      let ((probing, sent), (table, timeout)) = step_direct t1 p peer s is phase known due1 in
      let waits : advance w t0 s.probe s ≡ s =
        ap (λ pr. advance w t0 pr s) is
        ∙ advance_early w t0 p s (ap is_some known) (ground (arith, early)) in
      let (fresh, again) =
        step_indirect t2 (record { target = p.target; sent_at = t1; phase = indirect })
          (swim_probe w t1 s) probing refl
          (ap (λ g. is_some (Peers.lookup p.target g.peers)) table ∙ ap is_some known)
          (omega (arith, due2, timeout)) in
      (step-busy w t0 p s (ap (λ t. t.probe) waits ∙ is) ∙ waits, probing, sent, fresh, again)

module _ {A X C P N H : Type 0} where
  acked :
      (seen : ℕ) (subject : String) (s : SwarmNode A X C P N H)
      → (subject == "") ≡ false
      → (is_target (handle_ack seen (some subject) s).probe subject ≡ false)
        × ((handle_ack seen (some subject) s).gossip.peers
            ≡ (Peers.refresh subject seen s.gossip.peers).0)
  unfolding handle_ack count
  acked seen subject s named = rw named (elim (Bool-cases (is_target s.probe subject)) [
    | inl mine ↦ rw mine (refl, refl)
    | inr other ↦ rw other (other, refl)
  ])

  -- In a valid table whose suspect limit is at most its dead limit, an acknowledgement at `seen`
  -- for a known peer, under an id that is not empty, ends a probe of that peer; the peer is then
  -- alive until the suspect limit, suspect from then until the dead limit, and gone from then on.
  pub handle_ack-tick :
      (seen now : ℕ) (subject : String) (q : Peer String A) (s : SwarmNode A X C P N H)
      → (subject == "") ≡ false
      → IsTable s.gossip.peers
      → get subject s.gossip.peers.peers ≡ some q
      → s.gossip.peers.suspect_after ≤ s.gossip.peers.dead_after
      → let s' = handle_ack seen (some subject) s in
        (is_target s'.probe subject ≡ false)
        × (get subject (tick now s'.gossip.peers).peers ≡ (
            if ltb now (seen + s.gossip.peers.suspect_after)
            then some (record q { last_update = seen; state = alive })
            else if ltb now (seen + s.gossip.peers.dead_after)
            then some (record q { last_update = seen; state = suspect })
            else none))
  handle_ack-tick seen now subject q s named valid there le =
      let (cleared, refreshed) = acked seen subject s named in
      (
        cleared,
        ap (λ t. get subject (tick now t).peers) refreshed
            ∙ tick-refresh subject seen now s.gossip.peers q valid there le,
      )
