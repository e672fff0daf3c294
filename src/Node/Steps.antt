-- ===== src/Node/Steps.antt =====
-- The branches of a step of the failure detector, and what it leaves.
use Prim.Native.String.{String}
use suprime.Base.{
  ℕ, ◌+◌, ◌≡◌, refl, ap, sym, ◌∙◌, inl, inr, arith, Bool-cases, true, false, Option, none, some,
  leb,
}
use suprime.Base.Key.{string_eq, string_order, nat_eq}
use suprime.Peers
use suprime.Peers.{Peer}
use suprime.Node.{Phase, direct, indirect, Probing, SwarmNode, World, count, transmit}
use suprime.Base.{Option-cases}
use suprime.Base.Key.{==_refl}
use suprime.Peers.{alive, suspect, tick, PeerTable}
use suprime.Node.Probe.{
  is_some, ping_to, send_ping, escalate, advance, pick_probe_target, start_if, swim_probe,
}
use suprime.Node.Probed.{
  is_fresh, has_target, ping_of, pinged_at, pinged, send_ping_reqs-KeepsTable,
}

module _ {A X C P N H : Type 0} (w : World A X P N H) where
  -- The three branches of `advance` with a probe in flight.
  advance_gone :
      (now : ℕ) (p : Probing) (s : SwarmNode A X C P N H)
      → is_some (Peers.lookup p.target s.gossip.peers) ≡ false
      → advance w now (some p) s ≡ record s { probe = none }
  unfolding advance
  advance_gone now p s gone = rw gone refl

  pub advance_due :
      (now : ℕ) (p : Probing) (s : SwarmNode A X C P N H)
      → is_some (Peers.lookup p.target s.gossip.peers) ≡ true
      → leb (p.sent_at + s.probe_timeout) now ≡ true
      → advance w now (some p) s ≡ escalate w now p p.phase s
  unfolding advance
  advance_due now p s known due = rw (known, due) refl

  pub advance_early :
      (now : ℕ) (p : Probing) (s : SwarmNode A X C P N H)
      → is_some (Peers.lookup p.target s.gossip.peers) ≡ true
      → leb (p.sent_at + s.probe_timeout) now ≡ false
      → advance w now (some p) s ≡ s
  unfolding advance
  advance_early now p s known early = rw (known, early) refl

  escalate-has_target :
      (now : ℕ) (p : Probing) (phase : Phase) (s : SwarmNode A X C P N H)
      → is_some (Peers.lookup p.target s.gossip.peers) ≡ true
      → let s' = escalate w now p phase s in has_target s' s'.probe ≡ true
  escalate-has_target now p direct s known =
      ap (λ g. is_some (Peers.lookup p.target g.peers)) (send_ping_reqs-KeepsTable w p.target s).0
      ∙ known
  escalate-has_target now p indirect s known = refl

  advance-has_target :
      (now : ℕ) (pr : Option Probing) (s : SwarmNode A X C P N H)
      → s.probe ≡ pr
      → let s' = advance w now pr s in has_target s' s'.probe ≡ true
  advance-has_target now none s is = unfold advance in (ap (has_target s) is)
  advance-has_target now (some p) s is =
      elim (Bool-cases (is_some (Peers.lookup p.target s.gossip.peers))) [
        | inr gone ↦ ap (λ t. has_target t t.probe) (advance_gone now p s gone)
        | inl known ↦ elim (Bool-cases (leb (p.sent_at + s.probe_timeout) now)) [
          | inl due ↦
              ap (λ t. has_target t t.probe) (advance_due now p s known due)
              ∙ escalate-has_target now p p.phase s known
          | inr early ↦
              ap (λ t. has_target t t.probe) (advance_early now p s known early)
              ∙ ap (has_target s) is
              ∙ known
        ]
      ]

  unstarted :
      (now : ℕ) (s : SwarmNode A X C P N H)
      → s.probe ≡ none
      → (has_target s s.probe ≡ true)
        × (is_fresh now s.probe ≡ true)
        × (s.transport ≡ pinged w s s.probe)
  unstarted now s idle =
      (ap (has_target s) idle, ap (is_fresh now) idle, sym (ap (pinged w s) idle))

  pinged_known :
      (now : ℕ) (target : String) (peer : Peer String A) (s : SwarmNode A X C P N H)
      → Peers.lookup target s.gossip.peers ≡ some peer
      → pinged w s (some (record { target = target; sent_at = now; phase = direct }))
        ≡ (w.send s.transport peer.address (ping_of s.id s.address target)).0
  pinged_known now target peer s there = ap (pinged_at w s target) there

  ping_to-probe :
      (now : ℕ) (target : String) (peer : Peer String A) (s : SwarmNode A X C P N H)
      → let s' = ping_to w now target (some peer) s in
        (s'.probe ≡ some (record { target = target; sent_at = now; phase = direct }))
        × (s'.gossip ≡ s.gossip)
        × (s'.transport ≡ (w.send s.transport peer.address (ping_of s.id s.address target)).0)
  unfolding transmit count
  ping_to-probe now target peer s = (ground arith, ground arith, ground arith)

  -- What starting a probe leaves, where there was none.
  pub started :
      (now : ℕ) (s : SwarmNode A X C P N H)
      → s.probe ≡ none
      → let s' = start_if w now none s in
        (has_target s' s'.probe ≡ true)
        × (is_fresh now s'.probe ≡ true)
        × (s'.transport ≡ pinged w s s'.probe)
  unfolding send_ping
  started now s idle = elim (Option-cases (pick_probe_target w s)) [
    | inl nobody ↦ rw nobody (unstarted now s idle)
    | inr (target, chosen) ↦ elim (Option-cases (Peers.lookup target s.gossip.peers)) [
      | inl unknown ↦ rw (chosen, unknown) (unstarted now s idle)
      | inr (peer, there) ↦
          let (probe, same, sent) = ping_to-probe now target peer s in
          rw (chosen, there)
            (
              ap (has_target (ping_to w now target (some peer) s)) probe
                  ∙ ap (λ g. is_some (Peers.lookup target g.peers)) same
                  ∙ ap is_some there,
              ap (is_fresh now) probe ∙ ==_refl now,
              sent ∙ sym (ap (pinged w s) probe ∙ pinged_known now target peer s there),
            )
    ]
  ]

  pub step-idle :
      (now : ℕ) (s : SwarmNode A X C P N H)
      → (advance w now s.probe s).probe ≡ none
      → swim_probe w now s ≡ start_if w now none (advance w now s.probe s)
  unfolding swim_probe
  step-idle now s idle = ap (λ pr. start_if w now pr (advance w now s.probe s)) idle

  pub step-busy :
      (now : ℕ) (p : Probing) (s : SwarmNode A X C P N H)
      → (advance w now s.probe s).probe ≡ some p
      → swim_probe w now s ≡ advance w now s.probe s
  unfolding swim_probe
  step-busy now p s busy = ap (λ pr. start_if w now pr (advance w now s.probe s)) busy

  -- After a step the probe in flight, if any, is of a peer in the table.
  swim_probe-has_target :
      (now : ℕ) (s : SwarmNode A X C P N H)
      → let s' = swim_probe w now s in has_target s' s'.probe ≡ true
  swim_probe-has_target now s =
      let s' = advance w now s.probe s in
      elim (Option-cases s'.probe) [
        | inl idle ↦ ap (λ t. has_target t t.probe) (step-idle now s idle) ∙ (started now s' idle).0
        | inr (p, busy) ↦
            ap (λ t. has_target t t.probe) (step-busy now p s busy)
            ∙ advance-has_target now s.probe s refl
      ]
