-- ===== src/Peers/Tick.antt =====
-- What `PeerTable.tick` does to each peer.
use suprime.Base.{ℕ, ◌≡◌, refl, Option, none, some, [], ◌∷◌, arith, if◌then◌else◌}
use suprime.Base.Key.{Eq, ◌==◌}
use suprime.Base.Dict.{Dict, Distinct, get, put, get-put, get-del}
use suprime.Peers.{suspect, dead, Peer, PeerTable, silent_for, tick_peer, tick_loop, tick}

module _ {K A : Type 0} where
  -- The verdict on one peer.
  unfoldable pub classify : ℕ → ℕ → ℕ → Option (Peer K A) → Option (Peer K A)
  unfolding silent_for
  classify suspect_after dead_after now none = none
  classify suspect_after dead_after now (some p) =
      if silent_for dead_after now p
      then none
      else if silent_for suspect_after now p
      then some (record p { state = suspect })
      else some p

module _ {K A : Type 0} ⦃e : Eq K⦄ where
  -- Every peer is stored under its own id.
  abbrev pub IsKeyed : Dict K (Peer K A) → Type 0
  IsKeyed [] = Unit {0}
  IsKeyed ((k, p) ∷ d) = (p.node_id ≡ k) × IsKeyed d

  abbrev pub turned : ℕ → ℕ → ℕ → Option (Peer K A) → Option (Peer K A) → Option (Peer K A)
  turned suspect_after dead_after now none old = old
  turned suspect_after dead_after now (some p) old =
      if silent_for dead_after now p
      then none
      else if silent_for suspect_after now p
      then some (record p { state = suspect })
      else old

  get-tick_peer :
      (sa da now : ℕ) (key : K) (p : Peer K A) (d : Dict K (Peer K A)) (k : K)
      → p.node_id ≡ key
      → get k (tick_peer sa da now key p d)
        ≡ (if key == k then turned sa da now (some p) (get k d) else get k d)
  unfolding tick_peer
  get-tick_peer sa da now key p d k h = ground (
    arith,
    get-del p.node_id k (put key (record p { state = dead }) d),
    get-put key k (record p { state = dead }) d,
    get-put key k (record p { state = suspect }) d,
    e.beq_iff key k,
  )

  get-tick_loop :
      (sa da now : ℕ) (snapshot d : Dict K (Peer K A)) (k : K)
      → Distinct snapshot
      → IsKeyed snapshot
      → get k (tick_loop sa da now snapshot d) ≡ turned sa da now (get k snapshot) (get k d)
  unfolding tick_loop get
  get-tick_loop sa da now [] d k hd hk = refl
  get-tick_loop sa da now ((key, p) ∷ snapshot) d k hd hk = ground (
    arith,
    get-tick_loop sa da now snapshot (tick_peer sa da now key p d) k hd.1 hk.1,
    get-tick_peer sa da now key p d k hk.0,
    e.beq_iff key k,
  )

  -- On a table with distinct keys whose peers are stored under their own ids, a tick evicts
  -- exactly the peers that have been silent for the dead limit, marks those silent for the suspect
  -- limit, and leaves the others as they were.
  pub get-tick :
      (now : ℕ) (t : PeerTable K A) (k : K)
      → Distinct t.peers
      → IsKeyed t.peers
      → get k (tick now t).peers ≡ classify t.suspect_after t.dead_after now (get k t.peers)
  unfolding tick classify
  get-tick now t k hd hk =
      ground (arith, get-tick_loop t.suspect_after t.dead_after now t.peers t.peers k hd hk)
