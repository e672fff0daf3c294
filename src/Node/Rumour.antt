-- ===== src/Node/Rumour.antt =====
-- Nodes that push their digests to one another.
use Prim.Native.String.{String}
use suprime.Base.{
  ℕ, ◌≡◌, refl, sym, ap, ◌∙◌, inl, inr, Bool-cases, Bool, true, false, ◌||◌, none, some, List, [],
  ◌∷◌, ◌++◌, ltb, if◌then◌else◌,
}
use suprime.Base.Key.{Eq, string_eq, string_order, nat_eq}
use suprime.Base.Lists.{length}
use suprime.Base.Result.{Result, ok, raise}
use suprime.Base.Dict.{get}
use suprime.Base.Sets.{member, add}
use suprime.Peers
use suprime.Peers.{Peer}
use suprime.Gossip
use suprime.Gossip.{GossipService, Payload}
use suprime.Tasks.{Value}
use suprime.Node.{gossip_body, Letter, SwarmNode, World, count, remember}
use mathlib.Core.Path.{subst}
use suprime.Base.Dict.{Distinct}
use suprime.Store.Entries.{version_of}
use suprime.Store.{merge}
use suprime.Store.Merge.{merge-newest, merge-Distinct}
use suprime.Store.Wire
use suprime.Store.Wire.{apply_digest-digest_of}
use suprime.Version.Newest.{newest}
use suprime.Gossip.{apply_store, or_empty}
use suprime.Peers.{PeerTable, Descriptor, apply_entry, read_entry, apply_from}
use suprime.Peers.Table.{IsTable, operations-IsTable}
use suprime.Peers.Heartbeat.{heartbeat-apply_digest}
use suprime.AntiEntropy.Exchange.{AgreeOn}
use suprime.AntiEntropy.Converge.{back_and_forth}
use suprime.Node.{discard_oldest}
use suprime.Node.Receive.{route_body, apply_gossip, returned, isolated, route, on_message}
use suprime.Node.Seen.{on_message_new}

module _ {K A : Type 0} ⦃e : Eq K⦄ where
  apply_from-append :
      (now : ℕ) (xs ys : List (Descriptor K A)) (s : PeerTable K A × Result Bool)
      → apply_from now s (xs ++ ys) ≡ apply_from now (apply_from now s xs) ys
  unfolding apply_from
  apply_from-append now [] ys s = refl
  apply_from-append now (x ∷ xs) ys s =
      apply_from-append now xs ys (apply_entry now s (read_entry x))

  -- One more entry that lacks no field.
  last_ok :
      (now : ℕ) (k : K) (address : A) (heartbeat : ℕ) (s : PeerTable K A × Result Bool) (c : Bool)
      → s.1 ≡ ok c
      → (c' : Bool) × ((apply_entry now s (ok (k, address, heartbeat))).1 ≡ ok c')
  last_ok now k address heartbeat (t, r) c h = (
    (if (Peers.merge k address heartbeat now t).1 then true else c),
    ap (λ q. (apply_entry now (t, q) (ok (k, address, heartbeat))).1) h,
  )

  -- The digest of a valid table, and one entry more, is read to its end.
  apply_digest_ok :
      (now : ℕ) (t u : PeerTable K A) (k : K) (address : A) (heartbeat : ℕ)
      → IsTable u
      → (c : Bool) × ((Peers.apply_digest now
            (Peers.digest u
              ++ record { node_id = some k; address = some address; heartbeat = some heartbeat }
                ∷ [])
            t).1
          ≡ ok c)
  unfolding Peers.apply_digest apply_from
  apply_digest_ok now t u k address heartbeat valid =
      let own : Descriptor K A = record {
        node_id = some k;
        address = some address;
        heartbeat = some heartbeat;
      } in
      let ((c, read), beats) = heartbeat-apply_digest now t u k valid in
      let (c', last) =
        last_ok now k address heartbeat (apply_from now (t, ok false) (Peers.digest u)) c read in
      (c', ap (λ p. p.1) (apply_from-append now (Peers.digest u) (own ∷ []) (t, ok false)) ∙ last)

module _ {A X C D : Type 0} where
  -- What a service keeps of a payload that another one made.
  abbrev Heard :
      ℕ
      → A
      → GossipService String A (Value X) D
      → GossipService String A (Value X) C
      → GossipService String A (Value X) C × Result Bool
      → Type 0
  Heard now address g b after =
      (after.0.store ≡ (merge g.store.entries b.store).0)
      × (IsTable b.peers → IsTable after.0.peers)
      × (returned after.1 ≡ true)

  apply-build_digest :
      (now : ℕ) (address : A) (g : GossipService String A (Value X) D)
      (b : GossipService String A (Value X) C)
      → IsTable g.peers
      → g.include_store ≡ true
      → Heard now address g b (Gossip.apply now (Gossip.build_digest address g) b)
  unfolding Gossip.apply Gossip.build_digest Wire.digest
  apply-build_digest now address g b valid included =
      let entries =
        Peers.digest g.peers
        ++ record { node_id = some g.self_id; address = some address; heartbeat = some g.heartbeat }
          ∷ [] in
      let (c, read) = apply_digest_ok now b.peers g.peers g.self_id address g.heartbeat valid in
      let peers = (Peers.apply_digest now entries b.peers).0 in
      let payload = Gossip.build_digest address g in
      let merged = apply_digest-digest_of g.store.entries b.store in
      let is : Gossip.apply now payload b ≡ (
        record b { peers = peers; store = (merge g.store.entries b.store).0 },
        ok (c || (merge g.store.entries b.store).1),
      ) =
        rw (read, included, merged) refl in
      (
        ap (λ p. p.0.store) is,
        λ h.
            subst (λ p. IsTable p.0.peers) (sym is)
              (operations-IsTable g.self_id address 0 now entries b.peers h).4,
        ap (λ p. returned p.1) is,
      )

module _ {A X C : Type 0} where
  include-apply_store :
      (payload : Payload String A (Value X)) (r : Result Bool)
      (g : GossipService String A (Value X) C)
      → (apply_store payload r g).0.include_store ≡ g.include_store
  include-apply_store payload (ok c) g = refl
  include-apply_store payload (raise err) g = refl

  include-apply :
      (now : ℕ) (payload : Payload String A (Value X)) (g : GossipService String A (Value X) C)
      → (Gossip.apply now payload g).0.include_store ≡ g.include_store
  unfolding Gossip.apply
  include-apply now payload g =
      let r = Peers.apply_digest now (or_empty payload.membership) g.peers in
      include-apply_store payload r.1 (record g { peers = r.0 })

module _ {A X C P N H : Type 0} where
  gossip-discard_oldest :
      (order : List String) (s : SwarmNode A X C P N H) → (discard_oldest s order).gossip ≡ s.gossip
  unfolding discard_oldest
  gossip-discard_oldest [] s = refl
  gossip-discard_oldest (x ∷ xs) s = refl

  gossip-remember : (id : String) (s : SwarmNode A X C P N H) → (remember id s).gossip ≡ s.gossip
  unfolding remember discard_oldest
  gossip-remember id s =
      let order = s.seen_order ++ id ∷ [] in
      let s' : SwarmNode A X C P N H = record s {
        seen_messages = add id s.seen_messages;
        seen_order = order;
      } in
      elim (Bool-cases (ltb s.seen_cap (length order))) [
        | inl full ↦ rw full (gossip-discard_oldest order s')
        | inr fits ↦ rw fits refl
      ]

module _ {A X C P N H : Type 0} (w : World A X P N H) where
  gossip-isolated : (r : SwarmNode A X C P N H × Bool) → (isolated w r).gossip ≡ r.0.gossip
  unfolding count
  gossip-isolated (s, true) = refl
  gossip-isolated (s, false) = refl

  -- A gossip message that is new is applied.
  gossip_heard :
      (now : ℕ) (id : String) (m : Letter A X P) (payload : Payload String A (Value X))
      (s : SwarmNode A X C P N H)
      → m.body ≡ gossip_body payload
      → member id s.seen_messages ≡ false
      → (on_message w now (some id) m s).gossip ≡ (Gossip.apply now payload s.gossip).0
  unfolding route apply_gossip count
  gossip_heard now id m payload s is new =
      let s' = count "messages_received" (remember id s) in
      ap (λ t. t.gossip) (on_message_new w now id m s new)
      ∙ gossip-isolated (route w now m s')
      ∙ ap (λ body. (route_body w now m body s').0.gossip) is
      ∙ ap (λ g. (Gossip.apply now payload g).0) (gossip-remember id s)

module _ {A X C P N H : Type 0} where
  -- What `gossip_once` sends.
  abbrev pub rumour : SwarmNode A X C P N H → Letter A X P
  rumour s = record {
    src = s.id;
    dst = none;
    body = gossip_body (Gossip.build_digest s.address s.gossip);
  }

module _ {A X C D P N M H J : Type 0} (w : World A X P N H) (v : World A X P M J) where
  -- After a node has pushed its digest to another and the other has pushed its own back, the two
  -- stores hold the same entry at every key, where both tables are valid, both nodes gossip their
  -- store, the keys of each store are distinct, equal versions at a key mean equal entries, and
  -- neither message was seen before.
  pub gossip_converge :
      (now later : ℕ) (i j : String) (a : SwarmNode A X C P N H) (b : SwarmNode A X D P M J)
      (key : String)
      → IsTable a.gossip.peers
      → IsTable b.gossip.peers
      → a.gossip.include_store ≡ true
      → b.gossip.include_store ≡ true
      → Distinct a.gossip.store.entries
      → Distinct b.gossip.store.entries
      → AgreeOn b.gossip.store.entries a.gossip.store.entries
      → member i b.seen_messages ≡ false
      → member j a.seen_messages ≡ false
      → let b' = on_message v now (some i) (rumour a) b in
        let a' = on_message w later (some j) (rumour b') a in
        get key a'.gossip.store.entries ≡ get key b'.gossip.store.entries
  gossip_converge now later i j a b key va vb ia ib da db agree new_i new_j =
      let b' = on_message v now (some i) (rumour a) b in
      let heard =
        gossip_heard v now i (rumour a) (Gossip.build_digest a.address a.gossip) b refl new_i in
      let (stored, keeps, _) = apply-build_digest now a.address a.gossip b.gossip va ia in
      let at_b : get key b'.gossip.store.entries
          ≡ newest version_of (get key b.gossip.store.entries) (get key a.gossip.store.entries) =
        ap (λ g. get key g.store.entries) heard
        ∙ ap (λ t. get key t.entries) stored
        ∙ (merge-newest a.gossip.store.entries b.gossip.store da).0 key in
      let vb' = subst (λ g. IsTable g.peers) (sym heard) (keeps vb) in
      let db' : Distinct b'.gossip.store.entries =
        subst (λ t. Distinct t.entries) (sym (ap (λ g. g.store) heard ∙ stored))
          (merge-Distinct a.gossip.store.entries b.gossip.store db) in
      let ib' : b'.gossip.include_store ≡ true =
        ap (λ g. g.include_store) heard
        ∙ include-apply now (Gossip.build_digest a.address a.gossip) b.gossip
        ∙ ib in
      let heard' =
        gossip_heard w later j (rumour b') (Gossip.build_digest b'.address b'.gossip) a refl
          new_j in
      let (stored', _, _) = apply-build_digest later b'.address b'.gossip a.gossip vb' ib' in
      ap (λ g. get key g.store.entries) heard'
      ∙ ap (λ t. get key t.entries) stored'
      ∙ (merge-newest b'.gossip.store.entries a.gossip.store db').0 key
      ∙ ap (newest version_of (get key a.gossip.store.entries)) at_b
      ∙ back_and_forth (get key b.gossip.store.entries) (get key a.gossip.store.entries)
          (λ u v p q same. agree key u v p q (ap (λ x. x.ts) same) (ap (λ x. x.origin) same))
      ∙ sym at_b
