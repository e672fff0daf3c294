-- ===== src/Peers/Table.antt =====
-- The invariant of a `PeerTable`, which every operation keeps.
use suprime.Base.{
  ℕ, ◌≡◌, ◌≢◌, inl, inr, refl, Bool, false, none, some, List, [], ◌∷◌, arith, ltb, Bool-cases,
  Option-cases,
}
use suprime.Base.Key.{Eq, ◌==◌}
use suprime.Base.Result.{Result, ok, raise}
use suprime.Base.Dict.{Dict, Distinct, get, put, del, get-put, get-del, put-Distinct, del-Distinct}
use suprime.Peers.{
  init, apply_entry, suspect, dead, Peer, PeerTable, Descriptor, tick_peer, tick_loop, tick, merge,
  observe, introduce, refresh, evict, apply_from, apply_digest, read_entry,
}
use suprime.Peers.Tick.{IsKeyed, classify, get-tick}

module _ {K A : Type 0} ⦃e : Eq K⦄ where
  -- One entry for each peer, under its own id; never the node itself, and never a dead one.
  pub record IsTable (t : PeerTable K A) : Type 0 where
    pub distinct : Distinct t.peers
    pub keyed : IsKeyed t.peers
    pub no_self : get t.self_id t.peers ≡ none
    pub no_dead : (k : K) (p : Peer K A) → get k t.peers ≡ some p → p.state ≢ dead

  pub get-IsKeyed :
      (k : K) (d : Dict K (Peer K A)) (p : Peer K A) → IsKeyed d → get k d ≡ some p → p.node_id ≡ k
  unfolding get
  get-IsKeyed k [] p h at = cc
  get-IsKeyed k ((j, q) ∷ d) p h at = ground (arith, get-IsKeyed k d p h.1, e.beq_iff j k)

  put-IsKeyed :
      (k : K) (p : Peer K A) (d : Dict K (Peer K A))
      → p.node_id ≡ k
      → IsKeyed d
      → IsKeyed (put k p d)
  unfolding put
  put-IsKeyed k p [] h hd = (h, tt)
  put-IsKeyed k p ((j, q) ∷ d) h hd = ground (arith, put-IsKeyed k p d h hd.1, e.beq_iff j k)

  del-IsKeyed : (k : K) (d : Dict K (Peer K A)) → IsKeyed d → IsKeyed (del k d)
  unfolding del
  del-IsKeyed k [] h = tt
  del-IsKeyed k ((j, q) ∷ d) h = ground (arith, del-IsKeyed k d h.1)

  -- A live entry under its own id keeps the invariant.
  put-IsTable :
      (k : K) (p : Peer K A) (t : PeerTable K A)
      → p.node_id ≡ k
      → (k == t.self_id) ≡ false
      → p.state ≢ dead
      → IsTable t
      → IsTable (record t { peers = put k p t.peers })
  put-IsTable k p t keyed other live h = record {
    distinct = put-Distinct k p t.peers h.distinct;
    keyed = put-IsKeyed k p t.peers keyed h.keyed;
    no_self = ground (arith, get-put k t.self_id p t.peers, h.no_self);
    no_dead = λ j q at. ground (arith, get-put k j p t.peers, h.no_dead j q);
  }

  not_self :
      (k : K) (p : Peer K A) (t : PeerTable K A)
      → IsTable t
      → get k t.peers ≡ some p
      → (k == t.self_id) ≡ false
  not_self k p t h at = ground (arith, e.beq_iff k t.self_id, h.no_self)

  merge-IsTable :
      (node_id : K) (address : A) (heartbeat now : ℕ) (t : PeerTable K A)
      → IsTable t
      → IsTable (merge node_id address heartbeat now t).0
  unfolding merge observe introduce
  merge-IsTable node_id address heartbeat now t h = elim (Bool-cases (node_id == t.self_id)) [
    | inl own ↦ rw own h
    | inr other ↦ elim (Option-cases (get node_id t.peers)) [
      | inl new ↦ rw (other, new) (put-IsTable node_id _ t refl other (λ b. cc) h)
      | inr (p, at) ↦
          rw (other, at)
            (elim (Bool-cases (ltb p.heartbeat heartbeat)) [
              | inl newer ↦ rw newer (
                  put-IsTable node_id _ t (get-IsKeyed node_id t.peers p h.keyed at) other (λ b. cc)
                    h)
              | inr older ↦ rw older h
            ])
    ]
  ]

  refresh-IsTable :
      (node_id : K) (now : ℕ) (t : PeerTable K A) → IsTable t → IsTable (refresh node_id now t).0
  unfolding refresh
  refresh-IsTable node_id now t h = elim (Option-cases (get node_id t.peers)) [
    | inl gone ↦ rw (gone, refresh) h
    | inr (p, at) ↦
        rw (at, refresh)
          (put-IsTable node_id _ t (get-IsKeyed node_id t.peers p h.keyed at)
            (not_self node_id p t h at) (λ b. cc) h)
  ]

  evict-IsTable : (node_id : K) (t : PeerTable K A) → IsTable t → IsTable (evict node_id t)
  unfolding evict
  evict-IsTable node_id t h = record {
    distinct = del-Distinct node_id t.peers h.distinct;
    keyed = del-IsKeyed node_id t.peers h.keyed;
    no_self = ground (arith, get-del node_id t.self_id t.peers, h.no_self);
    no_dead = λ j q at. ground (arith, get-del node_id j t.peers, h.no_dead j q);
  }

  tick_loop_shape :
      (sa da now : ℕ) (snapshot d : Dict K (Peer K A))
      → IsKeyed snapshot
      → Distinct d
      → IsKeyed d
      → Distinct (tick_loop sa da now snapshot d) × IsKeyed (tick_loop sa da now snapshot d)
  unfolding tick_loop tick_peer
  tick_loop_shape sa da now [] d hs hd hk = (hd, hk)
  tick_loop_shape sa da now ((key, p) ∷ snapshot) d hs hd hk =
      let q : Peer K A = record p { state = suspect } in
      let r : Peer K A = record p { state = dead } in
      let marked = put key r d in
      tick_loop_shape sa da now snapshot (tick_peer sa da now key p d) hs.1
        (ground
          (arith, put-Distinct key q d hd, del-Distinct p.node_id marked (put-Distinct key r d hd)))
        (ground (
          arith,
          put-IsKeyed key q d hs.0 hk,
          del-IsKeyed p.node_id marked (put-IsKeyed key r d hs.0 hk),
        ))

  self_id-tick : (now : ℕ) (t : PeerTable K A) → (tick now t).self_id ≡ t.self_id
  unfolding tick
  self_id-tick now t = refl

  tick-IsTable : (now : ℕ) (t : PeerTable K A) → IsTable t → IsTable (tick now t)
  unfolding classify
  tick-IsTable now t h =
      let shape =
        tick_loop_shape t.suspect_after t.dead_after now t.peers t.peers h.keyed h.distinct
          h.keyed in
      record {
        distinct = unfold tick in shape.0;
        keyed = unfold tick in shape.1;
        no_self =
            ground
              (arith, self_id-tick now t, get-tick now t t.self_id h.distinct h.keyed, h.no_self);
        no_dead = λ k p at. ground (arith, get-tick now t k h.distinct h.keyed, h.no_dead k p);
      }

  apply_entry-IsTable :
      (now : ℕ) (s : PeerTable K A × Result Bool) (r : Result (K × A × ℕ))
      → IsTable s.0
      → IsTable (apply_entry now s r).0
  apply_entry-IsTable now (t, raise err) r h = h
  apply_entry-IsTable now (t, ok c) (raise err) h = h
  apply_entry-IsTable now (t, ok c) (ok (node_id, address, heartbeat)) h =
      merge-IsTable node_id address heartbeat now t h

  apply_from-IsTable :
      (now : ℕ) (entries : List (Descriptor K A)) (s : PeerTable K A × Result Bool)
      → IsTable s.0
      → IsTable (apply_from now s entries).0
  unfolding apply_from
  apply_from-IsTable now [] s h = h
  apply_from-IsTable now (d ∷ entries) s h =
      apply_from-IsTable now entries (apply_entry now s (read_entry d))
        (apply_entry-IsTable now s (read_entry d) h)

  -- Every operation of a peer table keeps the invariant: distinct keys, each peer under its own
  -- id, no entry for the node itself, no entry marked dead; a digest that raises midway keeps it
  -- too.
  pub operations-IsTable :
      (node_id : K) (address : A) (heartbeat now : ℕ) (entries : List (Descriptor K A))
      (t : PeerTable K A)
      → IsTable t
      → IsTable (merge node_id address heartbeat now t).0
        × IsTable (refresh node_id now t).0
        × IsTable (evict node_id t)
        × IsTable (tick now t)
        × IsTable (apply_digest now entries t).0
  unfolding apply_digest
  operations-IsTable node_id address heartbeat now entries t h = (
    merge-IsTable node_id address heartbeat now t h,
    refresh-IsTable node_id now t h,
    evict-IsTable node_id t h,
    tick-IsTable now t h,
    apply_from-IsTable now entries (t, ok false) h,
  )

  pub init-IsTable : (self_id : K) (sa da : ℕ) → IsTable (init {A = A} self_id sa da)
  unfolding init get
  init-IsTable self_id sa da = record {
    distinct = tt;
    keyed = tt;
    no_self = refl;
    no_dead = λ k p at. cc;
  }
