-- ===== src/Plumtree/Links.antt =====
-- No link is both eager and lazy.
use suprime.Base.{
  ◌≡◌, refl, true, false, ◌||◌, Option, none, some, List, [], ◌∷◌, ◌++◌, arith, leb, Bool-cases,
  ◌+◌, inl, inr, if◌then◌else◌,
}
use suprime.Base.Key.{Eq}
use suprime.Base.Dict.{Dict, get, put, del, has, keys}
use suprime.Base.Sets.{member, add, member-add, member-discard, member-intersect}
use suprime.Plumtree.{
  Plumtree, gossip, ihave, send, deliver, record_message, eager_push, lazy_push, welcome,
  sync_neighbors, make_eager, make_lazy, on_prune, broadcast, on_gossip, hear, on_ihave, reply,
  on_graft, announce, by_peer, flush, graft_from, repair, repair_all, tick, or_nobody, rounds,
}

module _ {K : Type 0} ⦃k : Eq K⦄ where
  abbrev pub AreApart : List K → List K → Type 0
  AreApart eager lazy = (x : K) → member x eager ≡ true → member x lazy ≡ false

  welcome-AreApart :
      (current eager lazy : List K)
      → AreApart eager lazy
      → AreApart (welcome current eager lazy) lazy
  unfolding welcome
  welcome-AreApart [] eager lazy h = h
  welcome-AreApart (n ∷ current) eager lazy h =
      welcome-AreApart current (if member n eager || member n lazy then eager else add n eager) lazy
        (λ x at. ground (arith, h x, at, member-add n x eager, k.beq_iff n x))

module _ {K M P : Type 0} ⦃k : Eq K⦄ where
  abbrev pub HasLinks : Plumtree K M P → Type 0
  HasLinks t = AreApart t.eager t.lazy

  -- The links of two states are the same.
  abbrev SameLinks : Plumtree K M P → Plumtree K M P → Type 0
  SameLinks t u = (t.eager ≡ u.eager) × (t.lazy ≡ u.lazy)

  links-eager_push :
      (mid : M) (payload : P) (sender : Option K) (peers : List K) (t : Plumtree K M P)
      → SameLinks (eager_push mid payload sender peers t) t
  unfolding eager_push send
  links-eager_push mid payload sender [] t = (refl, refl)
  links-eager_push mid payload sender (peer ∷ peers) t =
      let skip = links-eager_push mid payload sender peers t in
      let go = links-eager_push mid payload sender peers (send peer (gossip mid payload) t) in
      (ground (arith, skip.0, go.0), ground (arith, skip.1, go.1))

  links-lazy_push :
      (mid : M) (sender : Option K) (peers : List K) (t : Plumtree K M P)
      → SameLinks (lazy_push mid sender peers t) t
  unfolding lazy_push
  links-lazy_push mid sender [] t = (refl, refl)
  links-lazy_push mid sender (peer ∷ peers) t =
      let skip = links-lazy_push mid sender peers t in
      let go =
        links-lazy_push mid sender peers
          (record t { lazy_queue = t.lazy_queue ++ (peer, mid) ∷ [] }) in
      (ground (arith, skip.0, go.0), ground (arith, skip.1, go.1))

  HasLinks-make_eager : (src : K) (t : Plumtree K M P) → HasLinks t → HasLinks (make_eager src t)
  unfolding make_eager
  HasLinks-make_eager src t h x at =
      ground (arith, h x, at, member-add src x t.eager, member-discard src x t.lazy)

  HasLinks-make_lazy : (src : K) (t : Plumtree K M P) → HasLinks t → HasLinks (make_lazy src t)
  unfolding make_lazy
  HasLinks-make_lazy src t h x at =
      ground (arith, h x, at, member-discard src x t.eager, member-add src x t.lazy)

  sync-HasLinks :
      (current : List K) (t : Plumtree K M P) → HasLinks t → HasLinks (sync_neighbors current t)
  unfolding sync_neighbors
  sync-HasLinks current t h x at = ground (
    arith,
    at,
    welcome-AreApart current t.eager t.lazy h x,
    member-intersect x (welcome current t.eager t.lazy) current,
    member-intersect x t.lazy current,
  )

  links-announce : (d : Dict K (List M)) (t : Plumtree K M P) → SameLinks (announce d t) t
  unfolding announce send
  links-announce [] t = (refl, refl)
  links-announce ((peer, ids) ∷ d) t = links-announce d (send peer (ihave ids) t)

  moved : (t u : Plumtree K M P) → SameLinks t u → HasLinks u → HasLinks t
  moved t u same h x at = ground (arith, same.0, same.1, h x, at)

module _ {K M P : Type 0} ⦃k : Eq K⦄ ⦃m : Eq M⦄ where
  record_message-HasLinks :
      (mid : M) (payload : P) (t : Plumtree K M P)
      → HasLinks t
      → HasLinks (record_message mid payload t)
  unfolding record_message
  record_message-HasLinks mid payload t h = h

  pushed-HasLinks :
      (mid : M) (payload : P) (sender : Option K) (t : Plumtree K M P)
      → HasLinks t
      → HasLinks (
          lazy_push mid sender
            (eager_push mid payload sender t.eager t).lazy
            (eager_push mid payload sender t.eager t))
  pushed-HasLinks mid payload sender t h =
      let u = eager_push mid payload sender t.eager t in
      moved (lazy_push mid sender u.lazy u) u (links-lazy_push mid sender u.lazy u)
        (moved u t (links-eager_push mid payload sender t.eager t) h)

  broadcast-HasLinks :
      (current : List K) (mid : M) (payload : P) (t : Plumtree K M P)
      → HasLinks t
      → HasLinks (broadcast current mid payload t)
  unfolding broadcast deliver record_message
  broadcast-HasLinks current mid payload t h =
      pushed-HasLinks mid payload none
        (deliver mid payload (record_message mid payload (sync_neighbors current t)))
        (sync-HasLinks current t h)

  on_gossip-HasLinks :
      (mid : M) (payload : P) (src : K) (t : Plumtree K M P)
      → HasLinks t
      → HasLinks (on_gossip mid payload src t)
  unfolding on_gossip deliver record_message send
  on_gossip-HasLinks mid payload src t h = elim (Bool-cases (has mid t.received)) [
    | inl old ↦ rw old (HasLinks-make_lazy src t h)
    | inr new ↦ rw new (
        let t₁ = record_message mid payload t in
        let t₂ = record t₁ { missing = del mid t₁.missing; ihave_from = del mid t₁.ihave_from } in
        pushed-HasLinks mid payload (some src) (deliver mid payload (make_eager src t₂))
          (HasLinks-make_eager src t₂ h))
  ]

  links-hear : (src : K) (mid : M) (t : Plumtree K M P) → SameLinks (hear src mid t) t
  unfolding hear
  links-hear src mid t = (ground arith, ground arith)

  on_ihave-HasLinks :
      (ids : List M) (src : K) (t : Plumtree K M P) → HasLinks t → HasLinks (on_ihave ids src t)
  unfolding on_ihave
  on_ihave-HasLinks [] src t h = h
  on_ihave-HasLinks (mid ∷ ids) src t h =
      on_ihave-HasLinks ids src (hear src mid t) (moved (hear src mid t) t (links-hear src mid t) h)

  reply-HasLinks :
      (src : K) (mid : M) (o : Option P) (t : Plumtree K M P)
      → HasLinks t
      → HasLinks (reply src mid o t)
  unfolding send
  reply-HasLinks src mid none t h = h
  reply-HasLinks src mid (some payload) t h = h

  graft_from-HasLinks :
      (mid : M) (candidates : List K) (t : Plumtree K M P)
      → HasLinks t
      → HasLinks (graft_from mid candidates t)
  unfolding send
  graft_from-HasLinks mid [] t h = h
  graft_from-HasLinks mid (peer ∷ candidates) t h =
      HasLinks-make_eager peer (record t { ihave_from = put mid candidates t.ihave_from }) h

  repair-HasLinks : (mid : M) (t : Plumtree K M P) → HasLinks t → HasLinks (repair mid t)
  unfolding repair
  repair-HasLinks mid t h =
      let waited = rounds (get mid t.missing) + 1 in
      let t₁ = record t { missing = put mid waited t.missing } in
      let grafted = graft_from-HasLinks mid (or_nobody (get mid t₁.ihave_from)) t₁ h in
      elim (Bool-cases (has mid t.received)) [
        | inl old ↦ rw old h
        | inr new ↦ rw new (elim (Bool-cases (leb t.graft_timeout waited)) [
          | inl late ↦ rw late grafted
          | inr early ↦ rw early h
        ])
      ]

  repair_all-HasLinks :
      (mids : List M) (t : Plumtree K M P) → HasLinks t → HasLinks (repair_all mids t)
  unfolding repair_all
  repair_all-HasLinks [] t h = h
  repair_all-HasLinks (mid ∷ mids) t h =
      repair_all-HasLinks mids (repair mid t) (repair-HasLinks mid t h)

  tick-HasLinks : (current : List K) (t : Plumtree K M P) → HasLinks t → HasLinks (tick current t)
  unfolding tick flush
  tick-HasLinks current t h =
      let s = sync_neighbors current t in
      let u = flush s in
      repair_all-HasLinks (keys u.missing) u (
        moved u s (links-announce (by_peer s.lazy_queue []) (record s { lazy_queue = [] }))
          (sync-HasLinks current t h))

  -- Every step of a node keeps its eager and its lazy links apart.
  pub steps-HasLinks :
      (current : List K) (mid : M) (payload : P) (ids : List M) (src : K) (t : Plumtree K M P)
      → HasLinks t
      → HasLinks (broadcast current mid payload t)
        × HasLinks (on_gossip mid payload src t)
        × HasLinks (on_prune src t)
        × HasLinks (on_ihave ids src t)
        × HasLinks (on_graft mid src t)
        × HasLinks (tick current t)
  unfolding on_prune on_graft
  steps-HasLinks current mid payload ids src t h = (
    broadcast-HasLinks current mid payload t h,
    on_gossip-HasLinks mid payload src t h,
    HasLinks-make_lazy src t h,
    on_ihave-HasLinks ids src t h,
    reply-HasLinks src mid (get mid t.received) (make_eager src t) (HasLinks-make_eager src t h),
    tick-HasLinks current t h,
  )
