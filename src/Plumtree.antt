-- ===== src/Plumtree.antt =====
-- suprime/plumtree.py: the broadcast tree of one node. `K` are the node ids, `M` the message ids
-- and `P` the payloads. The neighbours of the moment and a fresh message id are arguments; the
-- messages that the node sends and the calls of `on_deliver` are lists in the state, in the order
-- in which the program makes them. A set is walked in the order of insertion.
pub mod Links
pub mod Delivery
use suprime.Base.{
  ℕ, ◌+◌, Bool, true, false, ◌||◌, not, Option, none, some, List, [], ◌∷◌, ◌++◌, map, ltb, leb,
  if◌then◌else◌,
}
use suprime.Base.Key.{Eq, ◌==◌}
use suprime.Base.Lists.{length}
use suprime.Base.Dict.{Dict, get, put, del, has, keys}
use suprime.Base.Sets.{member, add, discard, intersect}

pub data Wire (K M P : Type 0) : Type 0 where
  gossip : M → P → Wire K M P
  ihave : List M → Wire K M P
  prune : Wire K M P
  graft : M → Wire K M P

pub record Plumtree (K M P : Type 0) : Type 0 where
  pub graft_timeout : ℕ
  pub cache_cap : ℕ
  pub eager : List K
  pub lazy : List K
  pub received : Dict M P
  pub missing : Dict M ℕ
  pub ihave_from : Dict M (List K)
  pub lazy_queue : List (K × M)
  pub delivered : List (M × P)
  pub sent : List (K × Wire K M P)

unfoldable pub init : {K M P : Type 0} → ℕ → ℕ → Plumtree K M P
init graft_timeout cache_cap = record {
  graft_timeout = graft_timeout;
  cache_cap = cache_cap;
  eager = [];
  lazy = [];
  received = [];
  missing = [];
  ihave_from = [];
  lazy_queue = [];
  delivered = [];
  sent = [];
}

-- `self._ihave_from.get(mid) or []`
abbrev pub or_nobody : {A : Type 0} → Option (List A) → List A
or_nobody none = []
or_nobody (some xs) = xs

-- `self._missing[mid]`, of a key that is there.
abbrev pub rounds : Option ℕ → ℕ
rounds none = 0
rounds (some n) = n

module _ {K M P : Type 0} where
  unfoldable pub deliver : M → P → Plumtree K M P → Plumtree K M P
  deliver mid payload t = record t { delivered = t.delivered ++ (mid, payload) ∷ [] }

  unfoldable pub send : K → Wire K M P → Plumtree K M P → Plumtree K M P
  send peer message t = record t { sent = t.sent ++ (peer, message) ∷ [] }

  unfoldable pub announce : Dict K (List M) → Plumtree K M P → Plumtree K M P
  unfolding send
  announce [] t = t
  announce ((peer, ids) ∷ d) t = announce d (send peer (ihave ids) t)

module _ {K M : Type 0} ⦃k : Eq K⦄ where
  -- The queued announcements by peer, and their sending.
  unfoldable pub by_peer : List (K × M) → Dict K (List M) → Dict K (List M)
  unfolding get put
  by_peer [] d = d
  by_peer ((peer, mid) ∷ queue) d = by_peer queue (put peer (or_nobody (get peer d) ++ mid ∷ []) d)

module _ {M P : Type 0} ⦃m : Eq M⦄ where
  -- `self._received.pop(next(iter(self._received)), None)`
  unfoldable pub evict_oldest : Dict M P → Dict M P
  unfolding del
  evict_oldest [] = []
  evict_oldest ((mid, payload) ∷ d) = del mid ((mid, payload) ∷ d)

module _ {K M P : Type 0} ⦃m : Eq M⦄ where
  unfoldable pub record_message : M → P → Plumtree K M P → Plumtree K M P
  unfolding put evict_oldest
  record_message mid payload t =
      let received = put mid payload t.received in
      record t {
        received = if ltb t.cache_cap (length received) then evict_oldest received else received;
      }

module _ {K : Type 0} ⦃k : Eq K⦄ where
  abbrev pub is_sender : K → Option K → Bool
  is_sender peer none = false
  is_sender peer (some sender) = peer == sender

  -- The new neighbours start eager.
  unfoldable pub welcome : List K → List K → List K → List K
  unfolding member add
  welcome [] eager lazy = eager
  welcome (n ∷ current) eager lazy =
      let known = member n eager || member n lazy in
      welcome current (if known then eager else add n eager) lazy

module _ {K M P : Type 0} ⦃k : Eq K⦄ where
  unfoldable pub eager_push : M → P → Option K → List K → Plumtree K M P → Plumtree K M P
  unfolding send
  eager_push mid payload sender [] t = t
  eager_push mid payload sender (peer ∷ peers) t =
      let skip = eager_push mid payload sender peers t in
      let go = eager_push mid payload sender peers (send peer (gossip mid payload) t) in
      if is_sender peer sender then skip else go

  unfoldable pub lazy_push : M → Option K → List K → Plumtree K M P → Plumtree K M P
  lazy_push mid sender [] t = t
  lazy_push mid sender (peer ∷ peers) t =
      let skip = lazy_push mid sender peers t in
      let go =
        lazy_push mid sender peers (record t { lazy_queue = t.lazy_queue ++ (peer, mid) ∷ [] }) in
      if is_sender peer sender then skip else go

  unfoldable pub sync_neighbors : List K → Plumtree K M P → Plumtree K M P
  unfolding welcome intersect
  sync_neighbors current t = record t {
    eager = intersect (welcome current t.eager t.lazy) current;
    lazy = intersect t.lazy current;
  }

  -- `self.eager.add(src); self.lazy.discard(src)`, and the other way round.
  unfoldable pub make_eager : K → Plumtree K M P → Plumtree K M P
  unfolding add discard
  make_eager src t = record t { eager = add src t.eager; lazy = discard src t.lazy }

  unfoldable pub make_lazy : K → Plumtree K M P → Plumtree K M P
  unfolding add discard
  make_lazy src t = record t { eager = discard src t.eager; lazy = add src t.lazy }

  unfoldable pub on_prune : K → Plumtree K M P → Plumtree K M P
  unfolding make_lazy
  on_prune src t = make_lazy src t

module _ {K M P : Type 0} ⦃k : Eq K⦄ ⦃m : Eq M⦄ where
  -- `mid` is the fresh id.
  unfoldable pub broadcast : List K → M → P → Plumtree K M P → Plumtree K M P
  unfolding sync_neighbors record_message deliver eager_push lazy_push
  broadcast current mid payload t =
      let t₁ = deliver mid payload (record_message mid payload (sync_neighbors current t)) in
      let t₂ = eager_push mid payload none t₁.eager t₁ in lazy_push mid none t₂.lazy t₂

  unfoldable pub on_gossip : M → P → K → Plumtree K M P → Plumtree K M P
  unfolding has del record_message make_eager make_lazy deliver eager_push lazy_push send
  on_gossip mid payload src t =
      let t₁ = record_message mid payload t in
      let t₂ = record t₁ { missing = del mid t₁.missing; ihave_from = del mid t₁.ihave_from } in
      let t₃ = deliver mid payload (make_eager src t₂) in
      let t₄ = eager_push mid payload (some src) t₃.eager t₃ in
      let fresh = lazy_push mid (some src) t₄.lazy t₄ in
      if has mid t.received then send src prune (make_lazy src t) else fresh

  -- One id of an `IHAVE`.
  unfoldable pub hear : K → M → Plumtree K M P → Plumtree K M P
  unfolding has get put member
  hear src mid t =
      let missing = if has mid t.missing then t.missing else put mid 0 t.missing in
      let holders = or_nobody (get mid t.ihave_from) in
      let known = if member src holders then holders else holders ++ src ∷ [] in
      if has mid t.received
      then t
      else record t { missing = missing; ihave_from = put mid known t.ihave_from }

  unfoldable pub on_ihave : List M → K → Plumtree K M P → Plumtree K M P
  unfolding hear
  on_ihave [] src t = t
  on_ihave (mid ∷ ids) src t = on_ihave ids src (hear src mid t)

  abbrev pub reply : K → M → Option P → Plumtree K M P → Plumtree K M P
  reply src mid none t = t
  reply src mid (some payload) t = send src (gossip mid payload) t

  unfoldable pub on_graft : M → K → Plumtree K M P → Plumtree K M P
  unfolding make_eager get
  on_graft mid src t = reply src mid (get mid t.received) (make_eager src t)

  unfoldable pub flush : Plumtree K M P → Plumtree K M P
  unfolding by_peer announce
  flush t = announce (by_peer t.lazy_queue []) (record t { lazy_queue = [] })

  -- A graft of the first candidate, if there is one.
  abbrev pub graft_from : M → List K → Plumtree K M P → Plumtree K M P
  graft_from mid [] t = t
  graft_from mid (peer ∷ candidates) t =
      let t₁ = make_eager peer (record t { ihave_from = put mid candidates t.ihave_from }) in
      send peer (graft mid) (record t₁ { missing = put mid 0 t₁.missing })

  -- One turn of the repair loop.
  unfoldable pub repair : M → Plumtree K M P → Plumtree K M P
  unfolding has get put del make_eager send
  repair mid t =
      let waited = rounds (get mid t.missing) + 1 in
      let t₁ = record t { missing = put mid waited t.missing } in
      let t₂ = graft_from mid (or_nobody (get mid t₁.ihave_from)) t₁ in
      if has mid t.received
      then record t { missing = del mid t.missing }
      else if leb t.graft_timeout waited
      then t₂
      else t₁

  unfoldable pub repair_all : List M → Plumtree K M P → Plumtree K M P
  unfolding repair
  repair_all [] t = t
  repair_all (mid ∷ mids) t = repair_all mids (repair mid t)

  unfoldable pub tick : List K → Plumtree K M P → Plumtree K M P
  unfolding sync_neighbors flush repair_all keys
  tick current t = let t₁ = flush (sync_neighbors current t) in repair_all (keys t₁.missing) t₁
