-- ===== src/Replicate.antt =====
-- suprime/replicate.py: named CRDTs that are sent where they changed. `R` are the CRDTs, `D` their
-- digests and `F` the texts of digests; a record gives their operations. `H` are the callbacks,
-- whose calls are a field, as are the messages sent through the node, both in order.
pub mod Quiet
use Prim.Native.String.{String}
use suprime.Base.{
  ℕ, ◌+◌, ◌%◌, Bool, true, false, ◌||◌, not, Option, none, some, List, [], ◌∷◌, ◌++◌, leb, nat_beq,
  if◌then◌else◌,
}
use suprime.Base.Key.{Eq, ◌==◌, string_eq}
use suprime.Base.Lists.{length}
use suprime.Base.Dict.{Dict, get, put}

pub record Crdt (R D F : Type 0) : Type 0 where
  pub digest : R → D
  pub apply_digest : D → R → R × Bool
  pub repr : D → F

pub record CrdtReplicator (K R D F H : Type 0) : Type 0 where
  pub fanout : ℕ
  pub crdts : Dict String R
  pub on_change : Dict String H
  pub last_sent : Dict String F
  pub full_sync_every : ℕ
  pub ticks : ℕ
  pub syncs_sent : ℕ
  pub syncs_received : ℕ
  pub sent : List (K × Dict String D)
  pub calls : List (H × String)

abbrev pub is_empty : {A : Type 0} → List A → Bool
is_empty [] = true
is_empty (x ∷ xs) = false

abbrev pub with_callback : {H : Type 0} → String → Option H → Dict String H → Dict String H
with_callback name none callbacks = callbacks
with_callback name (some callback) callbacks = put name callback callbacks

module _ {K R D F H : Type 0} where
  unfoldable pub init : ℕ → ℕ → CrdtReplicator K R D F H
  init fanout full_sync_every = record {
    fanout = fanout;
    crdts = [];
    on_change = [];
    last_sent = [];
    full_sync_every = full_sync_every;
    ticks = 0;
    syncs_sent = 0;
    syncs_received = 0;
    sent = [];
    calls = [];
  }

  unfoldable pub register :
      String → R → Option H → CrdtReplicator K R D F H → CrdtReplicator K R D F H
  unfolding put
  register name crdt callback s = record s {
    crdts = put name crdt s.crdts;
    on_change = with_callback name callback s.on_change;
  }

  unfoldable pub lookup : String → CrdtReplicator K R D F H → Option R
  unfolding get
  lookup name s = get name s.crdts

module _ {F : Type 0} ⦃f : Eq F⦄ where
  -- `self._last_sent.get(name) != fingerprint`
  abbrev pub is_news : F → Option F → Bool
  is_news fingerprint none = true
  is_news fingerprint (some old) = not (old == fingerprint)

module _ {R D F : Type 0} ⦃f : Eq F⦄ (c : Crdt R D F) where
  -- The payload of a round, and the fingerprints it leaves.
  unfoldable pub collect :
      Bool → Dict String R → Dict String D → Dict String F → Dict String D × Dict String F
  unfolding get put
  collect full [] payload last = (payload, last)
  collect full ((name, crdt) ∷ crdts) payload last =
      let digest = c.digest crdt in
      let fingerprint = c.repr digest in
      let quiet = collect full crdts payload last in
      let news = collect full crdts (put name digest payload) (put name fingerprint last) in
      if full || is_news fingerprint (get name last) then news else quiet

module _ {K R D F H : Type 0} where
  unfoldable pub send_all :
      List K → Dict String D → CrdtReplicator K R D F H → CrdtReplicator K R D F H
  send_all [] payload s = s
  send_all (target ∷ targets) payload s =
      send_all targets payload
        (record s { sent = s.sent ++ (target, payload) ∷ []; syncs_sent = s.syncs_sent + 1 })

module _ {K R D F H : Type 0} ⦃f : Eq F⦄ (c : Crdt R D F) (sample : List K → ℕ → List K) where
  -- A round that has counted itself, over what it collected.
  abbrev pub ship :
      List K → Dict String D × Dict String F → CrdtReplicator K R D F H → CrdtReplicator K R D F H
  ship alive (payload, last) s =
      let s' = record s { last_sent = last } in
      let targets = if leb (length alive) s.fanout then alive else sample alive s.fanout in
      let shipped = send_all targets payload s' in if is_empty payload then s' else shipped

  -- The flag is false where the rounds between full ones are zero, and the remainder raises.
  unfoldable pub tick : List K → CrdtReplicator K R D F H → CrdtReplicator K R D F H × Bool
  unfolding collect send_all
  tick alive s =
      let s' = record s { ticks = s.ticks + 1 } in
      let full = nat_beq (s'.ticks % s.full_sync_every) 0 in
      let shipped = ship alive (collect c full s.crdts [] s.last_sent) s' in
      if is_empty s.crdts
      then (s, true)
      else if is_empty alive
      then (s, true)
      else if nat_beq s.full_sync_every 0
      then (s', false)
      else (shipped, true)

  abbrev pub notified :
      String → Option H → R × Bool → CrdtReplicator K R D F H → CrdtReplicator K R D F H
  notified name none (crdt, changed) s = record s { crdts = put name crdt s.crdts }
  notified name (some callback) (crdt, changed) s =
      let s' = record s { crdts = put name crdt s.crdts } in
      if changed then record s' { calls = s.calls ++ (callback, name) ∷ [] } else s'

  abbrev pub apply_one : String → D → Option R → CrdtReplicator K R D F H → CrdtReplicator K R D F H
  apply_one name digest none s = s
  apply_one name digest (some crdt) s =
      notified name (get name s.on_change) (c.apply_digest digest crdt) s

  unfoldable pub apply_all : Dict String D → CrdtReplicator K R D F H → CrdtReplicator K R D F H
  unfolding get put
  apply_all [] s = s
  apply_all ((name, digest) ∷ payload) s =
      apply_all payload (apply_one name digest (get name s.crdts) s)

  unfoldable pub on_sync : Dict String D → CrdtReplicator K R D F H → CrdtReplicator K R D F H
  unfolding apply_all
  on_sync payload s = apply_all payload (record s { syncs_received = s.syncs_received + 1 })
