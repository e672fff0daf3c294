-- ===== src/Peers.antt =====
-- suprime/peers.py: the membership table and its failure detector. Times are whole microseconds of
-- a monotonic clock, read by the caller (`now`); `now - last_update >= d` is written without the
-- subtraction.
pub mod Tick
pub mod Table
pub mod Heartbeat
use suprime.Base.{
  ℕ, ◌+◌, Bool, true, false, ◌&&◌, Option, none, some, List, [], ◌∷◌, ◌++◌, map, ltb, leb,
  if◌then◌else◌,
}
use suprime.Base.Key.{Eq, ◌==◌}
use suprime.Base.Result.{Result, ok, raise, key_error, ◌>>=◌}
use suprime.Base.Lists.{length}
use suprime.Base.Dict.{Dict, get, put, del, has, keys, values}

pub data PeerState : Type 0 where
  alive suspect dead : PeerState

-- `K` are the node ids and `A` the addresses.
pub record Peer (K A : Type 0) : Type 0 where
  pub node_id : K
  pub address : A
  pub heartbeat : ℕ
  pub state : PeerState
  pub last_update : ℕ

pub record PeerTable (K A : Type 0) : Type 0 where
  pub self_id : K
  pub suspect_after : ℕ
  pub dead_after : ℕ
  pub peers : Dict K (Peer K A)

unfoldable pub init : {K A : Type 0} → K → ℕ → ℕ → PeerTable K A
init self_id suspect_after dead_after = record {
  self_id = self_id;
  suspect_after = suspect_after;
  dead_after = dead_after;
  peers = [];
}

-- `to_dict`, of which a sender may leave a field out.
pub record Descriptor (K A : Type 0) : Type 0 where
  pub node_id : Option K
  pub address : Option A
  pub heartbeat : Option ℕ

abbrev pub is_alive : PeerState → Bool
is_alive alive = true
is_alive suspect = false
is_alive dead = false

-- `entry[name]`
abbrev pub required {ℓ} : {A : Type ℓ} → Option A → Result A
required none = raise key_error
required (some a) = ok a

module _ {K A : Type 0} where
  unfoldable pub to_dict : Peer K A → Descriptor K A
  to_dict p = record {
    node_id = some p.node_id;
    address = some p.address;
    heartbeat = some p.heartbeat;
  }

  abbrev live_of : List (Peer K A) → List (Peer K A)
  live_of [] = []
  live_of (p ∷ ps) = let rest = live_of ps in if is_alive p.state then p ∷ rest else rest

  unfoldable pub all : PeerTable K A → List (Peer K A)
  unfolding values
  all t = values t.peers

  unfoldable pub alive_peers : PeerTable K A → List (Peer K A)
  unfolding values
  alive_peers t = live_of (values t.peers)

  unfoldable pub addresses : PeerTable K A → List A
  unfolding values
  addresses t = map (λ p. p.address) (values t.peers)

  unfoldable pub digest : PeerTable K A → List (Descriptor K A)
  unfolding values to_dict
  digest t = map to_dict (values t.peers)

  unfoldable pub known_ids : Bool → PeerTable K A → List K
  unfolding keys
  known_ids include_self t = if include_self then keys t.peers ++ t.self_id ∷ [] else keys t.peers

  unfoldable pub size : PeerTable K A → ℕ
  size t = length t.peers

  -- `silence >= self._dead_after`, `silence >= self._suspect_after`
  unfoldable pub silent_for : ℕ → ℕ → Peer K A → Bool
  silent_for limit now p = leb (p.last_update + limit) now

module _ {K A : Type 0} ⦃e : Eq K⦄ where
  unfoldable pub lookup : K → PeerTable K A → Option (Peer K A)
  unfolding get
  lookup node_id t = get node_id t.peers

  unfoldable pub contains : K → PeerTable K A → Bool
  unfolding has
  contains node_id t = has node_id t.peers

  -- A heartbeat for a peer that is there.
  unfoldable pub observe : K → A → ℕ → ℕ → Peer K A → PeerTable K A → PeerTable K A × Bool
  unfolding put
  observe node_id address heartbeat now existing t =
      if ltb existing.heartbeat heartbeat
      then (
        record t {
          peers =
              put node_id
                (record existing {
                  heartbeat = heartbeat;
                  address = address;
                  last_update = now;
                  state = alive;
                })
                t.peers;
        },
        true,
      )
      else (t, false)

  unfoldable pub introduce : K → A → ℕ → ℕ → PeerTable K A → PeerTable K A × Bool
  unfolding put
  introduce node_id address heartbeat now t = (
    record t {
      peers =
          put node_id
            (record {
              node_id = node_id;
              address = address;
              heartbeat = heartbeat;
              state = alive;
              last_update = now;
            })
            t.peers;
    },
    true,
  )

  unfoldable pub merge : K → A → ℕ → ℕ → PeerTable K A → PeerTable K A × Bool
  unfolding observe introduce get
  merge node_id address heartbeat now t =
      if node_id == t.self_id then (t, false) else elim (get node_id t.peers) [
        | none ↦ introduce node_id address heartbeat now t
        | some existing ↦ observe node_id address heartbeat now existing t
      ]

  -- A direct sign of life, such as an ACK.
  unfoldable pub refresh : K → ℕ → PeerTable K A → PeerTable K A × Bool
  unfolding get put
  refresh node_id now t = elim (get node_id t.peers) [
    | none ↦ (t, false)
    | some peer ↦ (
      record t { peers = put node_id (record peer { last_update = now; state = alive }) t.peers },
      true,
    )
  ]

  unfoldable pub evict : K → PeerTable K A → PeerTable K A
  unfolding del
  evict node_id t = record t { peers = del node_id t.peers }

  -- One turn of `tick` at the peer under `key`, which is marked dead before it is dropped.
  unfoldable pub tick_peer : ℕ → ℕ → ℕ → K → Peer K A → Dict K (Peer K A) → Dict K (Peer K A)
  unfolding silent_for del put
  tick_peer suspect_after dead_after now key p d =
      if silent_for dead_after now p
      then del p.node_id (put key (record p { state = dead }) d)
      else if silent_for suspect_after now p
      then put key (record p { state = suspect }) d
      else d

  unfoldable pub tick_loop : ℕ → ℕ → ℕ → Dict K (Peer K A) → Dict K (Peer K A) → Dict K (Peer K A)
  unfolding tick_peer
  tick_loop suspect_after dead_after now [] d = d
  tick_loop suspect_after dead_after now ((key, p) ∷ snapshot) d =
      tick_loop suspect_after dead_after now snapshot
        (tick_peer suspect_after dead_after now key p d)

  unfoldable pub tick : ℕ → PeerTable K A → PeerTable K A
  unfolding tick_loop
  tick now t = record t { peers = tick_loop t.suspect_after t.dead_after now t.peers t.peers }

  -- One turn of the loop of `apply_digest`; after an exception no entry is read.
  abbrev pub apply_entry :
      ℕ → PeerTable K A × Result Bool → Result (K × A × ℕ) → PeerTable K A × Result Bool
  apply_entry now (t, raise err) r = (t, raise err)
  apply_entry now (t, ok changed) (raise err) = (t, raise err)
  apply_entry now (t, ok changed) (ok (node_id, address, heartbeat)) =
      let (t', now_changed) = merge node_id address heartbeat now t in
      (t', ok (if now_changed then true else changed))

  abbrev pub read_entry : Descriptor K A → Result (K × A × ℕ)
  read_entry d = required d.node_id >>= λ node_id. required d.address >>= λ address.
      required d.heartbeat >>= λ heartbeat. ok (node_id, address, heartbeat)

  -- The clock is read at each entry; one reading `now` stands for them.
  unfoldable pub apply_from :
      ℕ → PeerTable K A × Result Bool → List (Descriptor K A) → PeerTable K A × Result Bool
  apply_from now s [] = s
  apply_from now s (d ∷ entries) = apply_from now (apply_entry now s (read_entry d)) entries

  unfoldable pub apply_digest :
      ℕ → List (Descriptor K A) → PeerTable K A → PeerTable K A × Result Bool
  unfolding apply_from
  apply_digest now entries t = apply_from now (t, ok false) entries
