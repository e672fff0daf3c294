-- ===== src/Kv/Quorum.antt =====
-- Quorum writes and reads. A call starts, with the live peers and a fresh request id, answers arrive,
-- and the call finishes when its future is set or at the timeout. What is sent through the node is
-- the field `sent`, in order.
use Prim.Native.String.{String, ◌++◌ as ◌<>◌}
use suprime.Base.{
  ℕ, zero, suc, ◌+◌, ◌-◌, min, Bool, true, false, Option, none, some, List, [], ◌∷◌, ◌++◌, leb,
  nat_beq, if◌then◌else◌,
}
use suprime.Base.Key.{string_eq, string_order}
use suprime.Base.Lists.{length}
use suprime.Base.Result.{Result, ok, raise, ◌>>=◌}
use suprime.Base.Dict.{Dict, get as get_key, put as put_key, del}
use suprime.Version.{gt}
use suprime.Store.Entries.{Entry}
use suprime.Store
use suprime.Store.{Store}
use suprime.Store.Wire.{Sent, to_dict, from_dict}
use suprime.Kv.{Item, KvStore, reindex, set_expiry}

pub data KvMessage (X : Type 0) : Type 0 where
  read_req : String → String → KvMessage X
  read_resp : String → Option (Sent String (Item X)) → KvMessage X
  write_req : String → String → Sent String (Item X) → KvMessage X
  write_resp : String → KvMessage X

abbrev pub Collected : Type 0 → Type 0
Collected X = List (String × Option (Sent String (Item X)))

-- A call that waits: how many answers it needs, whether its future is set, and its answers.
pub data Pending (X : Type 0) : Type 0 where
  writing : ℕ → ℕ → Bool → Pending X
  reading : Collected X → ℕ → Bool → Pending X

pub record Replica (X C E : Type 0) : Type 0 where
  pub node_id : String
  pub db : KvStore X C E
  pub pending : Dict String (Pending X)
  pub sent : List (String × KvMessage X)

-- `peers[:n]`, and one message to each.
abbrev pub send_first :
    {X : Type 0}
    → ℕ
    → List String
    → KvMessage X
    → List (String × KvMessage X)
    → List (String × KvMessage X)
send_first zero peers m sent = sent
send_first (suc n) [] m sent = sent
send_first (suc n) (peer ∷ peers) m sent = send_first n peers m (sent ++ (peer, m) ∷ [])

abbrev pub is_nobody : List String → Bool
is_nobody [] = true
is_nobody (peer ∷ peers) = false

abbrev pub entry_sent :
    {X : Type 0} → Option (Entry String (Item X)) → Option (Sent String (Item X))
entry_sent none = none
entry_sent (some a) = some (to_dict a)

abbrev pub expiry_if : {X C E : Type 0} → ℕ → String → Option ℕ → KvStore X C E → KvStore X C E
expiry_if now key none d = d
expiry_if now key (some span) d = set_expiry now key span d

module _ {X C E : Type 0} (extract : E → Option (Item X) → String) where
  -- The write at the node itself, with the entry that is sent.
  unfoldable pub write_here :
      ℕ
      → String
      → Option (Item X)
      → Option ℕ
      → KvStore X C E
      → Entry String (Item X) × KvStore X C E
  unfolding Store.read Store.set reindex
  write_here now key value span d =
      let old = Store.read (d.ns <> key) none d.store in
      let d' = reindex extract now key old value d.indexes d in
      let (entry, store) = Store.set (d.ns <> key) value now d'.store in
      (entry, expiry_if now key span (record d' { store = store }))

  -- The acknowledgements, where nobody is asked.
  unfoldable pub quorum_put :
      ℕ
      → String
      → Option (Item X)
      → ℕ
      → Option ℕ
      → String
      → List String
      → Replica X C E
      → Replica X C E × Option ℕ
  unfolding write_here to_dict put_key
  quorum_put now key value w span req_id peers r =
      let (entry, db) = write_here now key value span r.db in
      let need = min (w - 1) (length peers) in
      let r' = record r { db = db } in
      if nat_beq (w - 1) 0 then (r', some 1) else if is_nobody peers then (r', some 1) else (
        record r' {
          pending = put_key req_id (writing 0 need false) r.pending;
          sent = send_first need peers (write_req req_id (r.db.ns <> key) (to_dict entry)) r.sent;
        },
        none,
      )

-- `self._pending.pop(req_id, {}).get("acks", 0)`
abbrev pub acks_of : {X : Type 0} → Option (Pending X) → ℕ
acks_of none = 0
acks_of (some (writing acks need is_done)) = acks
acks_of (some (reading responses need is_done)) = 0

-- The newest entry of those collected.
abbrev pub newer_of :
    {X : Type 0}
    → Option (Entry String (Item X))
    → Entry String (Item X)
    → Option (Entry String (Item X))
newer_of none a = some a
newer_of (some best) a = if gt a.version best.version then some a else some best

unfoldable pub pick_best :
    {X : Type 0}
    → Option (Entry String (Item X))
    → Collected X
    → Result (Option (Entry String (Item X)))
unfolding from_dict
pick_best best [] = ok best
pick_best best ((peer, none) ∷ collected) = pick_best best collected
pick_best best ((peer, some sent) ∷ collected) =
    from_dict sent >>= λ a. pick_best (newer_of best a) collected

module _ {X C E : Type 0} where
  unfoldable pub finish_put : String → Replica X C E → Replica X C E × ℕ
  unfolding get_key del
  finish_put req_id r =
      (record r { pending = del req_id r.pending }, 1 + acks_of (get_key req_id r.pending))

  -- Without peers to ask, the local entry is all that is collected.
  unfoldable pub quorum_get :
      String → ℕ → String → List String → Replica X C E → Replica X C E × Option (Collected X)
  unfolding Store.entry to_dict put_key
  quorum_get key need_r req_id peers r =
      let full = r.db.ns <> key in
      let local : Collected X = (r.node_id, entry_sent (Store.entry full r.db.store)) ∷ [] in
      let need = min (need_r - 1) (length peers) in
      if nat_beq (need_r - 1) 0
      then (r, some local)
      else if is_nobody peers
      then (r, some local)
      else (
        record r {
          pending = put_key req_id (reading local need false) r.pending;
          sent = send_first need peers (read_req req_id full) r.sent;
        },
        none,
      )

  -- The winner is merged into the own replica.
  abbrev pub repaired :
      String
      → Result (Option (Entry String (Item X)))
      → Replica X C E
      → Replica X C E × Result (Option (Item X))
  repaired full (raise err) r = (r, raise err)
  repaired full (ok none) r = (r, ok none)
  repaired full (ok (some best)) r = (
    record r { db = record r.db { store = (Store.merge_entry full best r.db.store).0 } },
    ok (if best.deleted then none else best.value),
  )

  unfoldable pub finish_get :
      String → Collected X → Replica X C E → Replica X C E × Result (Option (Item X))
  unfolding pick_best Store.merge_entry
  finish_get key collected r = repaired (r.db.ns <> key) (pick_best none collected) r

  abbrev pub answer_write :
      String → String → String → Result (Entry String (Item X)) → Replica X C E → Replica X C E
  answer_write src req_id key (raise err) r = r
  answer_write src req_id key (ok a) r = record r {
    db = record r.db { store = (Store.merge_entry key a r.db.store).0 };
    sent = r.sent ++ (src, write_resp req_id) ∷ [];
  }

  unfoldable pub on_write_req :
      String → String → String → Sent String (Item X) → Replica X C E → Replica X C E
  unfolding from_dict Store.merge_entry
  on_write_req src req_id key sent r = answer_write src req_id key (from_dict sent) r

  -- An answer to a call of the other kind raises `KeyError`, and changes nothing.
  abbrev pub counted : Option (Pending X) → String → Replica X C E → Replica X C E
  counted none req_id r = r
  counted (some (reading responses need is_done)) req_id r = r
  counted (some (writing acks need is_done)) req_id r = record r {
    pending =
        put_key req_id (writing (acks + 1) need (if leb need (acks + 1) then true else is_done))
          r.pending;
  }

  unfoldable pub on_write_resp : String → Replica X C E → Replica X C E
  unfolding get_key put_key
  on_write_resp req_id r = counted (get_key req_id r.pending) req_id r

  unfoldable pub on_read_req : String → String → String → Replica X C E → Replica X C E
  unfolding Store.entry to_dict
  on_read_req src req_id key r = record r {
    sent = r.sent ++ (src, read_resp req_id (entry_sent (Store.entry key r.db.store))) ∷ [];
  }

  abbrev pub gathered :
      Option (Pending X)
      → String
      → String
      → Option (Sent String (Item X))
      → Replica X C E
      → Replica X C E
  gathered none src req_id sent r = r
  gathered (some (writing acks need is_done)) src req_id sent r = r
  gathered (some (reading responses need is_done)) src req_id sent r =
      let responses' = responses ++ (src, sent) ∷ [] in
      record r {
        pending =
            put_key req_id
              (reading responses' need
                (if leb (need + 1) (length responses') then true else is_done))
              r.pending;
      }

  unfoldable pub on_read_resp :
      String → String → Option (Sent String (Item X)) → Replica X C E → Replica X C E
  unfolding get_key put_key
  on_read_resp src req_id sent r = gathered (get_key req_id r.pending) src req_id sent r
