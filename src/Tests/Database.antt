-- ===== src/Tests/Database.antt =====
-- A database under `kv/` with one index, whose key `k` expires at 30.
use Prim.Native.String.{String, ◌++◌ as ◌<>◌}
use suprime.Base.{
  ℕ, ◌≡◌, refl, ap, sym, inl, inr, false, Option, some, none, [], ◌∷◌, if◌then◌else◌,
}
use suprime.Base.Key.{◌==◌, string_eq, string_order, nat_eq}
use suprime.Base.Result.{ok}
use suprime.Base.Dict.{get as get_key}
use suprime.Version.{gt}
use suprime.Store
use suprime.Store.Entries.{Entry}
use suprime.Store.{Store}
use suprime.Store.Wire.{from_dict, to_dict}
use suprime.Kv.{Item, item, expiry_at, KvStore, put, get, has_passed}
use suprime.Kv.Quorum.{Replica, Collected, entry_sent, pick_best, quorum_put, finish_get}
use suprime.Kv.Expiry.{value_at, time_at, expires, get-put}
use suprime.Kv.Names.{IsNamed}
use suprime.Kv.Repair.{finish_get-newest, get-quorum_put}

abbrev key_k : String
key_k = "k"

abbrev entry : Item ℕ → ℕ → String → Entry String (Item ℕ)
entry value ts origin = record {
  value = some value;
  version = record { ts = ts; origin = origin };
  deleted = false;
}

abbrev database : KvStore ℕ ℕ ℕ
database = record {
  store = record {
    node_id = "a";
    entries = ("kv/k", entry (item 1) 5 "a") ∷ ("kv.exp/k", entry (expiry_at 30) 6 "a") ∷ [];
    subscribers = [];
    commit_subs = [];
    highest_ts = 6;
    calls = [];
  };
  ns = "kv/";
  exp_ns = "kv.exp/";
  idx_ns = "kv.idx/";
  indexes = ("parity", 2) ∷ [];
}

database-IsNamed : IsNamed "kv" database
database-IsNamed = record { values = refl; times = refl; marks = refl }

abbrev extract : ℕ → Option (Item ℕ) → String
extract n value = "x"

get-put_example :
    (get extract 25 "k" none (put extract 20 "k" (some (item 2)) (some 4) database)).0 ≡ (
      if has_passed 25 (if key_k == key_k then expires 20 (some 4) else time_at "kv" "k" database)
      then none
      else if key_k == key_k
      then some (item 2)
      else value_at "kv" "k" none database)
get-put_example =
    get-put extract 20 25 "kv" "k" "k" (some (item 2)) none (some 4) database database-IsNamed

abbrev replica : Replica ℕ ℕ ℕ
replica = record { node_id = "a"; db = database; pending = []; sent = [] }

get-quorum_put_example :
    (get extract 35 "k" none
      (quorum_put extract 20 "k" (some (item 2)) 2 none "r" ("b" ∷ []) replica).0.db).0
    ≡ (if has_passed 35 (time_at "kv" "k" database) then none else some (item 2))
get-quorum_put_example =
    get-quorum_put extract 20 35 2 "kv" "k" "r" (some (item 2)) none ("b" ∷ []) replica
      database-IsNamed

abbrev remote : Entry String (Item ℕ)
remote = entry (item 3) 9 "b"

abbrev collected : Collected ℕ
collected =
    ("a", some (to_dict (entry (item 1) 5 "a"))) ∷ ("b", some (to_dict remote)) ∷ ("c", none) ∷ []

picked : pick_best none collected ≡ ok (some remote)
unfolding pick_best from_dict to_dict gt
picked = refl

local : Store.entry ("kv/" <> "k") database.store ≡ some (entry (item 1) 5 "a")
unfolding Store.entry get_key
local = refl

finish_get-newest_example :
    ((finish_get "k" collected replica).1 ≡ ok (some (item 3)))
    × (gt remote.version remote.version ≡ false)
    × ((e : Entry String (Item ℕ)) × (get_key
            ("kv/" <> "k")
            (finish_get "k" collected replica).0.db.store.entries
          ≡ some e)
        × (e.version ≡ remote.version))
finish_get-newest_example =
    finish_get-newest "k" "b" collected remote remote replica picked
      (inl (ap (λ o. ("a", entry_sent o)) (sym local))) (inr (inl refl))
