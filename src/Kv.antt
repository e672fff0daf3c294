-- ===== src/Kv.antt =====
-- suprime/kvstore.py: a database over the store of a node, under a namespace. `X` are the JSON
-- values and `E` the extractors of the indexes, which give the text of an index key; they are a
-- parameter. One reading of the clock stands for those of an operation.
pub mod Quorum
pub mod Expiry
pub mod Names
pub mod Repair
use Prim.Native.String.{String, ◌++◌ as ◌<>◌}
use suprime.Base.{
  ℕ, ◌+◌, ◌-◌, Bool, true, false, ◌&&◌, not, Option, none, some, List, [], ◌∷◌, ◌++◌, map, leb,
  if◌then◌else◌,
}
use suprime.Base.Key.{Eq, ◌==◌, string_eq, string_order, str_less}
use suprime.Base.Lists.{length}
use suprime.Base.Sort.{sorted}
use suprime.Base.Texts.{rest_of, rstrip_slash}
use suprime.Base.Dict.{Dict, put as put_key}
use suprime.Store
use suprime.Store.{Store}

-- What the store holds: a value, an expiry time, or the mark of an index entry.
pub data Item (X : Type 0) : Type 0 where
  item : X → Item X
  expiry_at : ℕ → Item X
  mark : Item X

pub record KvStore (X C E : Type 0) : Type 0 where
  pub store : Store String (Item X) C
  pub ns : String
  pub exp_ns : String
  pub idx_ns : String
  pub indexes : Dict String E

unfoldable pub init : {X C E : Type 0} → String → Store String (Item X) C → KvStore X C E
unfolding rstrip_slash
init namespace store =
    let base = rstrip_slash namespace in
    record {
      store = store;
      ns = base <> "/";
      exp_ns = base <> ".exp/";
      idx_ns = base <> ".idx/";
      indexes = [];
    }

abbrev pub time_of : {X : Type 0} → Option (Item X) → Option ℕ
time_of none = none
time_of (some (item x)) = none
time_of (some (expiry_at t)) = some t
time_of (some mark) = none

abbrev pub has_passed : ℕ → Option ℕ → Bool
has_passed now none = false
has_passed now (some t) = leb t now

abbrev pub until : ℕ → Option ℕ → Option ℕ
until now none = none
until now (some t) = some (t - now)

-- `sorted` of pairs whose first parts are all different.
module _ {B : Type 0} where
  unfoldable pub insert_pair : String × B → List (String × B) → List (String × B)
  insert_pair p [] = p ∷ []
  insert_pair p (q ∷ qs) =
      let rest = insert_pair p qs in if str_less p.0 q.0 then p ∷ q ∷ qs else q ∷ rest

  unfoldable pub sort_pairs : List (String × B) → List (String × B)
  unfolding insert_pair
  sort_pairs [] = []
  sort_pairs (p ∷ ps) = insert_pair p (sort_pairs ps)

  unfoldable pub between : String → String → List (String × B) → List (String × B)
  between start end [] = []
  between start end ((k, v) ∷ ps) =
      let rest = between start end ps in
      if not (str_less k start) && str_less k end then (k, v) ∷ rest else rest

module _ {X C E : Type 0} where
  unfoldable pub expiry : String → KvStore X C E → Option ℕ
  unfolding Store.read
  expiry key d = time_of (Store.read (d.exp_ns <> key) none d.store)

  unfoldable pub is_expired : ℕ → String → KvStore X C E → Bool
  unfolding expiry
  is_expired now key d = has_passed now (expiry key d)

  unfoldable pub ttl : ℕ → String → KvStore X C E → Option ℕ
  unfolding expiry
  ttl now key d = until now (expiry key d)

  -- `self._node.store.set`, `self._node.store.delete`
  abbrev pub set_at : ℕ → String → Option (Item X) → KvStore X C E → KvStore X C E
  set_at now key value d = record d { store = (Store.set key value now d.store).1 }

  abbrev pub delete_at : ℕ → String → KvStore X C E → KvStore X C E
  delete_at now key d = record d { store = (Store.delete key now d.store).1 }

  unfoldable pub index_key : String → String → String → KvStore X C E → String
  index_key name value record_key d = d.idx_ns <> (name <> ("/" <> (value <> ("/" <> record_key))))

  unfoldable pub add_index_entry : ℕ → String → String → String → KvStore X C E → KvStore X C E
  unfolding index_key Store.set
  add_index_entry now name value record_key d =
      set_at now (index_key name value record_key d) (some mark) d

  -- The keys and values under the namespace whose key starts with the prefix.
  unfoldable pub scan_items :
      ℕ → String → List (String × Option (Item X)) → KvStore X C E → List (String × Option (Item X))
  unfolding rest_of is_expired
  scan_items now prefix [] d = []
  scan_items now prefix ((k, v) ∷ items) d =
      let rest = scan_items now prefix items d in
      elim (rest_of d.ns k) [
        | none ↦ rest
        | some short ↦ elim (rest_of prefix short) [
          | none ↦ rest
          | some tail ↦ if is_expired now short d then rest else (short, v) ∷ rest
        ]
      ]

  unfoldable pub scan : ℕ → String → KvStore X C E → List (String × Option (Item X))
  unfolding Store.items scan_items sort_pairs
  scan now prefix d = sort_pairs (scan_items now prefix (Store.items d.store) d)

  unfoldable pub keys : ℕ → KvStore X C E → List String
  unfolding scan
  keys now d = map (λ p. p.0) (scan now "" d)

  unfoldable pub range : ℕ → String → String → KvStore X C E → List (String × Option (Item X))
  unfolding scan between
  range now start end d = between start end (scan now "" d)

  unfoldable pub indexed :
      ℕ → String → List (String × Option (Item X)) → KvStore X C E → List String
  unfolding rest_of is_expired
  indexed now prefix [] d = []
  indexed now prefix ((k, v) ∷ items) d =
      let rest = indexed now prefix items d in
      elim (rest_of prefix k) [
        | none ↦ rest
        | some rec ↦ if is_expired now rec d then rest else rec ∷ rest
      ]

  unfoldable pub query_index : ℕ → String → String → KvStore X C E → List String
  unfolding Store.items indexed sorted
  query_index now name value d =
      sorted (indexed now (d.idx_ns <> (name <> ("/" <> (value <> "/")))) (Store.items d.store) d)

module _ {X C E : Type 0} where
  abbrev pub clear_expiry : ℕ → String → KvStore X C E → KvStore X C E
  clear_expiry now key d =
      let cleared = delete_at now (d.exp_ns <> key) d in
      if Store.contains (d.exp_ns <> key) d.store then cleared else d

  abbrev pub set_expiry : ℕ → String → ℕ → KvStore X C E → KvStore X C E
  set_expiry now key span d = set_at now (d.exp_ns <> key) (some (expiry_at (now + span))) d

  abbrev pub with_expiry : ℕ → String → Option ℕ → KvStore X C E → KvStore X C E
  with_expiry now key none d = clear_expiry now key d
  with_expiry now key (some span) d = set_expiry now key span d

module _ {X C E : Type 0} (extract : E → Option (Item X) → String) where
  abbrev pub drop_old : ℕ → String → String → E → Option (Item X) → KvStore X C E → KvStore X C E
  drop_old now key name extractor none d = d
  drop_old now key name extractor (some old) d =
      delete_at now (index_key name (extract extractor (some old)) key d) d

  abbrev pub add_new : ℕ → String → String → E → Option (Item X) → KvStore X C E → KvStore X C E
  add_new now key name extractor none d = d
  add_new now key name extractor (some value) d =
      add_index_entry now name (extract extractor (some value)) key d

  -- `_reindex`, over the indexes.
  unfoldable pub reindex :
      ℕ → String → Option (Item X) → Option (Item X) → Dict String E → KvStore X C E → KvStore X C E
  unfolding Store.delete index_key add_index_entry
  reindex now key old value [] d = d
  reindex now key old value ((name, extractor) ∷ indexes) d =
      reindex now key old value indexes
        (add_new now key name extractor value (drop_old now key name extractor old d))

  -- The value as it is written, before its expiry is seen to.
  unfoldable pub write_value : ℕ → String → Option (Item X) → KvStore X C E → KvStore X C E
  unfolding Store.read Store.set reindex
  write_value now key value d =
      let old = Store.read (d.ns <> key) none d.store in
      set_at now (d.ns <> key) value (reindex now key old value d.indexes d)

  unfoldable pub put : ℕ → String → Option (Item X) → Option ℕ → KvStore X C E → KvStore X C E
  unfolding write_value Store.set Store.delete Store.contains
  put now key value span d = with_expiry now key span (write_value now key value d)

  unfoldable pub delete : ℕ → String → KvStore X C E → KvStore X C E
  unfolding Store.read Store.delete Store.contains reindex
  delete now key d =
      let old = Store.read (d.ns <> key) none d.store in
      clear_expiry now key (delete_at now (d.ns <> key) (reindex now key old none d.indexes d))

  -- An expired key is deleted when it is read.
  unfoldable pub get :
      ℕ → String → Option (Item X) → KvStore X C E → Option (Item X) × KvStore X C E
  unfolding is_expired delete Store.read
  get now key default d =
      let reaped = delete now key d in
      if is_expired now key d
      then (default, reaped)
      else (Store.read (d.ns <> key) default d.store, d)

  unfoldable pub expired_keys : ℕ → List (String × Option (Item X)) → KvStore X C E → List String
  unfolding rest_of is_expired
  expired_keys now [] d = []
  expired_keys now ((k, v) ∷ items) d =
      let rest = expired_keys now items d in
      elim (rest_of d.ns k) [
        | none ↦ rest
        | some short ↦ if is_expired now short d then short ∷ rest else rest
      ]

  unfoldable pub delete_keys : ℕ → List String → KvStore X C E → KvStore X C E
  unfolding delete
  delete_keys now [] d = d
  delete_keys now (key ∷ keys) d = delete_keys now keys (delete now key d)

  unfoldable pub sweep_expired : ℕ → KvStore X C E → ℕ × KvStore X C E
  unfolding Store.items expired_keys delete_keys
  sweep_expired now d =
      let expired = expired_keys now (Store.items d.store) d in
      (length expired, delete_keys now expired d)

  unfoldable pub backfill :
      ℕ → String → E → List (String × Option (Item X)) → KvStore X C E → KvStore X C E
  unfolding add_index_entry
  backfill now name extractor [] d = d
  backfill now name extractor ((key, value) ∷ pairs) d =
      backfill now name extractor pairs (add_index_entry now name (extract extractor value) key d)

  unfoldable pub create_index : ℕ → String → E → KvStore X C E → KvStore X C E
  unfolding scan backfill
  create_index now name extractor d =
      let d' = record d { indexes = put_key name extractor d.indexes } in
      backfill now name extractor (scan now "" d') d'
