-- ===== src/Crdt/LwwMap.antt =====
-- suprime/crdt.py `_LWWEntry` and `LWWMap`. A call of the clock is the argument `now`, in
-- microseconds.
pub mod Merge
use suprime.Base.{ℕ, ◌≡◌, Bool, true, false, Option, none, some, List, [], ◌∷◌, map, arith}
use suprime.Base.Key.{Eq, Order, ◌==◌, Blank}
use suprime.Base.Dict.{Dict, get, put}
use suprime.Base.Dict.Merge.{merge_loop}
use suprime.Version.{Version, gt}
use suprime.Version.Newest.{newer}

pub record Entry (K V : Type 0) : Type 0 where
  pub value : V
  pub ts : ℕ
  pub origin : K

pub record LwwMap (K V : Type 0) : Type 0 where
  pub node_id : K
  pub entries : Dict K (Entry K V)

-- `(self.ts, self.origin)`
abbrev pub version : {K V : Type 0} → Entry K V → Version K
version e = record { ts = e.ts; origin = e.origin }

unfoldable pub init : {K V : Type 0} → K → LwwMap K V
init node_id = record { node_id = node_id; entries = [] }

-- `[value, ts, origin]` of each entry
abbrev pub to_triple : {K V : Type 0} → K × Entry K V → K × (V × ℕ × K)
to_triple (k, e) = (k, (e.value, e.ts, e.origin))

abbrev pub of_triple : {K V : Type 0} → K × (V × ℕ × K) → K × Entry K V
of_triple (k, t) = (k, record { value = t.0; ts = t.1; origin = t.2 })

module _ {K V : Type 0} where
  unfoldable pub items : LwwMap K V → List (K × V)
  items m = map (λ e. (e.0, e.1.value)) m.entries

  unfoldable pub digest : LwwMap K V → Dict K (V × ℕ × K)
  digest m = map to_triple m.entries

module _ {K V : Type 0} ⦃e : Eq K⦄ ⦃o : Order K⦄ where
  unfoldable pub newer_than : Entry K V → Entry K V → Bool
  unfolding gt
  newer_than a b = gt (version a) (version b)

  -- `cur is None or entry.newer_than(cur)`
  unfoldable pub adopts : Option (Entry K V) → Entry K V → Bool
  unfolding newer_than
  adopts none a = true
  adopts (some cur) a = newer_than a cur

  unfoldable pub merge : LwwMap K V → LwwMap K V → LwwMap K V × Bool
  unfolding merge_loop adopts
  merge m other =
      let (entries, changed) = merge_loop adopts (m.entries, false) other.entries in
      (record m { entries = entries }, changed)

  unfoldable pub apply_digest : ⦃b : Blank K⦄ → LwwMap K V → Dict K (V × ℕ × K) → LwwMap K V × Bool
  apply_digest ⦃b⦄ m sent = merge m (record { node_id = b.blank; entries = map of_triple sent })

module _ {K V : Type 0} ⦃e : Eq K⦄ where
  unfoldable pub set : K → V → ℕ → LwwMap K V → LwwMap K V
  unfolding put
  set key value now m = record m {
    entries = put key (record { value = value; ts = now; origin = m.node_id }) m.entries;
  }

  abbrev value_or : V → Option (Entry K V) → V
  value_or default none = default
  value_or default (some a) = a.value

  unfoldable pub read : K → V → LwwMap K V → V
  unfolding get
  read key default m = value_or default (get key m.entries)
