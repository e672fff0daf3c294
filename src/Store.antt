-- ===== src/Store.antt =====
-- suprime/store.py `Entry` and `DistributedStore`. Timestamps are whole microseconds, so the nudge
-- of `1e-6` is one; a call of the clock is the argument `now`. A stored value is an `Option V`,
-- with `none` for Python's `None`. The calls of the subscribers are recorded in order, and a
-- subscriber is taken not to call back into the store.
pub mod Entries
pub mod Wire
pub mod Reads
pub mod Merge
pub mod Versions
pub mod Garbage
use suprime.Base.{
  ℕ, ◌+◌, Bool, true, false, ◌&&◌, not, Option, none, some, List, [], ◌∷◌, ◌++◌, map, ltb, leb,
  if◌then◌else◌,
}
use suprime.Base.Key.{Eq, Order, ◌==◌}
use suprime.Base.Lists.{length}
use suprime.Base.Dict.{Dict, get, put, del, has}
use Entries.{
  Entry, version_of, live_items, count_deleted, is_stale, stale_keys, value_or, is_live, delete_all,
}
use suprime.Version.{Version, gt}
use suprime.Version.Newest.{newer}

-- A call of a subscriber (`callback(key, value)`) or of a commit hook (`callback(key, entry)`).
pub data Call (K V C : Type 0) : Type 0 where
  notified : C → K → Option V → Call K V C
  committed : C → K → Entry K V → Call K V C

pub record Store (K V C : Type 0) : Type 0 where
  pub node_id : K
  pub entries : Dict K (Entry K V)
  pub subscribers : List C
  pub commit_subs : List C
  pub highest_ts : ℕ
  pub calls : List (Call K V C)

unfoldable pub init : {K V C : Type 0} → K → Store K V C
init node_id = record {
  node_id = node_id;
  entries = [];
  subscribers = [];
  commit_subs = [];
  highest_ts = 0;
  calls = [];
}

module _ {K V C : Type 0} where
  unfoldable pub subscribe : C → Store K V C → Store K V C
  subscribe callback s = record s { subscribers = s.subscribers ++ callback ∷ [] }

  unfoldable pub on_commit : C → Store K V C → Store K V C
  on_commit callback s = record s { commit_subs = s.commit_subs ++ callback ∷ [] }

  -- `_notify`
  unfoldable pub notify : K → Option V → Store K V C → Store K V C
  notify key value s = record s {
    calls = s.calls ++ map (λ callback. notified callback key value) s.subscribers;
  }

  unfoldable pub emit_commit : K → Entry K V → Store K V C → Store K V C
  emit_commit key entry s = record s {
    calls = s.calls ++ map (λ callback. committed callback key entry) s.commit_subs;
  }

  -- `_next_version`
  unfoldable pub next_version : ℕ → Store K V C → Version K × Store K V C
  next_version now s =
      let ts = if leb now s.highest_ts then s.highest_ts + 1 else now in
      (record { ts = ts; origin = s.node_id }, record s { highest_ts = ts })

  unfoldable pub items : Store K V C → List (K × Option V)
  unfolding live_items
  items s = live_items s.entries

  unfoldable pub keys : Store K V C → List K
  unfolding live_items
  keys s = map (λ p. p.0) (live_items s.entries)

  unfoldable pub tombstones : Store K V C → ℕ
  unfolding count_deleted
  tombstones s = count_deleted s.entries

module _ {K V C : Type 0} ⦃e : Eq K⦄ where
  unfoldable pub commit : K → Entry K V → Store K V C → Store K V C
  unfolding put
  commit key entry s = record s { entries = put key entry s.entries }

  unfoldable pub set : K → Option V → ℕ → Store K V C → Entry K V × Store K V C
  unfolding next_version commit notify emit_commit
  set key value now s =
      let (version, s₁) = next_version now s in
      let entry : Entry K V = record { value = value; version = version; deleted = false } in
      (entry, emit_commit key entry (notify key value (commit key entry s₁)))

  unfoldable pub delete : K → ℕ → Store K V C → Option (Entry K V) × Store K V C
  unfolding next_version commit notify emit_commit has
  delete key now s =
      let (version, s₁) = next_version now s in
      let entry : Entry K V = record { value = none; version = version; deleted = true } in
      if has key s.entries
      then (some entry, emit_commit key entry (notify key none (commit key entry s₁)))
      else (none, s)

  -- `get`
  unfoldable pub read : K → Option V → Store K V C → Option V
  unfolding get
  read key default s = value_or default (get key s.entries)

  unfoldable pub entry : K → Store K V C → Option (Entry K V)
  unfolding get
  entry key s = get key s.entries

  -- `__contains__`
  unfoldable pub contains : K → Store K V C → Bool
  unfolding get
  contains key s = is_live (get key s.entries)

  -- The count of purged keys comes first.
  unfoldable pub collect_garbage : ℕ → ℕ → Store K V C → ℕ × Store K V C
  unfolding stale_keys delete_all
  collect_garbage min_age now s =
      let stale = stale_keys now min_age s.entries in
      (length stale, record s { entries = delete_all stale s.entries })

module _ {K V C : Type 0} ⦃e : Eq K⦄ ⦃o : Order K⦄ where
  -- `merge_entry` raises `_highest_ts` for an entry of this node's own.
  unfoldable pub observe : Entry K V → Store K V C → Store K V C
  observe a s =
      if (a.version.origin == s.node_id) && ltb s.highest_ts a.version.ts
      then record s { highest_ts = a.version.ts }
      else s

  unfoldable pub merge_entry : K → Entry K V → Store K V C → Store K V C × Bool
  unfolding newer commit observe notify emit_commit get
  merge_entry key entry s =
      if newer version_of (get key s.entries) entry
      then (let s₁ = observe entry (commit key entry s) in
          (emit_commit key entry (if entry.deleted then s₁ else notify key entry.value s₁), true))
      else (s, false)

  unfoldable pub merge_from : Store K V C × Bool → List (K × Entry K V) → Store K V C × Bool
  unfolding merge_entry
  merge_from s [] = s
  merge_from (s, changed) ((k, a) ∷ snapshot) =
      let (s', now_changed) = merge_entry k a s in
      merge_from (s', if now_changed then true else changed) snapshot

  unfoldable pub merge : List (K × Entry K V) → Store K V C → Store K V C × Bool
  unfolding merge_from
  merge snapshot s = merge_from (s, false) snapshot
