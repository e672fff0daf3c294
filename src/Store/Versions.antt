-- ===== src/Store/Versions.antt =====
-- The versions that a `DistributedStore` gives to its own writes.
use suprime.Base.{
  ℕ, ◌+◌, ◌≤◌, ◌<◌, ◌≡◌, Bool, true, false, Option, none, some, List, [], ◌∷◌, arith, if◌then◌else◌,
}
use suprime.Base.Key.{Eq, Order, ==_refl}
use suprime.Base.Dict.{get, put, get-put}
use suprime.Version.{gt}
use suprime.Version.Newest.{newer}
use suprime.Store.Entries.{Entry}
use suprime.Store.{
  Store, next_version, commit, observe, notify, emit_commit, set, delete, merge_entry, merge_from,
  merge,
}

module _ {K V C : Type 0} ⦃e : Eq K⦄ where
  -- No entry of the node's own is newer than the highest timestamp that it has used.
  pub record IsOwner (s : Store K V C) : Type 0 where
    pub bounded :
        (k : K) (a : Entry K V)
        → get k s.entries ≡ some a
        → a.version.origin ≡ s.node_id
        → a.version.ts ≤ s.highest_ts

  -- A fresh version is past the clock's reading and past every timestamp used before.
  pub next_version_fresh :
      (now : ℕ) (s : Store K V C)
      → (s.highest_ts < (next_version now s).0.ts)
        × (now ≤ (next_version now s).0.ts)
        × ((next_version now s).1.highest_ts ≡ (next_version now s).0.ts)
  unfolding next_version
  next_version_fresh now s = ground arith

  pub set-IsOwner :
      (key : K) (value : Option V) (now : ℕ) (s : Store K V C)
      → IsOwner s
      → IsOwner (set key value now s).1
  unfolding set commit notify emit_commit next_version
  set-IsOwner key value now s h = record {
    bounded = λ k a at own.
        ground (arith, h.bounded k a, get-put key k (set key value now s).0 s.entries);
  }

  pub delete-IsOwner :
      (key : K) (now : ℕ) (s : Store K V C) → IsOwner s → IsOwner (delete key now s).1
  unfolding delete commit notify emit_commit next_version
  delete-IsOwner key now s h = record {
    bounded = λ k a at own.
        let gone : Entry K V = record {
          value = none;
          version = (next_version now s).0;
          deleted = true;
        } in
        ground (arith, h.bounded k a, get-put key k gone s.entries);
  }

module _ {K V C : Type 0} ⦃e : Eq K⦄ ⦃o : Order K⦄ where
  merge_entry-IsOwner :
      (key : K) (b : Entry K V) (s : Store K V C) → IsOwner s → IsOwner (merge_entry key b s).0
  unfolding merge_entry commit observe notify emit_commit
  merge_entry-IsOwner key b s h = record {
    bounded = λ k a at own.
        ground
          (arith, h.bounded k a, get-put key k b s.entries, e.beq_iff b.version.origin s.node_id);
  }

  merge_from-IsOwner :
      (xs : List (K × Entry K V)) (s : Store K V C) (c : Bool)
      → IsOwner s
      → IsOwner (merge_from (s, c) xs).0
  unfolding merge_from
  merge_from-IsOwner [] s c h = h
  merge_from-IsOwner ((k, a) ∷ xs) s c h =
      merge_from-IsOwner xs (merge_entry k a s).0 (if (merge_entry k a s).1 then true else c)
        (merge_entry-IsOwner k a s h)

  -- Writes, deletions and merges keep a store's own entries below its highest timestamp.
  pub steps-IsOwner :
      (key : K) (value : Option V) (now : ℕ) (xs : List (K × Entry K V)) (s : Store K V C)
      → IsOwner s
      → IsOwner (set key value now s).1 × IsOwner (delete key now s).1 × IsOwner (merge xs s).0
  unfolding merge
  steps-IsOwner key value now xs s h =
      (set-IsOwner key value now s h, delete-IsOwner key now s h, merge_from-IsOwner xs s false h)

  -- On a store whose own entries are below its highest timestamp, a write is newer than every
  -- entry of the node's own that the store holds, at any key.
  pub set_newer :
      (key k : K) (value : Option V) (now : ℕ) (s : Store K V C) (a : Entry K V)
      → IsOwner s
      → get k s.entries ≡ some a
      → a.version.origin ≡ s.node_id
      → gt (set key value now s).0.version a.version ≡ true
  unfolding set gt next_version
  set_newer key k value now s a h at own = ground (arith, h.bounded k a)

  -- A write over a remote entry is lost, where the remote timestamp is ahead of the node's clock
  -- and by more than one ahead of the node's highest own timestamp: the store holds the write
  -- until the remote entry is merged once more, and then the remote entry again.
  pub set_lost :
      (key : K) (value : Option V) (now : ℕ) (s : Store K V C) (a : Entry K V)
      → get key s.entries ≡ some a
      → now < a.version.ts
      → s.highest_ts + 1 < a.version.ts
      → (get key (set key value now s).1.entries ≡ some (set key value now s).0)
        × (get key (merge_entry key a (set key value now s).1).0.entries ≡ some a)
  unfolding set commit notify emit_commit next_version merge_entry observe newer gt
  set_lost key value now s a at early low =
      let w = (set key value now s).0 in
      (
        ground (arith, get-put key key w s.entries, ==_refl key),
        ground (
          arith,
          get-put key key w s.entries,
          get-put key key a (put key w s.entries),
          ==_refl key,
        ),
      )
