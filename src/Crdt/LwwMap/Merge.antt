-- ===== src/Crdt/LwwMap/Merge.antt =====
-- `LWWMap.merge` keeps the newest entry of each key: its algebra, its flag, and what equal
-- timestamps do to it.
use suprime.Base.{◌∙◌, ℕ, ◌≡◌, ◌↔◌, refl, ap, false, Option, none, some, [], ◌∷◌, map, arith}
use suprime.Base.Key.{Eq, Order, ==_refl, Blank}
use suprime.Base.Dict.{Dict, Distinct, get, get-put, put-Distinct}
use suprime.Base.Dict.Merge.{pick, get-merge_loop, merge_loop-Distinct, merge_loop_flag}
use suprime.Version.{gt_irrefl}
use suprime.Version.Newest.{
  newer, newest, newest_idem, newest_assoc, newest_comm, newest_tie, IsVersioned,
}
use suprime.Crdt.LwwMap.{
  Entry, LwwMap, version, newer_than, adopts, merge, set, digest, apply_digest, to_triple,
  of_triple,
}

module _ {K V : Type 0} ⦃e : Eq K⦄ ⦃o : Order K⦄ where
  adopts-newer : (cur : Option (Entry K V)) (a : Entry K V) → adopts cur a ≡ newer version cur a
  unfolding adopts newer_than newer
  adopts-newer none a = refl
  adopts-newer (some c) a = refl

  pick-newest : (cur a : Option (Entry K V)) → pick adopts cur a ≡ newest version cur a
  unfolding pick
  pick-newest cur none = refl
  pick-newest cur (some a) = rw (adopts-newer cur a)

  -- A merge leaves the newest of the two entries at each key.
  pub get-merge :
      (a b : LwwMap K V) (k : K)
      → Distinct b.entries
      → get k (merge a b).0.entries ≡ newest version (get k a.entries) (get k b.entries)
  unfolding merge
  get-merge a b k h =
      get-merge_loop adopts (a.entries, false) b.entries k h
      ∙ pick-newest (get k a.entries) (get k b.entries)

  pub merge-Distinct : (a b : LwwMap K V) → Distinct a.entries → Distinct (merge a b).0.entries
  unfolding merge
  merge-Distinct a b h = merge_loop-Distinct adopts (a.entries, false) b.entries h

  -- Entries of the two maps at one key that carry one version are one entry.
  abbrev pub Agree : LwwMap K V → LwwMap K V → Type 0
  Agree a b =
      (k : K) (x y : Entry K V)
      → get k a.entries ≡ some x
      → get k b.entries ≡ some y
      → IsVersioned version x y

  newest_comm_at :
      (p q : Option (Entry K V))
      → ((x y : Entry K V) → p ≡ some x → q ≡ some y → IsVersioned version x y)
      → newest version p q ≡ newest version q p
  unfolding pick newer
  newest_comm_at none none h = refl
  newest_comm_at none (some y) h = refl
  newest_comm_at (some x) none h = refl
  newest_comm_at (some x) (some y) h = newest_comm version x y (h x y refl refl)

  -- On maps with distinct keys the merge is associative and idempotent at every key, and
  -- commutative there where equal versions of the two maps mean equal entries.
  pub merge_laws :
      (a b c : LwwMap K V) (k : K)
      → Distinct a.entries
      → Distinct b.entries
      → Distinct c.entries
      → Agree a b
      → (get k (merge a b).0.entries ≡ get k (merge b a).0.entries)
        × (get k (merge (merge a b).0 c).0.entries ≡ get k (merge a (merge b c).0).0.entries)
        × (get k (merge a a).0.entries ≡ get k a.entries)
  merge_laws a b c k ha hb hc agree = (
    rw (get-merge a b k hb, get-merge b a k ha)
        (newest_comm_at (get k a.entries) (get k b.entries) (agree k)),
    rw
        (
          get-merge (merge a b).0 c k hc,
          get-merge a b k hb,
          get-merge a (merge b c).0 k (merge-Distinct b c hb),
          get-merge b c k hc,
        )
        (newest_assoc version (get k a.entries) (get k b.entries) (get k c.entries)),
    rw (get-merge a a k ha) (newest_idem version (get k a.entries)),
  )

  -- The flag is false exactly when no entry changes, and then the map is left as it was.
  pub merge_flag :
      (a b : LwwMap K V)
      → Distinct b.entries
      → ((merge a b).1 ≡ false) ↔ ((k : K) → get k (merge a b).0.entries ≡ get k a.entries)
  unfolding merge adopts newer_than
  merge_flag a b h = merge_loop_flag adopts a.entries b.entries (λ v. gt_irrefl (version v)) h

  pub get-set :
      (key : K) (w : V) (now : ℕ) (m : LwwMap K V)
      → get key (set key w now m).entries
        ≡ some (record { value = w; ts = now; origin = m.node_id })
  unfolding set
  get-set key w now m = ground (
    arith,
    get-put key key (record { value = w; ts = now; origin = m.node_id }) m.entries,
    ==_refl key,
  )

  set-Distinct :
      (key : K) (w : V) (now : ℕ) (m : LwwMap K V)
      → Distinct m.entries
      → Distinct (set key w now m).entries
  unfolding set
  set-Distinct key w now m h =
      put-Distinct key (record { value = w; ts = now; origin = m.node_id }) m.entries h

  -- A second write of a node within one clock tick has the version of the first: a replica that
  -- holds the first does not adopt the second, nor the writer the first, where both maps have
  -- distinct keys.
  pub set_same_tick :
      (key : K) (v w : V) (now : ℕ) (m r : LwwMap K V)
      → get key r.entries ≡ some (record { value = v; ts = now; origin = m.node_id })
      → Distinct m.entries
      → Distinct r.entries
      → (get key (merge r (set key w now m)).0.entries
          ≡ some (record { value = v; ts = now; origin = m.node_id }))
        × (get key (merge (set key w now m) r).0.entries
            ≡ some (record { value = w; ts = now; origin = m.node_id }))
  set_same_tick key v w now m r at hm hr =
      let first : Entry K V = record { value = v; ts = now; origin = m.node_id } in
      let second : Entry K V = record { value = w; ts = now; origin = m.node_id } in
      (
        rw
            (
              get-merge r (set key w now m) key (set-Distinct key w now m hm),
              at,
              get-set key w now m,
            )
            (newest_tie version first second refl),
        rw (get-merge (set key w now m) r key hr, at, get-set key w now m)
            (newest_tie version second first refl),
      )

  map-triple : (d : Dict K (Entry K V)) → map of_triple (map to_triple d) ≡ d
  map-triple [] = refl
  map-triple (a ∷ d) = ap (◌∷◌ a) (map-triple d)

  -- A replica that applies another's digest is merged with it.
  pub apply_digest-digest : ⦃n : Blank K⦄ (a b : LwwMap K V) → apply_digest a (digest b) ≡ merge a b
  unfolding apply_digest digest
  apply_digest-digest a b = rw (map-triple b.entries) (unfold merge in refl)
