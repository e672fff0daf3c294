-- ===== src/Store/Garbage.antt =====
-- `DistributedStore.collect_garbage` drops the old tombstones, all of them and nothing else.
use suprime.Base.{
  ℕ, ◌+◌, ◌≡◌, refl, ap, Bool, false, ◌||◌, Option, none, some, List, [], ◌∷◌, arith, if◌then◌else◌,
  ◌∙◌,
}
use suprime.Base.Key.{Eq, ◌==◌, ==_refl}
use suprime.Base.Lists.{length}
use suprime.Base.Dict.{Dict, Distinct, get, del, del_absent}
use suprime.Store.Entries.{Entry, is_stale, stale_keys, delete_all, count_deleted}
use suprime.Store.{Store, read, contains, collect_garbage, tombstones}

module _ {K : Type 0} ⦃e : Eq K⦄ where
  abbrev listed : K → List K → Bool
  listed k [] = false
  listed k (j ∷ ks) = j == k || listed k ks

module _ {K V : Type 0} where
  -- What a sweep leaves of an entry, and of a dictionary.
  abbrev pub swept : ℕ → ℕ → Option (Entry K V) → Option (Entry K V)
  swept now min_age none = none
  swept now min_age (some a) = if is_stale now min_age a then none else some a

  abbrev sweep : ℕ → ℕ → Dict K (Entry K V) → Dict K (Entry K V)
  sweep now min_age [] = []
  sweep now min_age ((k, a) ∷ d) =
      let rest = sweep now min_age d in if is_stale now min_age a then rest else (k, a) ∷ rest

  count_deleted-sweep :
      (now min_age : ℕ) (d : Dict K (Entry K V))
      → count_deleted (sweep now min_age d) + length (stale_keys now min_age d) ≡ count_deleted d
  unfolding count_deleted stale_keys
  count_deleted-sweep now min_age [] = refl
  count_deleted-sweep now min_age ((k, a) ∷ d) = ground (arith, count_deleted-sweep now min_age d)

module _ {K V : Type 0} ⦃e : Eq K⦄ (now min_age : ℕ) where
  listed-stale_keys :
      (k : K) (d : Dict K (Entry K V))
      → get k d ≡ none
      → listed k (stale_keys now min_age d) ≡ false
  unfolding stale_keys get
  listed-stale_keys k [] h = refl
  listed-stale_keys k ((j, a) ∷ d) h = ground (arith, listed-stale_keys k d)

  delete_all-cons :
      (ks : List K) (k : K) (a : Entry K V) (d : Dict K (Entry K V))
      → listed k ks ≡ false
      → delete_all ks ((k, a) ∷ d) ≡ (k, a) ∷ delete_all ks d
  unfolding delete_all del
  delete_all-cons [] k a d h = refl
  delete_all-cons (j ∷ ks) k a d h =
      ground (arith, delete_all-cons ks k a (del j d), e.beq_iff j k, e.beq_iff k j)

  delete_all-sweep :
      (d : Dict K (Entry K V))
      → Distinct d
      → delete_all (stale_keys now min_age d) d ≡ sweep now min_age d
  unfolding delete_all stale_keys del
  delete_all-sweep [] h = refl
  delete_all-sweep ((k, a) ∷ d) h = ground (
    arith,
    delete_all-sweep d,
    del_absent k d,
    ==_refl k,
    delete_all-cons (stale_keys now min_age d) k a d,
    listed-stale_keys k d,
  )

  get-sweep :
      (k : K) (d : Dict K (Entry K V))
      → Distinct d
      → get k (sweep now min_age d) ≡ swept now min_age (get k d)
  unfolding get
  get-sweep k [] h = refl
  get-sweep k ((j, a) ∷ d) h = ground (arith, get-sweep k d, e.beq_iff j k)

module _ {K V C : Type 0} ⦃e : Eq K⦄ where
  -- On a store with distinct keys, after a collection an entry is there exactly if it was there
  -- and was not a tombstone of the given age; nothing a reader sees has changed, and the count is
  -- that of the tombstones gone.
  pub collect_garbage_lem :
      (min_age now : ℕ) (s : Store K V C) (k : K) (default : Option V)
      → Distinct s.entries
      → (get k (collect_garbage min_age now s).1.entries ≡ swept now min_age (get k s.entries))
        × (read k default (collect_garbage min_age now s).1 ≡ read k default s)
        × (contains k (collect_garbage min_age now s).1 ≡ contains k s)
        × (tombstones (collect_garbage min_age now s).1 + (collect_garbage min_age now s).0
            ≡ tombstones s)
  unfolding collect_garbage read contains tombstones is_stale
  collect_garbage_lem min_age now s k default h =
      let whole = delete_all-sweep now min_age s.entries h in
      let at = ap (get k) whole ∙ get-sweep now min_age k s.entries h in
      (
        at,
        ground (arith, at),
        ground (arith, at),
        ap (λ d. count_deleted d + length (stale_keys now min_age s.entries)) whole
            ∙ count_deleted-sweep now min_age s.entries,
      )
