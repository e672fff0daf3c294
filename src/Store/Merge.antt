-- ===== src/Store/Merge.antt =====
-- `DistributedStore.merge` as a last-writer-wins merge: what it leaves at each key, and that
-- replicas which received the same entries agree.
use mathlib.Core.Path.{subst}
use suprime.Base.{
  ◌≡◌, ◌↔◌, ◌∙◌, sym, ap, refl, Bool, true, false, List, [], ◌∷◌, arith, if◌then◌else◌,
}
use suprime.Base.Key.{Eq, Order}
use suprime.Base.Dict.{Dict, Distinct, get}
use suprime.Base.Dict.Merge.{
  merge_loop, merge_step, get-merge_loop, merge_loop-Distinct, merge_loop_flag,
}
use suprime.Version.{gt_irrefl}
use suprime.Version.Newest.{newest, newer}
use suprime.Version.Streams.{SameEntries, AllVersioned, received_converge}
use suprime.Store.Entries.{Entry, version_of}
use suprime.Store.{Store, commit, observe, notify, emit_commit, merge_entry, merge_from, merge}

module _ {K V C : Type 0} ⦃e : Eq K⦄ ⦃o : Order K⦄ where
  -- The dictionary of a store and the flag, after one entry.
  entries-merge_entry :
      (k : K) (a : Entry K V) (s : Store K V C) (c : Bool)
      → ((merge_entry k a s).0.entries, if (merge_entry k a s).1 then true else c)
        ≡ merge_step (newer version_of) (s.entries, c) k a
  unfolding merge_entry merge_step commit observe notify emit_commit
  entries-merge_entry k a s c = ground arith

  entries-merge_from :
      (s : Store K V C) (c : Bool) (xs : List (K × Entry K V))
      → ((merge_from (s, c) xs).0.entries, (merge_from (s, c) xs).1)
        ≡ merge_loop (newer version_of) (s.entries, c) xs
  unfolding merge_from merge_loop
  entries-merge_from s c [] = refl
  entries-merge_from s c ((k, a) ∷ xs) =
      entries-merge_from (merge_entry k a s).0 (if (merge_entry k a s).1 then true else c) xs
      ∙ ap (λ p. merge_loop (newer version_of) p xs) (entries-merge_entry k a s c)

  pub entries-merge :
      (xs : List (K × Entry K V)) (s : Store K V C)
      → ((merge xs s).0.entries, (merge xs s).1)
        ≡ merge_loop (newer version_of) (s.entries, false) xs
  unfolding merge
  entries-merge xs s = entries-merge_from s false xs

  flag :
      (xs : Dict K (Entry K V)) (s : Store K V C)
      → Distinct xs
      → ((merge_loop (newer version_of) (s.entries, false) xs).1 ≡ false) ↔ (
          (k : K) → get k (merge_loop (newer version_of) (s.entries, false) xs).0 ≡ get k s.entries)
  flag xs s h =
      merge_loop_flag (newer version_of) s.entries xs
        (λ a. unfold newer in gt_irrefl (version_of a)) h

  -- Merging a peer's entries, given under distinct keys, leaves the newest of the two at each key,
  -- and reports a change exactly when the entry at some key changed.
  pub merge-newest :
      (xs : Dict K (Entry K V)) (s : Store K V C)
      → Distinct xs
      → ((k : K) → get k (merge xs s).0.entries ≡ newest version_of (get k s.entries) (get k xs))
        × (((merge xs s).1 ≡ false) ↔ ((k : K) → get k (merge xs s).0.entries ≡ get k s.entries))
  merge-newest xs s h = (
    λ k.
        ap (λ p. get k p.0) (entries-merge xs s)
        ∙ get-merge_loop (newer version_of) (s.entries, false) xs k h,
    (
      λ p k.
          ap (λ q. get k q.0) (entries-merge xs s)
          ∙ (flag xs s h).0 (sym (ap (λ q. q.1) (entries-merge xs s)) ∙ p) k,
      λ same.
          ap (λ q. q.1) (entries-merge xs s)
          ∙ (flag xs s h).1 (λ k. sym (ap (λ q. get k q.0) (entries-merge xs s)) ∙ same k),
    ),
  )

  from_empty :
      (xs : List (K × Entry K V)) (s : Store K V C)
      → s.entries ≡ []
      → ((merge xs s).0.entries, (merge xs s).1) ≡ merge_loop (newer version_of) ([], false) xs
  from_empty xs s h = entries-merge xs s ∙ ap (λ d. merge_loop (newer version_of) (d, false) xs) h

  -- Two stores that start empty and receive the same entries, each in its own order and as often
  -- as it happens, hold the same entry at every key, provided equal versions at a key mean equal
  -- entries.
  pub merge_converge :
      (xs ys : List (K × Entry K V)) (s t : Store K V C)
      → s.entries ≡ []
      → t.entries ≡ []
      → SameEntries version_of xs ys
      → AllVersioned version_of xs
      → (k : K) → get k (merge xs s).0.entries ≡ get k (merge ys t).0.entries
  merge_converge xs ys s t hs ht same versioned k =
      ap (λ p. get k p.0) (from_empty xs s hs)
      ∙ received_converge version_of xs ys same versioned k
      ∙ sym (ap (λ p. get k p.0) (from_empty ys t ht))

  pub merge-Distinct :
      (xs : List (K × Entry K V)) (s : Store K V C)
      → Distinct s.entries
      → Distinct (merge xs s).0.entries
  merge-Distinct xs s h =
      subst Distinct (sym (ap (λ p. p.0) (entries-merge xs s)))
        (merge_loop-Distinct (newer version_of) (s.entries, false) xs h)
