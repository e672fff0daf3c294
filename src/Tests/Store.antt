-- ===== src/Tests/Store.antt =====
-- Stores of nodes 1 and 2. Node 1 holds a value under key 7 and an old tombstone under key 8.
use suprime.Base.{
  ℕ, ◌+◌, ◌≡◌, ◌↔◌, inl, inr, refl, sym, ap, ◌∙◌, true, false, some, none, List, [], ◌∷◌, ◌++◌,
  arith,
}
use suprime.Base.Key.{nat_eq, nat_order}
use suprime.Base.Result.{ok, raise, key_error}
use suprime.Base.Dict.{Dict, Distinct, get}
use suprime.Version.{gt}
use suprime.Version.Newest.{newest}
use suprime.Version.Streams.{SameEntries, AllVersioned}
use suprime.Store.Entries.{Entry, version_of}
use suprime.Store.{Store, set, read, contains, merge, merge_entry, collect_garbage, tombstones}
use suprime.Store.Merge.{merge-newest, merge_converge}
use suprime.Store.Versions.{IsOwner, set_newer, set_lost}
use suprime.Store.Garbage.{swept, collect_garbage_lem}
use suprime.Store.Wire.{Sent, digest, digest_of, apply_digest, apply_digest-merge, apply_digest_bad}

abbrev key_7 : ℕ
key_7 = 7

abbrev entry_at : ℕ → ℕ → ℕ → Entry ℕ ℕ
entry_at value ts origin = record {
  value = some value;
  version = record { ts = ts; origin = origin };
  deleted = false;
}

abbrev own : Entry ℕ ℕ
own = entry_at 70 100 1

abbrev remote : Entry ℕ ℕ
remote = entry_at 71 500 2

abbrev gone : Entry ℕ ℕ
gone = record { value = none; version = record { ts = 20; origin = 2 }; deleted = true }

abbrev store_1 : Store ℕ ℕ ℕ
store_1 = record {
  node_id = 1;
  entries = (7, own) ∷ (8, gone) ∷ [];
  subscribers = 90 ∷ 91 ∷ [];
  commit_subs = 92 ∷ [];
  highest_ts = 100;
  calls = [];
}

abbrev empty_of : ℕ → Store ℕ ℕ ℕ
empty_of node = record {
  node_id = node;
  entries = [];
  subscribers = [];
  commit_subs = [];
  highest_ts = 0;
  calls = [];
}

abbrev received_1 : Dict ℕ (Entry ℕ ℕ)
received_1 = (7, remote) ∷ (9, own) ∷ []

abbrev received_2 : List (ℕ × Entry ℕ ℕ)
received_2 = (9, own) ∷ (7, remote) ∷ (9, own) ∷ []

entries-Distinct : Distinct store_1.entries
unfolding get
entries-Distinct = (refl, (refl, tt))

received-Distinct : Distinct received_1
unfolding get
received-Distinct = (refl, (refl, tt))

merge-newest_example :
    ((k : ℕ)
      → get k (merge received_1 store_1).0.entries
        ≡ newest version_of (get k store_1.entries) (get k received_1))
    × (((merge received_1 store_1).1 ≡ false)
        ↔ ((k : ℕ) → get k (merge received_1 store_1).0.entries ≡ get k store_1.entries))
merge-newest_example = merge-newest received_1 store_1 received-Distinct

same : SameEntries version_of received_1 received_2
same p = (
  λ h. elim h [
    | inl first ↦ inr (inl first)
    | inr (inl second) ↦ inl second
    | inr (inr no_more) ↦ absurd no_more
  ],
  λ h. elim h [
    | inl first ↦ inr (inl first)
    | inr (inl second) ↦ inl second
    | inr (inr (inl third)) ↦ inr (inl third)
    | inr (inr (inr no_more)) ↦ absurd no_more
  ],
)

at_one_key : {a b : Entry ℕ ℕ} (p q : ℕ × Entry ℕ ℕ) (k : ℕ) → p ≡ (k, a) → q ≡ (k, b) → p.0 ≡ q.0
at_one_key p q k h h' = ap (λ r. r.0) h ∙ sym (ap (λ r. r.0) h')

versioned : AllVersioned version_of received_1
versioned k a b (inl h) (inl h') v = sym (ap (λ p. p.1) h) ∙ ap (λ p. p.1) h'
versioned k a b (inl h) (inr (inl h')) v =
    absurd (omega (arith, at_one_key (7, remote) (9, own) k h h'))
versioned k a b (inr (inl h)) (inl h') v =
    absurd (omega (arith, at_one_key (9, own) (7, remote) k h h'))
versioned k a b (inr (inl h)) (inr (inl h')) v = sym (ap (λ p. p.1) h) ∙ ap (λ p. p.1) h'
versioned k a b (inr (inr no_more)) h' v = absurd no_more
versioned k a b (inl h) (inr (inr no_more)) v = absurd no_more
versioned k a b (inr (inl h)) (inr (inr no_more)) v = absurd no_more

merge_converge_example :
    get 7 (merge received_1 (empty_of 3)).0.entries
    ≡ get 7 (merge received_2 (empty_of 4)).0.entries
merge_converge_example =
    merge_converge received_1 received_2 (empty_of 3) (empty_of 4) refl refl same versioned 7

store_1-IsOwner : IsOwner store_1
unfolding get
store_1-IsOwner = record { bounded = λ k a at from_1. ground (arith, at, from_1) }

own_there : get 7 store_1.entries ≡ some own
unfolding get
own_there = refl

set_newer_example : gt (set 9 (some 72) 90 store_1).0.version own.version ≡ true
set_newer_example = set_newer 9 7 (some 72) 90 store_1 own store_1-IsOwner own_there refl

abbrev ahead : Store ℕ ℕ ℕ
ahead = record store_1 { entries = (7, remote) ∷ [] }

remote_there : get 7 ahead.entries ≡ some remote
unfolding get
remote_there = refl

set_lost_example :
    (get 7 (set 7 (some 72) 90 ahead).1.entries ≡ some (set 7 (some 72) 90 ahead).0)
    × (get 7 (merge_entry 7 remote (set 7 (some 72) 90 ahead).1).0.entries ≡ some remote)
set_lost_example = set_lost 7 (some 72) 90 ahead remote remote_there (omega arith) (omega arith)

collect_garbage_lem_example :
    (get 8 (collect_garbage 50 100 store_1).1.entries ≡ swept 100 50 (get 8 store_1.entries))
    × (read 8 none (collect_garbage 50 100 store_1).1 ≡ read 8 none store_1)
    × (contains 8 (collect_garbage 50 100 store_1).1 ≡ contains 8 store_1)
    × (tombstones (collect_garbage 50 100 store_1).1 + (collect_garbage 50 100 store_1).0
        ≡ tombstones store_1)
collect_garbage_lem_example = collect_garbage_lem 50 100 store_1 8 none entries-Distinct

apply_digest-merge_example :
    apply_digest (digest store_1) (empty_of 3)
    ≡ ((merge store_1.entries (empty_of 3)).0, ok (merge store_1.entries (empty_of 3)).1)
apply_digest-merge_example = apply_digest-merge (empty_of 3) store_1

abbrev headless : Sent ℕ ℕ
headless = record { value = some (some 5); ts = none; origin = some 2; deleted = none }

apply_digest_bad_example :
    apply_digest (digest_of received_1 ++ (8, headless) ∷ []) store_1
    ≡ ((merge received_1 store_1).0, raise key_error)
apply_digest_bad_example = apply_digest_bad received_1 8 headless [] store_1 (inl refl)
