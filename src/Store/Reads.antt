-- ===== src/Store/Reads.antt =====
-- What a write and a deletion show to readers of a `DistributedStore`, and to its subscribers.
use suprime.Base.{
  ℕ, ◌≡◌, ◌↔◌, refl, true, false, Option, none, some, ◌++◌, map, arith, if◌then◌else◌,
}
use suprime.Base.Key.{Eq, ◌==◌, ==_refl}
use suprime.Base.Dict.{get, get-put, has-get}
use suprime.Store.Entries.{Entry}
use suprime.Store.{
  Store, notified, committed, next_version, commit, notify, emit_commit, set, delete, read,
  contains,
}

module _ {K V C : Type 0} ⦃e : Eq K⦄ where
  -- After a write its key reads as the value and is contained; every other key is as before.
  pub read-set :
      (key k : K) (value default : Option V) (now : ℕ) (s : Store K V C)
      → (read k default (set key value now s).1 ≡ (if key == k then value else read k default s))
        × (contains k (set key value now s).1 ≡ (if key == k then true else contains k s))
  unfolding read contains set commit notify emit_commit
  read-set key k value default now s =
      let p = get-put key k (set key value now s).0 s.entries in
      (ground (arith, p), ground (arith, p))

  -- After a deletion its key reads as the default and is not contained; every other key is as
  -- before. The answer is `None` exactly when the key was never written.
  pub read-delete :
      (key k : K) (default : Option V) (now : ℕ) (s : Store K V C)
      → (read k default (delete key now s).1 ≡ (if key == k then default else read k default s))
        × (contains k (delete key now s).1 ≡ (if key == k then false else contains k s))
        × (((delete key now s).0 ≡ none) ↔ (get key s.entries ≡ none))
  unfolding read contains delete commit notify emit_commit
  read-delete key k default now s =
      let gone : Entry K V = record {
        value = none;
        version = (next_version now s).0;
        deleted = true;
      } in
      let p = get-put key k gone s.entries in
      let h = has-get key s.entries in
      (
        ground (arith, p, h, e.beq_iff key k),
        ground (arith, p, h, e.beq_iff key k),
        ground (arith, h),
      )

  -- A write calls every subscriber with the value and then every commit hook with the entry that
  -- is stored, each once and in the order of registration, and nothing else.
  pub calls-set :
      (key : K) (value : Option V) (now : ℕ) (s : Store K V C)
      → ((set key value now s).1.calls
          ≡ (s.calls ++ map (λ callback. notified callback key value) s.subscribers)
            ++ map (λ callback. committed callback key (set key value now s).0) s.commit_subs)
        × (get key (set key value now s).1.entries ≡ some (set key value now s).0)
  unfolding set commit notify emit_commit
  calls-set key value now s =
      (refl, ground (arith, get-put key key (set key value now s).0 s.entries, ==_refl key))
