-- ===== src/Persistence/Recovery.antt =====
-- What recovery restores from a snapshot, and from a log whose last line is torn.
use mathlib.Core.Path.{subst}
use suprime.Base.{
  ◌<◌, sym, leb, ℕ, suc, ◌+◌, ◌≡◌, refl, ap, ◌∙◌, Bool, true, false, Option, none, some, List, [],
  ◌∷◌, ◌++◌, arith, if◌then◌else◌,
}
use suprime.Base.Key.{Eq, Order}
use suprime.Base.Result.{ok}
use suprime.Base.Lists.{length}
use suprime.Base.Dict.{Dict, Distinct, get}
use suprime.Base.Dict.Merge.{pick}
use suprime.Version.Newest.{newest, newer}
use suprime.Store.Entries.{Entry, version_of}
use suprime.Store.{Store, merge, merge_from, merge_entry}
use suprime.Store.Merge.{merge-newest}
use suprime.Store.Wire.{to_dict, from_dict, digest, digest_of, apply_digest-merge}
use suprime.Persistence.{
  written, no_snapshot, Line, torn, cut, logged, append_line, lines, attach, log_commit,
  PersistenceManager, counted, snapshot, replay, replay_after, load, recover,
}

module _ {K V : Type 0} where
  length-digest_of : (d : Dict K (Entry K V)) → length (digest_of d) ≡ length d
  unfolding digest_of
  length-digest_of [] = refl
  length-digest_of ((k, a) ∷ d) = ap suc (length-digest_of d)

  -- The lines that the commits of `d` write.
  abbrev pub log_of : List (K × Entry K V) → List (Line K V)
  log_of [] = []
  log_of ((k, a) ∷ d) = logged k (to_dict a) ∷ log_of d

module _ {K V : Type 0} ⦃e : Eq K⦄ ⦃o : Order K⦄ where
  newest-none : (k : K) (a : Option (Entry K V)) → newest version_of (get k []) a ≡ a
  unfolding get pick newer
  newest-none k none = refl
  newest-none k (some a) = refl

module _ {K V C : Type 0} ⦃e : Eq K⦄ ⦃o : Order K⦄ where
  length-digest : (s : Store K V C) → length (digest s) ≡ length s.entries
  unfolding digest
  length-digest s = length-digest_of s.entries

  load-digest :
      (s fresh : Store K V C)
      → load (written (digest s)) fresh ≡ ((merge s.entries fresh).0, ok (length s.entries))
  load-digest s fresh =
      ap (λ p. (p.0, counted p.1 (length (digest s)))) (apply_digest-merge fresh s)
      ∙ ap (λ n. ((merge s.entries fresh).0, ok n)) (length-digest s)

  get-merge_fresh :
      (s fresh : Store K V C) (k : K)
      → Distinct s.entries
      → fresh.entries ≡ []
      → get k (merge s.entries fresh).0.entries ≡ get k s.entries
  get-merge_fresh s fresh k h empty =
      (merge-newest s.entries fresh h).0 k
      ∙ ap (λ d. newest version_of (get k d) (get k s.entries)) empty
      ∙ newest-none k (get k s.entries)

  -- A store without entries that recovers from a snapshot, of a store with distinct keys, holds at
  -- each key what the store held that was written, and reports the number of its entries.
  pub recover-snapshot :
      (s fresh : Store K V C) (m : PersistenceManager K V) (k : K)
      → Distinct s.entries
      → fresh.entries ≡ []
      → (get k (recover fresh (snapshot s m)).0.entries ≡ get k s.entries)
        × ((recover fresh (snapshot s m)).1 ≡ ok (length s.entries))
  unfolding recover snapshot replay
  recover-snapshot s fresh m k h empty =
      let at = load-digest s fresh in
      (
        ap (λ p. get k (replay_after [] p).0.entries) at ∙ get-merge_fresh s fresh k h empty,
        ap (λ p. (replay_after [] p).1) at,
      )

  replay-log_of :
      (d : List (K × Entry K V)) (rest : List (Line K V)) (s : Store K V C) (c : Bool) (n : ℕ)
      → replay (log_of d ++ torn ∷ rest) s n ≡ ((merge_from (s, c) d).0, ok (n + length d))
  unfolding replay merge_from from_dict to_dict
  replay-log_of [] rest s c n = ap (λ i. (s, ok i)) (omega arith)
  replay-log_of ((k, a) ∷ d) rest s c n =
      replay-log_of d rest (merge_entry k a s).0 (if (merge_entry k a s).1 then true else c) (n + 1)
      ∙ ap
          (λ i. (
            (merge_from ((merge_entry k a s).0, if (merge_entry k a s).1 then true else c) d).0,
            ok i,
          ))
          (omega arith)

  replay-cut :
      (d : List (K × Entry K V)) (s : Store K V C) (c : Bool) (n : ℕ)
      → replay (log_of d ++ cut ∷ []) s n ≡ ((merge_from (s, c) d).0, ok (n + length d))
  unfolding replay merge_from from_dict to_dict
  replay-cut [] s c n = ap (λ i. (s, ok i)) (omega arith)
  replay-cut ((k, a) ∷ d) s c n =
      replay-cut d (merge_entry k a s).0 (if (merge_entry k a s).1 then true else c) (n + 1)
      ∙ ap
          (λ i. (
            (merge_from ((merge_entry k a s).0, if (merge_entry k a s).1 then true else c) d).0,
            ok i,
          ))
          (omega arith)

module _ {K V : Type 0} where
  append_line-append :
      (xs ys : List (Line K V)) (y l : Line K V)
      → append_line (xs ++ y ∷ ys) l ≡ xs ++ append_line (y ∷ ys) l
  unfolding append_line
  append_line-append [] ys y l = refl
  append_line-append (x ∷ []) ys y l = refl
  append_line-append (x ∷ z ∷ xs) ys y l = ap (λ ls. x ∷ ls) (append_line-append (z ∷ xs) ys y l)

  -- A torn line stays where it is.
  append_line-torn :
      (ys : List (Line K V)) (l : Line K V)
      → (rest : List (Line K V)) × (append_line (torn ∷ ys) l ≡ torn ∷ rest)
  unfolding append_line
  append_line-torn [] l = (l ∷ [], refl)
  append_line-torn (y ∷ ys) l = (append_line (y ∷ ys) l, refl)

  -- The first line that is torn stays first, whatever is logged.
  abbrev IsTorn : List (K × Entry K V) → PersistenceManager K V → Type 0
  IsTorn d m =
      (m.snapshot_file ≡ no_snapshot)
      × ((rest : List (Line K V)) × (m.wal ≡ some (log_of d ++ torn ∷ rest)))

module _ {K V C : Type 0} where
  -- Commits one after another, each with the store at its time, and no snapshot in between.
  abbrev pub log_all :
      List (K × Entry K V × Store K V C) → PersistenceManager K V → PersistenceManager K V
  log_all [] m = m
  log_all ((k, a, s) ∷ commits) m = log_all commits (log_commit k a s m)

  -- The log after a commit that takes no snapshot.
  log_commit_lem :
      (k : K) (a : Entry K V) (s : Store K V C) (m : PersistenceManager K V)
      → m.since_snapshot + 1 < m.snapshot_every
      → log_commit k a s m ≡ record m {
        wal = some (append_line (lines m.wal) (logged k (to_dict a)));
        since_snapshot = m.since_snapshot + 1;
      }
  unfolding log_commit
  log_commit_lem k a s m few =
      let waits : leb m.snapshot_every (m.since_snapshot + 1) ≡ false = ground (arith, few) in
      rw waits refl

  log_all-IsTorn :
      (d : List (K × Entry K V)) (commits : List (K × Entry K V × Store K V C))
      (m : PersistenceManager K V)
      → IsTorn d m
      → m.since_snapshot + length commits < m.snapshot_every
      → IsTorn d (log_all commits m)
  log_all-IsTorn d [] m h few = h
  log_all-IsTorn d ((k, a, s) ∷ commits) m (no_file, (rest, log)) few =
      let m' : PersistenceManager K V = record m {
        wal = some (append_line (lines m.wal) (logged k (to_dict a)));
        since_snapshot = m.since_snapshot + 1;
      } in
      let is = log_commit_lem k a s m (omega (arith, few)) in
      let (rest', more) = append_line-torn rest (logged k (to_dict a)) in
      let log' : m'.wal ≡ some (log_of d ++ torn ∷ rest') =
        ap (λ w. some (append_line (lines w) (logged k (to_dict a)))) log
        ∙ ap some (append_line-append (log_of d) rest torn (logged k (to_dict a)))
        ∙ ap (λ ls. some (log_of d ++ ls)) more in
      subst (λ n. IsTorn d (log_all commits n)) (sym is)
        (log_all-IsTorn d commits m' (no_file, (rest', log')) (omega (arith, few)))

  -- The first commit after a crash makes the part of a record a torn line.
  log_commit-IsTorn :
      (d : List (K × Entry K V)) (k : K) (a : Entry K V) (s : Store K V C)
      (m : PersistenceManager K V)
      → m.snapshot_file ≡ no_snapshot
      → m.wal ≡ some (log_of d ++ cut ∷ [])
      → m.since_snapshot + 1 < m.snapshot_every
      → IsTorn d (log_commit k a s (attach m))
  unfolding attach append_line
  log_commit-IsTorn d k a s m no_file log few =
      subst (IsTorn d) (sym (log_commit_lem k a s (attach m) few)) (
        no_file,
        (
          [],
          ap (λ w. some (append_line (lines w) (logged k (to_dict a)))) log
              ∙ ap some (append_line-append (log_of d) [] cut (logged k (to_dict a))),
        ),
      )

module _ {K V C : Type 0} ⦃e : Eq K⦄ ⦃o : Order K⦄ where
  recover-IsTorn :
      (d : List (K × Entry K V)) (s : Store K V C) (m : PersistenceManager K V)
      → IsTorn d m
      → recover s m ≡ ((merge d s).0, ok (length d))
  unfolding recover merge
  recover-IsTorn d s m (no_file, (rest, log)) =
      rw (no_file, log)
        (replay-log_of d rest s false 0
          ∙ ap (λ i. ((merge_from (s, false) d).0, ok i)) (omega arith))

  -- A crash in the middle of an append leaves a part of a record without a newline: recovery from
  -- such a log, without a snapshot, merges every commit before it, counts them and does not raise;
  -- and once the log is attached again, recovery gives no more than that however many commits
  -- follow, as long as they are too few for a snapshot.
  pub recover_torn :
      (d : List (K × Entry K V)) (k : K) (a : Entry K V) (now : Store K V C)
      (commits : List (K × Entry K V × Store K V C)) (s : Store K V C) (m : PersistenceManager K V)
      → m.snapshot_file ≡ no_snapshot
      → m.wal ≡ some (log_of d ++ cut ∷ [])
      → m.since_snapshot + 1 + length commits < m.snapshot_every
      → (recover s m ≡ ((merge d s).0, ok (length d)))
        × (recover s (log_all commits (log_commit k a now (attach m)))
            ≡ ((merge d s).0, ok (length d)))
  unfolding recover merge attach
  recover_torn d k a now commits s m no_file log few =
      let m' = log_commit k a now (attach m) in
      let is = log_commit_lem k a now (attach m) (omega (arith, few)) in
      let since : m'.since_snapshot ≡ m.since_snapshot + 1 = ap (λ n. n.since_snapshot) is in
      let every : m'.snapshot_every ≡ m.snapshot_every = ap (λ n. n.snapshot_every) is in
      (
        rw (no_file, log)
            (replay-cut d s false 0 ∙ ap (λ i. ((merge_from (s, false) d).0, ok i)) (omega arith)),
        recover-IsTorn d s (log_all commits m') (
            log_all-IsTorn d commits m'
              (log_commit-IsTorn d k a now m no_file log (omega (arith, few)))
              (omega (arith, few, since, every))),
      )
