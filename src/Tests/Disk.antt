-- ===== src/Tests/Disk.antt =====
-- Recovery of a store of node 1 with two entries.
use suprime.Base.{arith, ℕ, ◌≡◌, refl, true, false, some, none, [], ◌∷◌, ◌++◌}
use suprime.Base.Key.{nat_eq, nat_order}
use suprime.Base.Lists.{length}
use suprime.Base.Result.{ok}
use suprime.Base.Dict.{Dict, Distinct, get}
use suprime.Store.Entries.{Entry}
use suprime.Store.{Store, merge}
use suprime.Persistence.{
  PersistenceManager, no_snapshot, cut, snapshot, attach, log_commit, recover,
}
use suprime.Persistence.Recovery.{log_of, log_all, recover-snapshot, recover_torn}

abbrev kept : Entry ℕ ℕ
kept = record { value = some 70; version = record { ts = 100; origin = 1 }; deleted = false }

abbrev commits : Dict ℕ (Entry ℕ ℕ)
commits = (7, kept) ∷ (8, record kept { value = none; deleted = true }) ∷ []

commits-Distinct : Distinct commits
unfolding get
commits-Distinct = (refl, (refl, tt))

abbrev fresh : Store ℕ ℕ ℕ
fresh = record {
  node_id = 1;
  entries = [];
  subscribers = [];
  commit_subs = [];
  highest_ts = 0;
  calls = [];
}

abbrev full : Store ℕ ℕ ℕ
full = record fresh { entries = commits; highest_ts = 100 }

abbrev manager : PersistenceManager ℕ ℕ
manager = record {
  snapshot_every = 200;
  snapshot_file = no_snapshot;
  wal = some (log_of commits ++ cut ∷ []);
  is_open = false;
  since_snapshot = 0;
}

recover-snapshot_example :
    (get 7 (recover fresh (snapshot full manager)).0.entries ≡ get 7 full.entries)
    × ((recover fresh (snapshot full manager)).1 ≡ ok (length full.entries))
recover-snapshot_example = recover-snapshot full fresh manager 7 commits-Distinct refl

recover_torn_example :
    (recover fresh manager ≡ ((merge commits fresh).0, ok (length commits)))
    × (recover fresh (log_all ((9, kept, full) ∷ []) (log_commit 8 kept full (attach manager)))
        ≡ ((merge commits fresh).0, ok (length commits)))
recover_torn_example =
    recover_torn commits 8 kept full ((9, kept, full) ∷ []) fresh manager refl refl (omega arith)
