-- ===== src/Persistence.antt =====
-- suprime/persistence.py: the write-ahead log and the snapshot of a store. The directory is part of
-- the state: a file that is not there, a file with text that is not JSON, and lines of the log. What
-- is written is on the disk at once, and reading back gives what was written.
pub mod Recovery
use suprime.Base.{
  ℕ, ◌+◌, Bool, true, false, Option, none, some, List, [], ◌∷◌, ◌++◌, leb, if◌then◌else◌,
}
use suprime.Base.Key.{Eq, Order}
use suprime.Base.Result.{Result, ok, raise}
use suprime.Base.Lists.{length}
use suprime.Base.Dict.{Dict}
use suprime.Store.Entries.{Entry}
use suprime.Store.{Store, merge_entry}
use suprime.Store.Wire.{Sent, to_dict, from_dict, digest, apply_digest}

-- A file that holds one JSON value.
pub data Snapshot (K V : Type 0) : Type 0 where
  no_snapshot corrupt : Snapshot K V
  written : Dict K (Sent K V) → Snapshot K V

-- A line of the log: empty, not JSON, or a record. The last one may lack its newline after a crash:
-- `cut` is a part of a record, and `unended` a record without its newline.
pub data Line (K V : Type 0) : Type 0 where
  blank torn cut : Line K V
  logged unended : K → Sent K V → Line K V

-- `wal` is `none` when there is no log file; `is_open` says whether the append handle is there.
pub record PersistenceManager (K V : Type 0) : Type 0 where
  pub snapshot_every : ℕ
  pub snapshot_file : Snapshot K V
  pub wal : Option (List (Line K V))
  pub is_open : Bool
  pub since_snapshot : ℕ

-- The constructor, over what the directory holds.
unfoldable pub init :
    {K V : Type 0} → ℕ → Snapshot K V → Option (List (Line K V)) → PersistenceManager K V
init snapshot_every snapshot_file wal = record {
  snapshot_every = snapshot_every;
  snapshot_file = snapshot_file;
  wal = wal;
  is_open = false;
  since_snapshot = 0;
}

abbrev pub lines : {K V : Type 0} → Option (List (Line K V)) → List (Line K V)
lines none = []
lines (some ls) = ls

module _ {K V : Type 0} where
  unfoldable pub attach : PersistenceManager K V → PersistenceManager K V
  attach m = record m { wal = some (lines m.wal); is_open = true }

  abbrev count_records : List (Line K V) → ℕ
  count_records [] = 0
  count_records (blank ∷ ls) = count_records ls
  count_records (torn ∷ ls) = 1 + count_records ls
  count_records (cut ∷ ls) = 1 + count_records ls
  count_records (logged k a ∷ ls) = 1 + count_records ls
  count_records (unended k a ∷ ls) = 1 + count_records ls

  -- What is appended to a line without a newline becomes part of it, and the two are not JSON.
  abbrev pub glued : Line K V → Line K V → List (Line K V)
  glued blank l = blank ∷ l ∷ []
  glued torn l = torn ∷ l ∷ []
  glued cut l = torn ∷ []
  glued (logged k a) l = logged k a ∷ l ∷ []
  glued (unended k a) l = torn ∷ []

  unfoldable pub append_line : List (Line K V) → Line K V → List (Line K V)
  append_line [] l = l ∷ []
  append_line (x ∷ []) l = glued x l
  append_line (x ∷ y ∷ ls) l = x ∷ append_line (y ∷ ls) l

  unfoldable pub wal_size : PersistenceManager K V → ℕ
  wal_size m = count_records (lines m.wal)

  unfoldable pub close : PersistenceManager K V → PersistenceManager K V
  close m = record m { is_open = false }

module _ {K V C : Type 0} where
  unfoldable pub snapshot : Store K V C → PersistenceManager K V → PersistenceManager K V
  unfolding digest
  snapshot s m = record m {
    snapshot_file = written (digest s);
    wal = some [];
    is_open = true;
    since_snapshot = 0;
  }

  -- `s` is the store at the time of the commit, and the log is open.
  unfoldable pub log_commit :
      K → Entry K V → Store K V C → PersistenceManager K V → PersistenceManager K V
  unfolding to_dict snapshot append_line
  log_commit key entry s m =
      let n = record m {
        wal = some (append_line (lines m.wal) (logged key (to_dict entry)));
        since_snapshot = m.since_snapshot + 1;
      } in
      if leb n.snapshot_every n.since_snapshot then snapshot s n else n

-- A count after an exception is the exception.
abbrev pub counted : Result Bool → ℕ → Result ℕ
counted (raise err) n = raise err
counted (ok changed) n = ok n

module _ {K V C : Type 0} ⦃e : Eq K⦄ ⦃o : Order K⦄ where
  -- Reading the log, from a count: the first line that is not JSON ends it, and a record without a
  -- timestamp or an origin raises.
  unfoldable pub replay : List (Line K V) → Store K V C → ℕ → Store K V C × Result ℕ
  unfolding from_dict merge_entry
  replay [] s n = (s, ok n)
  replay (blank ∷ ls) s n = replay ls s n
  replay (torn ∷ ls) s n = (s, ok n)
  replay (cut ∷ ls) s n = (s, ok n)
  replay (unended k sent ∷ ls) s n = elim (from_dict sent) [
    | raise err ↦ (s, raise err)
    | ok a ↦ replay ls (merge_entry k a s).0 (n + 1)
  ]
  replay (logged k sent ∷ ls) s n = elim (from_dict sent) [
    | raise err ↦ (s, raise err)
    | ok a ↦ replay ls (merge_entry k a s).0 (n + 1)
  ]

  abbrev pub replay_after : List (Line K V) → Store K V C × Result ℕ → Store K V C × Result ℕ
  replay_after ls (s, raise err) = (s, raise err)
  replay_after ls (s, ok n) = replay ls s n

  abbrev pub load : Snapshot K V → Store K V C → Store K V C × Result ℕ
  load no_snapshot s = (s, ok 0)
  load corrupt s = (s, ok 0)
  load (written d) s = let (s', answer) = apply_digest d s in (s', counted answer (length d))

  unfoldable pub recover : Store K V C → PersistenceManager K V → Store K V C × Result ℕ
  unfolding apply_digest replay
  recover s m = replay_after (lines m.wal) (load m.snapshot_file s)
