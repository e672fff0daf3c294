-- ===== src/Tests/Syncs.antt =====
-- A replicator of one CRDT, a number that merges by the larger; the peers are 2 and 3.
use suprime.Base.{ℕ, ◌≡◌, refl, max, not, List, [], ◌∷◌}
use suprime.Base.Key.{◌==◌, nat_eq, string_eq}
use suprime.Base.Dict.{Distinct, get}
use suprime.Replicate.{Crdt, CrdtReplicator, tick}
use suprime.Replicate.Quiet.{tick_quiet}

abbrev largest : Crdt ℕ ℕ ℕ
largest = record {
  digest = λ r. r;
  apply_digest = λ d r. (max d r, not (max d r == r));
  repr = λ d. d;
}

abbrev first_of : List ℕ → ℕ → List ℕ
first_of peers n = peers

abbrev replicator : CrdtReplicator ℕ ℕ ℕ ℕ ℕ
replicator = record {
  fanout = 2;
  crdts = ("hits", 7) ∷ [];
  on_change = [];
  last_sent = [];
  full_sync_every = 20;
  ticks = 3;
  syncs_sent = 0;
  syncs_received = 0;
  sent = [];
  calls = [];
}

crdts-Distinct : Distinct replicator.crdts
unfolding get
crdts-Distinct = (refl, tt)

tick_quiet_example :
    (tick largest first_of (2 ∷ 3 ∷ []) (tick largest first_of (2 ∷ []) replicator).0).0.sent
    ≡ (tick largest first_of (2 ∷ []) replicator).0.sent
tick_quiet_example =
    tick_quiet largest first_of (2 ∷ []) (2 ∷ 3 ∷ []) replicator crdts-Distinct refl refl refl
