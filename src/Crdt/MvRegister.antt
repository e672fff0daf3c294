-- ===== src/Crdt/MvRegister.antt =====
-- suprime/crdt.py `MVRegister`: the writes that no other write causally follows.
pub mod Clocks
pub mod Turn
pub mod Merge
use suprime.Base.{
  ℕ, zero, suc, ◌+◌, Bool, true, false, ◌&&◌, not, Option, none, some, List, [], ◌∷◌, ◌++◌, map,
  if◌then◌else◌, nat_beq,
}
use suprime.Base.Key.{Eq, ◌==◌, nat_eq, Blank}
use suprime.Base.Lists.{length}
use suprime.Base.Sets.{member}
use suprime.Base.Dict.{Dict, get}
use suprime.Crdt.VectorClock
use suprime.Crdt.VectorClock.{VectorClock, Verdict, before, after, equal, concurrent}

abbrev pub Write : Type 0 → Type 0 → Type 0
Write K V = V × VectorClock K

pub record MvRegister (K V : Type 0) : Type 0 where
  pub node_id : K
  pub vc : VectorClock K
  pub versions : List (Write K V)

unfoldable pub init : {K V : Type 0} → K → MvRegister K V
init node_id = record { node_id = node_id; vc = record { clock = [] }; versions = [] }

module _ {K V : Type 0} where
  unfoldable pub values : MvRegister K V → List V
  values r = map (λ w. w.0) r.versions

  abbrev pub is_empty : List (Write K V) → Bool
  is_empty [] = true
  is_empty (w ∷ ws) = false

  -- `[k for i, k in enumerate(kept) if i not in to_remove]`, from the index `i` on
  unfoldable pub without : List ℕ → ℕ → List (Write K V) → List (Write K V)
  unfolding member
  without to_remove i [] = []
  without to_remove i (w ∷ kept) =
      let rest = without to_remove (suc i) kept in if member i to_remove then rest else w ∷ rest

abbrev pub is_count : Option ℕ → ℕ → Bool
is_count none n = false
is_count (some m) n = nat_beq m n

module _ {K : Type 0} ⦃k : Eq K⦄ where
  unfoldable pub all_found : Dict K ℕ → Dict K ℕ → Bool
  unfolding get
  all_found [] d = true
  all_found ((j, n) ∷ c) d = is_count (get j d) n && all_found c d

  -- `==` of two dictionaries: as many entries, and each of the one in the other.
  unfoldable pub same_dict : Dict K ℕ → Dict K ℕ → Bool
  unfolding all_found
  same_dict c d = nat_beq (length c) (length d) && all_found c d

module _ {K V : Type 0} ⦃k : Eq K⦄ ⦃v : Eq V⦄ where
  unfoldable pub set : V → MvRegister K V → MvRegister K V
  unfolding VectorClock.increment
  set value r =
      let vc = VectorClock.increment r.node_id r.vc in
      record r { vc = vc; versions = (value, vc) ∷ [] }

  unfoldable pub is_duplicate : Write K V → Write K V → Bool
  unfolding same_dict
  is_duplicate w q = w.0 == q.0 && same_dict w.1.clock q.1.clock

  -- The inner loop: the indices to remove, from the index `i` on, or `none` if the write is
  -- dominated or a duplicate.
  unfoldable pub scan : Write K V → ℕ → List (Write K V) → List ℕ → Option (List ℕ)
  unfolding is_duplicate
  scan w i [] to_remove = some to_remove
  scan w i (q ∷ kept) to_remove =
      let go_on = scan w (suc i) kept to_remove in
      let removing = scan w (suc i) kept (i ∷ to_remove) in
      if is_duplicate w q then none else elim (VectorClock.compare w.1 q.1) [
        | before ↦ none
        | after ↦ removing
        | equal ↦ go_on
        | concurrent ↦ go_on
      ]

  abbrev pub kept_after : Write K V → List (Write K V) → Option (List ℕ) → List (Write K V)
  kept_after w kept none = kept
  kept_after w kept (some to_remove) = without to_remove 0 kept ++ w ∷ []

  -- One turn of the outer loop.
  unfoldable pub turn : List (Write K V) → Write K V → List (Write K V)
  unfolding scan without
  turn kept w = kept_after w kept (scan w 0 kept [])

  unfoldable pub maxima : List (Write K V) → List (Write K V) → List (Write K V)
  unfolding turn
  maxima kept [] = kept
  maxima kept (w ∷ combined) = maxima (turn kept w) combined

  -- `changed` compares the objects' identities: the kept pairs are new objects, so the two sets of
  -- identities are equal only if both are empty; and the lengths are compared after the assignment.
  unfoldable pub merge : MvRegister K V → MvRegister K V → MvRegister K V × Bool
  unfolding maxima VectorClock.merge
  merge r other =
      let kept = maxima [] (r.versions ++ other.versions) in
      (
        record r { versions = kept; vc = VectorClock.merge r.vc other.vc },
        not (is_empty kept && is_empty r.versions),
      )

-- `{"versions": …, "vc": …}`, of which a sender may leave either out.
pub record Digest (K V : Type 0) : Type 0 where
  pub versions : Option (List (V × Dict K ℕ))
  pub vc : Option (Dict K ℕ)

abbrev pub or_empty {ℓ} : {A : Type ℓ} → Option (List A) → List A
or_empty none = []
or_empty (some xs) = xs

module _ {K V : Type 0} where
  unfoldable pub digest : MvRegister K V → Digest K V
  digest r = record {
    versions = some (map (λ w. (w.0, w.1.clock)) r.versions);
    vc = some r.vc.clock;
  }

  unfoldable pub read_versions : List (V × Dict K ℕ) → List (Write K V)
  read_versions [] = []
  read_versions ((value, clock) ∷ sent) = (value, record { clock = clock }) ∷ read_versions sent

module _ {K V : Type 0} ⦃k : Eq K⦄ ⦃v : Eq V⦄ where
  unfoldable pub apply_digest : ⦃b : Blank K⦄ → MvRegister K V → Digest K V → MvRegister K V × Bool
  unfolding read_versions
  apply_digest ⦃b⦄ r sent = merge r (record {
    node_id = b.blank;
    vc = record { clock = or_empty sent.vc };
    versions = read_versions (or_empty sent.versions);
  })
