-- ===== src/AntiEntropy/Buckets.antt =====
-- The buckets that `diff_buckets` names, and the fingerprint that a bucket gets.
use Prim.Native.String.{String}
use suprime.Base.{ℕ, ◌≡◌, refl, ◌&&◌, ◌||◌, not, Option, none, some, List, [], ◌∷◌, arith}
use suprime.Base.Key.{Eq, nat_eq, string_eq, string_order}
use suprime.Base.Sets.{member, add, member-add}
use suprime.Base.Sort.{sorted}
use suprime.Base.Dict.{Dict, get, has, has-get}
use suprime.AntiEntropy.{
  Hashing, join_lines, fingerprints, differ, mine_differ, only_remote, diff_buckets,
}

module _ {F : Type 0} ⦃f : Eq F⦄ where
  member-mine_differ :
      (b : ℕ) (keys mine remote : Dict ℕ F) (found : List ℕ)
      → member b (mine_differ keys mine remote found)
        ≡ (member b found || (has b keys && differ (get b mine) (get b remote)))
  unfolding mine_differ has
  member-mine_differ b [] mine remote found = ground arith
  member-mine_differ b ((j, x) ∷ keys) mine remote found = ground (
    arith,
    member-mine_differ b keys mine remote found,
    member-mine_differ b keys mine remote (add j found),
    member-add j b found,
    nat_eq.beq_iff j b,
  )

  member-only_remote :
      (b : ℕ) (remote mine : Dict ℕ F) (found : List ℕ)
      → member b (only_remote remote mine found)
        ≡ (member b found || (has b remote && not (has b mine)))
  unfolding only_remote has
  member-only_remote b [] mine found = ground arith
  member-only_remote b ((j, x) ∷ remote) mine found = ground (
    arith,
    member-only_remote b remote mine found,
    member-only_remote b remote mine (add j found),
    member-add j b found,
    nat_eq.beq_iff j b,
  )

  -- A bucket is named exactly when its fingerprints differ or one side has none.
  pub member-diff_buckets :
      (b : ℕ) (mine remote : Dict ℕ F)
      → member b (diff_buckets mine remote) ≡ differ (get b mine) (get b remote)
  unfolding diff_buckets member
  member-diff_buckets b mine remote = ground (
    arith,
    member-only_remote b remote mine (mine_differ mine mine remote []),
    member-mine_differ b mine mine remote [],
    has-get b mine,
    has-get b remote,
  )

module _ {F : Type 0} (h : Hashing F) where
  abbrev pub marked : Option (List String) → Option F
  marked none = none
  marked (some items) = some (h.fingerprint (join_lines (sorted items)))

  pub get-fingerprints :
      (b : ℕ) (d : Dict ℕ (List String)) → get b (fingerprints h d) ≡ marked (get b d)
  unfolding fingerprints get
  get-fingerprints b [] = refl
  get-fingerprints b ((j, items) ∷ d) = ground (arith, get-fingerprints b d)
