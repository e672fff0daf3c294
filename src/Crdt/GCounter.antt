-- ===== src/Crdt/GCounter.antt =====
-- suprime/crdt.py `GCounter`: per-node counts; the value is their sum.
pub mod Merge
pub mod View
use suprime.Base.{[], ℕ, ◌+◌, ◌≡◌, Bool, true, false, Option, arith, ltb, if◌then◌else◌}
use suprime.Base.Key.{Eq, ◌==◌, Blank}
use suprime.Base.Int.{ℤ, pos, negsuc}
use suprime.Base.Result.{Result, ok, raise, value_error}
use suprime.Base.Dict.{Dict, put}
use suprime.Base.Dict.Count.{count, or_zero, total}
use suprime.Base.Dict.Merge.{merge_loop}

pub record GCounter (K : Type 0) : Type 0 where
  pub node_id : K
  pub counts : Dict K ℕ

-- `count > self._counts.get(node, 0)`
unfoldable pub larger : Option ℕ → ℕ → Bool
larger cur n = ltb (or_zero cur) n

unfoldable pub init : {K : Type 0} → K → GCounter K
init node_id = record { node_id = node_id; counts = [] }

module _ {K : Type 0} ⦃e : Eq K⦄ where
  unfoldable pub increment : ℤ → GCounter K → Result (GCounter K)
  unfolding count put
  increment (negsuc n) c = raise value_error
  increment (pos n) c =
      ok (record c { counts = put c.node_id (count c.node_id c.counts + n) c.counts })

  unfoldable pub value : GCounter K → ℕ
  unfolding total
  value c = total c.counts

  -- The counter after the merge, and whether it changed.
  unfoldable pub merge : GCounter K → GCounter K → GCounter K × Bool
  unfolding merge_loop larger
  merge c other =
      let (counts, changed) = merge_loop larger (c.counts, false) other.counts in
      (record c { counts = counts }, changed)

  unfoldable pub digest : GCounter K → Dict K ℕ
  digest c = c.counts

  -- A peer is rebuilt from the digest, under the id `""`, and merged.
  unfoldable pub apply_digest : ⦃b : Blank K⦄ → GCounter K → Dict K ℕ → GCounter K × Bool
  unfolding merge init
  apply_digest ⦃b⦄ c sent = merge c (record (init b.blank) { counts = sent })
