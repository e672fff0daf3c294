-- ===== src/Crdt/PnCounter.antt =====
-- suprime/crdt.py `PNCounter`: two grow-only counters, of increments and of decrements.
pub mod Merge
use suprime.Base.{ℕ, ◌≡◌, Bool, ◌||◌, Option, none, some, [], arith}
use suprime.Base.Key.{Eq, Blank}
use suprime.Base.Int.{ℤ, sub_ℕ}
use suprime.Base.Result.{Result, ok, ◌>>=◌}
use suprime.Base.Dict.{Dict}
use suprime.Crdt.GCounter
use suprime.Crdt.GCounter.{GCounter}

pub record PnCounter (K : Type 0) : Type 0 where
  pub p : GCounter K
  pub n : GCounter K

-- `{"p": …, "n": …}`, of which a sender may leave either out.
pub record Digest (K : Type 0) : Type 0 where
  pub p : Option (Dict K ℕ)
  pub n : Option (Dict K ℕ)

-- `digest.get("p", {})`
abbrev pub or_empty : {K : Type 0} → Option (Dict K ℕ) → Dict K ℕ
or_empty none = []
or_empty (some d) = d

unfoldable pub init : {K : Type 0} → K → PnCounter K
init node_id = record { p = GCounter.init node_id; n = GCounter.init node_id }

module _ {K : Type 0} ⦃e : Eq K⦄ where
  unfoldable pub increment : ℤ → PnCounter K → Result (PnCounter K)
  increment amount c = GCounter.increment amount c.p >>= λ p. ok (record c { p = p })

  unfoldable pub decrement : ℤ → PnCounter K → Result (PnCounter K)
  decrement amount c = GCounter.increment amount c.n >>= λ n. ok (record c { n = n })

  unfoldable pub value : PnCounter K → ℤ
  value c = sub_ℕ (GCounter.value c.p) (GCounter.value c.n)

  unfoldable pub merge : PnCounter K → PnCounter K → PnCounter K × Bool
  merge c other =
      let (p, a) = GCounter.merge c.p other.p in
      let (n, b) = GCounter.merge c.n other.n in (record { p = p; n = n }, a || b)

  unfoldable pub digest : PnCounter K → Digest K
  digest c = record { p = some (GCounter.digest c.p); n = some (GCounter.digest c.n) }

  unfoldable pub apply_digest : ⦃b : Blank K⦄ → PnCounter K → Digest K → PnCounter K × Bool
  apply_digest c sent =
      let (p, a) = GCounter.apply_digest c.p (or_empty sent.p) in
      let (n, b) = GCounter.apply_digest c.n (or_empty sent.n) in (record { p = p; n = n }, a || b)
