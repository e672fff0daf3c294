-- ===== src/Byzantine/Trust.antt =====
-- Scores stay within the limits of the ledger.
use suprime.Base.{
  ℕ, ◌+◌, ◌-◌, ◌≤◌, min, Bool, true, false, Option, none, some, [], ◌∷◌, arith, if◌then◌else◌,
}
use suprime.Base.Key.{Eq, ◌==◌}
use suprime.Base.Dict.{Dict, get, get-put}
use suprime.Byzantine.{
  TrustLedger, QuorumRegister, or_empty, score, reward, penalize, settle, settle_if, tally, resolve,
}

module _ {K : Type 0} ⦃k : Eq K⦄ where
  -- No score is above the limit, that of an unknown node included.
  abbrev pub IsLedger : TrustLedger K → Type 0
  IsLedger l = (n : K) → score n l ≤ l.max_score

  reward-IsLedger :
      (n : K) (amount : ℕ) (l : TrustLedger K) → IsLedger l → IsLedger (reward n amount l)
  unfolding reward score
  reward-IsLedger n amount l h j =
      let raised = min l.max_score (score n l + amount) in
      ground (arith, h j, get-put n j raised l.scores)

  penalize-IsLedger :
      (n : K) (amount : ℕ) (l : TrustLedger K) → IsLedger l → IsLedger (penalize n amount l)
  unfolding penalize score
  penalize-IsLedger n amount l h j =
      ground (arith, h j, h n, get-put n j (score n l - amount) l.scores)

module _ {K V : Type 0} ⦃k : Eq K⦄ ⦃e : Eq V⦄ where
  settle-IsLedger :
      (a : V) (votes : Dict K V) (l : TrustLedger K) → IsLedger l → IsLedger (settle a votes l)
  unfolding settle
  settle-IsLedger a [] l h = h
  settle-IsLedger a ((n, v) ∷ votes) l h =
      settle-IsLedger a votes (if v == a then reward n 2 l else penalize n 5 l) (turn (v == a))
    where
      turn : (b : Bool) → IsLedger (if b then reward n 2 l else penalize n 5 l)
      turn true = reward-IsLedger n 2 l h
      turn false = penalize-IsLedger n 5 l h

module _ {K T V : Type 0} ⦃k : Eq K⦄ ⦃t : Eq T⦄ ⦃e : Eq V⦄ where
  settled :
      (o : Option V) (key : T) (r : QuorumRegister K T V)
      → IsLedger r.ledger
      → IsLedger (settle_if o key r).ledger
  settled none key r h = h
  settled (some a) key r h = settle-IsLedger a (or_empty (get key r.votes)) r.ledger h

  -- Where no score is above the ledger's limit, settling a vote keeps it so, as do a reward and a
  -- penalty of any amount.
  pub scores-IsLedger :
      (key : T) (n : K) (amount : ℕ) (r : QuorumRegister K T V)
      → IsLedger r.ledger
      → IsLedger (resolve key r).1.ledger
        × IsLedger (reward n amount r.ledger)
        × IsLedger (penalize n amount r.ledger)
  unfolding resolve
  scores-IsLedger key n amount r h = (
    settled (tally key r) key r h,
    reward-IsLedger n amount r.ledger h,
    penalize-IsLedger n amount r.ledger h,
  )
