-- ===== src/Byzantine.antt =====
-- suprime/byzantine.py: votes weighted by trust. Scores and amounts are naturals in a fixed unit,
-- say a tenth, in which the program's constants are whole; the quorum is a fraction given by its
-- numerator and denominator. `K` are the node ids, `T` the keys that are voted on and `V` the values, of which
-- `None` is none.
pub mod Tally
pub mod Trust
use suprime.Base.{
  ℕ, ◌+◌, ◌-◌, ◌*◌, min, Bool, true, false, Option, none, some, List, [], ◌∷◌, ◌++◌, map, ltb, leb,
  if◌then◌else◌,
}
use suprime.Base.Key.{Eq, ◌==◌}
use suprime.Base.Dict.{Dict, get, put}
use suprime.Base.Dict.Count.{count}

pub record TrustLedger (K : Type 0) : Type 0 where
  pub scores : Dict K ℕ
  pub initial : ℕ
  pub max_score : ℕ

pub record QuorumRegister (K T V : Type 0) : Type 0 where
  pub ledger : TrustLedger K
  pub quorum_num : ℕ
  pub quorum_den : ℕ
  pub votes : Dict T (Dict K V)

-- The node's own state; `sent` are the messages it sends, each with the votes.
pub record ByzantineConsensus (K T V : Type 0) : Type 0 where
  pub id : K
  pub register : QuorumRegister K T V
  pub own_votes : Dict T V
  pub sent : List (K × Dict T V)

abbrev pub or_initial : ℕ → Option ℕ → ℕ
or_initial initial none = initial
or_initial initial (some n) = n

abbrev pub or_empty : {A : Type 0} → Option (List A) → List A
or_empty none = []
or_empty (some xs) = xs

module _ {K : Type 0} ⦃k : Eq K⦄ where
  unfoldable pub score : K → TrustLedger K → ℕ
  unfolding get
  score node_id l = or_initial l.initial (get node_id l.scores)

  -- `max(0.0, score)`, and a score is not negative.
  unfoldable pub weight : K → TrustLedger K → ℕ
  unfolding score
  weight node_id l = score node_id l

  unfoldable pub reward : K → ℕ → TrustLedger K → TrustLedger K
  unfolding score put
  reward node_id amount l = record l {
    scores = put node_id (min l.max_score (score node_id l + amount)) l.scores;
  }

  -- `max(0.0, score - amount)`
  unfoldable pub penalize : K → ℕ → TrustLedger K → TrustLedger K
  unfolding score put
  penalize node_id amount l = record l { scores = put node_id (score node_id l - amount) l.scores }

-- `max(totals.items(), key=...)`: the first with the highest total, after the first one.
unfoldable pub best_of : {V : Type 0} → V × ℕ → Dict V ℕ → V × ℕ
best_of best [] = best
best_of best ((v, n) ∷ totals) =
    let keep = best_of best totals in
    let change = best_of (v, n) totals in if ltb best.1 n then change else keep

module _ {K T V : Type 0} ⦃k : Eq K⦄ ⦃t : Eq T⦄ ⦃e : Eq V⦄ where
  unfoldable pub record_vote : T → K → V → QuorumRegister K T V → QuorumRegister K T V
  unfolding get put
  record_vote key node_id value r = record r {
    votes = put key (put node_id value (or_empty (get key r.votes))) r.votes;
  }

module _ {K V : Type 0} ⦃k : Eq K⦄ ⦃e : Eq V⦄ where
  unfoldable pub total_votes : TrustLedger K → Dict K V → Dict V ℕ × ℕ → Dict V ℕ × ℕ
  unfolding weight count put
  total_votes l [] s = s
  total_votes l ((node_id, value) ∷ votes) (totals, total_weight) =
      let w = weight node_id l in
      total_votes l votes (put value (count value totals + w) totals, total_weight + w)

  -- One voter after another is rewarded or penalised, by the default amounts.
  unfoldable pub settle : V → Dict K V → TrustLedger K → TrustLedger K
  unfolding reward penalize
  settle accepted [] l = l
  settle accepted ((node_id, value) ∷ votes) l =
      settle accepted votes (if value == accepted then reward node_id 2 l else penalize node_id 5 l)

module _ {V : Type 0} where
  abbrev pub decide : ℕ → ℕ → Dict V ℕ × ℕ → Option V
  decide num den ([], total_weight) = none
  decide num den (b ∷ totals, total_weight) =
      let best = best_of b totals in
      if leb total_weight 0
      then none
      else if leb (num * total_weight) (best.1 * den)
      then some best.0
      else none

module _ {T V : Type 0} where
  abbrev is_empty : Dict T V → Bool
  is_empty [] = true
  is_empty (v ∷ vs) = false

module _ {K T V : Type 0} ⦃k : Eq K⦄ ⦃t : Eq T⦄ ⦃e : Eq V⦄ where
  unfoldable pub tally : T → QuorumRegister K T V → Option V
  unfolding get total_votes best_of
  tally key r =
      decide r.quorum_num r.quorum_den (total_votes r.ledger (or_empty (get key r.votes)) ([], 0))

  abbrev pub settle_if : Option V → T → QuorumRegister K T V → QuorumRegister K T V
  settle_if none key r = r
  settle_if (some accepted) key r = record r {
    ledger = settle accepted (or_empty (get key r.votes)) r.ledger;
  }

  unfoldable pub resolve : T → QuorumRegister K T V → Option V × QuorumRegister K T V
  unfolding tally settle get
  resolve key r = (tally key r, settle_if (tally key r) key r)

  -- `vote`
  unfoldable pub vote : T → V → ByzantineConsensus K T V → ByzantineConsensus K T V
  unfolding put record_vote
  vote key value c = record c {
    own_votes = put key value c.own_votes;
    register = record_vote key c.id value c.register;
  }

  unfoldable pub accepted : T → ByzantineConsensus K T V → Option V × ByzantineConsensus K T V
  unfolding resolve
  accepted key c = ((resolve key c.register).0, record c { register = (resolve key c.register).1 })

  unfoldable pub trust : K → ByzantineConsensus K T V → ℕ
  unfolding score
  trust node_id c = score node_id c.register.ledger

  -- `alive` are the ids of the live peers.
  unfoldable pub tick : List K → ByzantineConsensus K T V → ByzantineConsensus K T V
  tick alive c =
      if is_empty c.own_votes
      then c
      else record c { sent = c.sent ++ map (λ peer. (peer, c.own_votes)) alive }

  unfoldable pub on_vote : Dict T V → K → ByzantineConsensus K T V → ByzantineConsensus K T V
  unfolding record_vote
  on_vote [] src c = c
  on_vote ((key, value) ∷ votes) src c =
      on_vote votes src (record c { register = record_vote key src value c.register })
