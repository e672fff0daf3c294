-- ===== src/Byzantine/Tally.antt =====
-- What a tally accepts.
use suprime.Base.{
  ℕ, ◌+◌, ◌*◌, ◌≤◌, ◌<◌, ◌≡◌, some, [], ◌∷◌, arith, if◌then◌else◌, refl, sym, ap, ◌∙◌,
}
use suprime.Base.Key.{Eq, ◌==◌, ==_refl}
use suprime.Base.Dict.{Dict, Distinct, get, put, put-Distinct}
use suprime.Base.Dict.Count.{count, count-put}
use suprime.Byzantine.{
  TrustLedger, QuorumRegister, or_empty, weight, best_of, total_votes, decide, tally,
}

module _ {K V : Type 0} ⦃k : Eq K⦄ ⦃e : Eq V⦄ where
  -- The trust of the voters for one value, and of all voters.
  abbrev pub weight_for : TrustLedger K → V → Dict K V → ℕ
  weight_for l v [] = 0
  weight_for l v ((n, w) ∷ votes) =
      let rest = weight_for l v votes in if w == v then weight n l + rest else rest

  abbrev pub weight_of_all : TrustLedger K → Dict K V → ℕ
  weight_of_all l [] = 0
  weight_of_all l ((n, w) ∷ votes) = weight n l + weight_of_all l votes

  count-total_votes :
      (l : TrustLedger K) (votes : Dict K V) (totals : Dict V ℕ) (all : ℕ) (v : V)
      → count v (total_votes l votes (totals, all)).0 ≡ count v totals + weight_for l v votes
  unfolding total_votes
  count-total_votes l [] totals all v = ground arith
  count-total_votes l ((n, w) ∷ votes) totals all v = ground (
    arith,
    count-total_votes l votes (put w (count w totals + weight n l) totals) (all + weight n l) v,
    count-put w v (count w totals + weight n l) totals,
    e.beq_iff w v,
  )

  all-total_votes :
      (l : TrustLedger K) (votes : Dict K V) (totals : Dict V ℕ) (all : ℕ)
      → (total_votes l votes (totals, all)).1 ≡ all + weight_of_all l votes
  unfolding total_votes
  all-total_votes l [] totals all = ground arith
  all-total_votes l ((n, w) ∷ votes) totals all = ground (
    arith,
    all-total_votes l votes (put w (count w totals + weight n l) totals) (all + weight n l),
  )

  total_votes-Distinct :
      (l : TrustLedger K) (votes : Dict K V) (totals : Dict V ℕ) (all : ℕ)
      → Distinct totals
      → Distinct (total_votes l votes (totals, all)).0
  unfolding total_votes
  total_votes-Distinct l [] totals all h = h
  total_votes-Distinct l ((n, w) ∷ votes) totals all h =
      total_votes-Distinct l votes (put w (count w totals + weight n l) totals) (all + weight n l)
        (put-Distinct w (count w totals + weight n l) totals h)

module _ {V : Type 0} ⦃e : Eq V⦄ where
  best_above : (best : V × ℕ) (totals : Dict V ℕ) → best.1 ≤ (best_of best totals).1
  unfolding best_of
  best_above best [] = ground arith
  best_above best ((v, n) ∷ totals) =
      ground (arith, best_above best totals, best_above (v, n) totals)

  best_of-max :
      (best : V × ℕ) (totals : Dict V ℕ) (w : V) → count w totals ≤ (best_of best totals).1
  unfolding best_of count get
  best_of-max best [] w = ground arith
  best_of-max best ((v, n) ∷ totals) w = ground (
    arith,
    best_of-max best totals w,
    best_of-max (v, n) totals w,
    best_above best totals,
    best_above (v, n) totals,
  )

  count-nil : (w : V) → count w [] ≡ 0
  unfolding count get
  count-nil w = refl

  -- The best is one of the entries.
  best_of-count :
      (v : V) (n : ℕ) (totals : Dict V ℕ)
      → Distinct ((v, n) ∷ totals)
      → count (best_of (v, n) totals).0 ((v, n) ∷ totals) ≡ (best_of (v, n) totals).1
  unfolding best_of count get
  best_of-count v n [] h = ground (arith, ==_refl v)
  best_of-count v n ((w, m) ∷ totals) h = ground (
    arith,
    h.0,
    h.1.0,
    ==_refl v,
    best_of-count v n totals (ground arith, h.1.1),
    best_of-count w m totals h.1,
    best_above (v, n) totals,
    best_above (w, m) totals,
    e.beq_iff v (best_of (w, m) totals).0,
    e.beq_iff w (best_of (v, n) totals).0,
    e.beq_iff v w,
  )

  above_all :
      (v w : V) (n : ℕ) (totals : Dict V ℕ) → count w ((v, n) ∷ totals) ≤ (best_of (v, n) totals).1
  unfolding count get
  above_all v w n totals = ground (arith, best_above (v, n) totals, best_of-max (v, n) totals w)

  decide_lem :
      (num den : ℕ) (totals : Dict V ℕ) (all : ℕ) (v : V)
      → Distinct totals
      → decide num den (totals, all) ≡ some v
      → (num * all ≤ count v totals * den) × (0 < all) × ((w : V) → count w totals ≤ count v totals)
  decide_lem num den [] all v h is = cc
  decide_lem num den ((x, n) ∷ totals) all v h is =
      let best = best_of (x, n) totals in
      let chosen : best.0 ≡ v = ground (arith, is) in
      let at : count v ((x, n) ∷ totals) ≡ best.1 =
        ap (λ y. count y ((x, n) ∷ totals)) (sym chosen) ∙ best_of-count x n totals h in
      let enough : num * all ≤ best.1 * den = ground (arith, is) in
      (rw at enough, ground (arith, is), λ w. rw at (above_all x w n totals))

module _ {K T V : Type 0} ⦃k : Eq K⦄ ⦃t : Eq T⦄ ⦃e : Eq V⦄ where
  -- The votes of a register for a key.
  abbrev pub votes_of : T → QuorumRegister K T V → Dict K V
  votes_of key r = or_empty (get key r.votes)

  -- A value that a tally accepts has at least the quorum's share of the trust of all voters, which
  -- is positive, and no other value has more.
  pub tally_lem :
      (key : T) (v : V) (r : QuorumRegister K T V)
      → tally key r ≡ some v
      → (r.quorum_num * weight_of_all r.ledger (votes_of key r)
          ≤ weight_for r.ledger v (votes_of key r) * r.quorum_den)
        × (0 < weight_of_all r.ledger (votes_of key r))
        × ((w : V)
            → weight_for r.ledger w (votes_of key r) ≤ weight_for r.ledger v (votes_of key r))
  unfolding tally
  tally_lem key v r is =
      let votes = votes_of key r in
      let s = total_votes r.ledger votes ([], 0) in
      let distinct = total_votes-Distinct r.ledger votes [] 0 tt in
      let (enough, some_trust, best) = decide_lem r.quorum_num r.quorum_den s.0 s.1 v distinct is in
      let all : s.1 ≡ weight_of_all r.ledger votes =
        ground (arith, all-total_votes r.ledger votes [] 0) in
      let of : (w : V) → count w s.0 ≡ weight_for r.ledger w votes =
        λ w. ground (arith, count-total_votes r.ledger votes [] 0 w, count-nil w) in
      (
        rw (sym all, sym (of v)) enough,
        rw (sym all) some_trust,
        λ w. rw (sym (of w), sym (of v)) (best w),
      )
