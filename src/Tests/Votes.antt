-- ===== src/Tests/Votes.antt =====
-- Votes of nodes 1, 2 and 3 on key 7, where node 3 has lost trust.
use suprime.Base.{ℕ, ◌*◌, ◌≤◌, ◌<◌, ◌≡◌, refl, some, [], ◌∷◌, arith}
use suprime.Base.Key.{nat_eq}
use suprime.Base.Dict.{get}
use suprime.Byzantine.{QuorumRegister, score, tally}
use suprime.Byzantine.Trust.{IsLedger}
use suprime.Byzantine.Tally.{weight_for, weight_of_all, votes_of, tally_lem}

abbrev register : QuorumRegister ℕ ℕ ℕ
register = record {
  ledger = record { scores = (3, 5) ∷ []; initial = 10; max_score = 50 };
  quorum_num = 1;
  quorum_den = 2;
  votes = (7, (1, 70) ∷ (2, 70) ∷ (3, 71) ∷ []) ∷ [];
}

accepts : tally 7 register ≡ some 70
unfolding tally
accepts = refl

tally_lem_example :
    (1 * weight_of_all register.ledger (votes_of 7 register)
      ≤ weight_for register.ledger 70 (votes_of 7 register) * 2)
    × (0 < weight_of_all register.ledger (votes_of 7 register))
    × ((w : ℕ)
        → weight_for register.ledger w (votes_of 7 register)
          ≤ weight_for register.ledger 70 (votes_of 7 register))
tally_lem_example = tally_lem 7 70 register accepts

register-IsLedger : IsLedger register.ledger
unfolding score get
register-IsLedger n = ground arith
