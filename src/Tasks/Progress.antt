-- ===== src/Tasks/Progress.antt =====
-- Only the winner runs a task, and the winner does run it once its claims are settled.
use Prim.Native.String.{String}
use suprime.Base.{
  ℕ, ◌≡◌, ◌≢◌, refl, ap, ◌∙◌, ◌↔◌, inl, inr, true, false, ◌&&◌, ◌||◌, not, Option, none, some, List,
  arith, ltb, Bool-cases,
}
use suprime.Base.Key.{string_eq, nat_eq, pair_eq}
use suprime.Base.Lists.{In}
use suprime.Base.Result.{Result, ok, raise}
use suprime.Base.Dict.{Dict, get, put}
use suprime.Base.Sets.{member}
use suprime.Tasks.{Task, TaskBoard, Calls, write}
use suprime.Tasks.Claims.{claims, winner, winner_of, same_claims, or_zero}
use suprime.Tasks.Evaluate.{
  maybe_claim, execute_if, is_node, maybe_execute, settle, is_pending, turn,
}
use suprime.Tasks.Winner.{winner_of_same}
use suprime.Tasks.Once.{
  aged, is_settled, turn_handled, turn_skipped, maybe_execute_new, maybe_execute_old,
  runs-maybe_claim,
}

is_node-some : (node : String) (w : Option String) → is_node node w ≡ true → w ≡ some node
is_node-some node none h = cc
is_node-some node (some other) h = ground (arith, h, string_eq.beq_iff other node)

module _ {X C : Type 0} where
  -- What a run shows of the board, once it has claimed.
  abbrev pub HasWon : Task X → TaskBoard X C → Type 0
  HasWon t b =
      (cs : Dict String ℕ) × (claims t.id b ≡ ok cs)
      × (winner_of cs ≡ some b.node_id)
      × (is_settled t b cs ≡ true)

  runs-execute_if :
      (c : Calls X) (t : Task X) (b : TaskBoard X C) (cs : Dict String ℕ)
      → (execute_if c t b (ok (winner_of cs))).0.runs ≢ b.runs
      → winner_of cs ≡ some b.node_id
  runs-execute_if c t b cs ran = elim (Bool-cases (is_node b.node_id (winner_of cs))) [
    | inl mine ↦ is_node-some b.node_id (winner_of cs) mine
    | inr other ↦ absurd (ran (rw other refl))
  ]

  pub winner-claims :
      (task_id : String) (b : TaskBoard X C) (cs : Dict String ℕ)
      → claims task_id b ≡ ok cs
      → winner task_id b ≡ ok (winner_of cs)
  unfolding winner
  winner-claims task_id b cs h = rw h refl

  claims-sig :
      (task_id : String) (b : TaskBoard X C) (sig : Dict String (List (String × ℕ)))
      → claims task_id (record b { claim_sig = sig }) ≡ claims task_id b
  unfolding claims
  claims-sig task_id b sig = refl

  runs-maybe_execute :
      (c : Calls X) (t : Task X) (b : TaskBoard X C) (cs : Dict String ℕ)
      → claims t.id b ≡ ok cs
      → (maybe_execute c t b).0.runs ≢ b.runs
      → winner_of cs ≡ some b.node_id
  runs-maybe_execute c t b cs h ran = elim (Bool-cases (member t.id b.executed)) [
    | inl old ↦ absurd (ran (ap (λ p. p.0.runs) (maybe_execute_old c t b old)))
    | inr new ↦ runs-execute_if c t b cs (λ same. ran (
        ap (λ p. p.0.runs) (maybe_execute_new c t b new)
        ∙ ap (λ w. (execute_if c t b w).0.runs) (winner-claims t.id b cs h)
        ∙ same))
  ]

  runs-settle :
      (c : Calls X) (t : Task X) (b : TaskBoard X C) (r : Result (Dict String ℕ))
      → claims t.id b ≡ r
      → (settle c t b r).0.runs ≢ b.runs
      → HasWon t b
  runs-settle c t b (raise err) h ran = absurd (ran refl)
  runs-settle c t b (ok cs) h ran =
      let b' = record b { claim_sig = put t.id cs b.claim_sig } in
      elim (Bool-cases (is_settled t b cs)) [
        | inr waits ↦ absurd (ran (ground (arith, waits)))
        | inl settled ↦
            let on : (ltb (or_zero (get t.id b.claim_age)) b.claim_grace_rounds
                  || not (same_claims cs (get t.id b.claim_sig)))
                ≡ false =
              ground (arith, settled) in
            let same : settle c t b (ok cs) ≡ maybe_execute c t b' = rw on refl in
            (
              cs,
              h,
              runs-maybe_execute c t b' cs (claims-sig t.id b (put t.id cs b.claim_sig) ∙ h)
                  (λ still. ran (ap (λ p. p.0.runs) same ∙ still)),
              settled,
            )
      ]

  pub node_id-maybe_claim :
      (c : Calls X) (t : Task X) (b : TaskBoard X C) → (maybe_claim c t b).node_id ≡ b.node_id
  unfolding maybe_claim write
  node_id-maybe_claim c t b = ground arith

  -- A turn that runs a task is that of the node that wins its claims, seen unchanged and old enough.
  pub only_winner_runs :
      (c : Calls X) (t : Task X) (b : TaskBoard X C)
      → (turn c t b).0.runs ≢ b.runs
      → HasWon t (aged c t b) × ((aged c t b).node_id ≡ b.node_id)
  only_winner_runs c t b ran = elim (Bool-cases (is_pending t.state && member t.kind b.handlers)) [
    | inr skip ↦ absurd (ran (turn_skipped c t b skip).0)
    | inl go ↦
        let b' = aged c t b in
        let is = turn_handled c t b (ground (arith, go)) (ground (arith, go)) in
        (
          runs-settle c t b' (claims t.id b') refl
              (λ same. ran (ap (λ p. p.0.runs) is ∙ same ∙ (runs-maybe_claim c t b).0)),
          node_id-maybe_claim c t b,
        )
  ]

module _ {X C D : Type 0} where
  -- The claims on a task that two boards see are the same.
  abbrev pub SameClaims : String → TaskBoard X C → TaskBoard X D → Type 0
  SameClaims task_id a b =
      (cs ds : Dict String ℕ)
      → claims task_id a ≡ ok cs
      → claims task_id b ≡ ok ds
      → (r : String × ℕ) → In r cs ↔ In r ds

  -- Two boards that see the same claims on a task, after their own claim of the round, and both
  -- run it in this round are boards of one node.
  pub one_runner :
      (c d : Calls X) (t : Task X) (a : TaskBoard X C) (b : TaskBoard X D)
      → SameClaims t.id (aged c t a) (aged d t b)
      → (turn c t a).0.runs ≢ a.runs
      → (turn d t b).0.runs ≢ b.runs
      → a.node_id ≡ b.node_id
  one_runner c d t a b same ran_a ran_b =
      let ((cs, has, won, _), mine) = only_winner_runs c t a ran_a in
      let ((ds, has', won', _), theirs) = only_winner_runs d t b ran_b in
      let alike = winner_of_same cs ds (same cs ds has has') in
      ground (arith, won, won', alike, mine, theirs)
