-- ===== src/Tasks/Once.antt =====
-- A board runs a task at most once, and only as its settled winner.
use Prim.Native.String.{String}
use mathlib.Core.Path.{subst}
use suprime.Base.{
  ℕ, ◌+◌, ◌≤◌, ◌≡◌, refl, sym, ◌∙◌, ◌⊎◌, inl, inr, Bool, true, false, ◌&&◌, ◌||◌, not, Option, List,
  [], ◌∷◌, ◌++◌, arith, ltb, if◌then◌else◌, Bool-cases,
}
use suprime.Base.Key.{◌==◌, string_eq}
use suprime.Base.Result.{Result, ok, raise}
use suprime.Base.Dict.{Dict, get, put}
use suprime.Base.Sets.{member, add, member-add}
use suprime.Tasks.{Task, TaskBoard, Calls, write}
use suprime.Tasks.Claims.{claims, winner, same_claims, or_zero, tasks}
use suprime.Tasks.Evaluate.{
  maybe_claim, execute, execute_if, is_node, maybe_execute, settle, is_pending, turn, turns,
  evaluate_all, evaluate,
}

-- How often an id occurs.
abbrev pub times : String → List String → ℕ
times id [] = 0
times id (x ∷ xs) = let rest = times id xs in if x == id then 1 + rest else rest

times-snoc :
    (id x : String) (xs : List String)
    → times id (xs ++ x ∷ []) ≡ times id xs + (if x == id then 1 else 0)
times-snoc id x [] = ground arith
times-snoc id x (y ∷ xs) = ground (arith, times-snoc id x xs)

module _ {X C : Type 0} where
  abbrev pub IsOnce : TaskBoard X C → Type 0
  IsOnce b = (id : String) → times id b.runs ≤ (if member id b.executed then 1 else 0)

  -- What a turn leaves of what has run: nothing new, or this one task.
  abbrev pub RunsMore : Task X → TaskBoard X C → TaskBoard X C → Type 0
  RunsMore t b after =
      (after.runs ≡ b.runs ++ t.id ∷ [])
      × (after.executed ≡ add t.id b.executed)
      × (member t.id b.executed ≡ false)

  abbrev pub Ran : Task X → TaskBoard X C → TaskBoard X C → Type 0
  Ran t b after = ((after.runs ≡ b.runs) × (after.executed ≡ b.executed)) ⊎ RunsMore t b after

  Ran-execute_if :
      (c : Calls X) (t : Task X) (b : TaskBoard X C) (w : Result (Option String))
      → member t.id b.executed ≡ false
      → Ran t b (execute_if c t b w).0
  unfolding execute write
  Ran-execute_if c t b (raise err) out = inl (refl, refl)
  Ran-execute_if c t b (ok w) out = elim (Bool-cases (is_node b.node_id w)) [
    | inl mine ↦ rw mine (inr (refl, refl, out))
    | inr other ↦ rw other (inl (refl, refl))
  ]

  pub maybe_execute_new :
      (c : Calls X) (t : Task X) (b : TaskBoard X C)
      → member t.id b.executed ≡ false
      → maybe_execute c t b ≡ execute_if c t b (winner t.id b)
  unfolding maybe_execute
  maybe_execute_new c t b new = rw new refl

  pub maybe_execute_old :
      (c : Calls X) (t : Task X) (b : TaskBoard X C)
      → member t.id b.executed ≡ true
      → maybe_execute c t b ≡ (b, ok tt)
  unfolding maybe_execute
  maybe_execute_old c t b old = rw old refl

  Ran-maybe_execute :
      (c : Calls X) (t : Task X) (b : TaskBoard X C) → Ran t b (maybe_execute c t b).0
  Ran-maybe_execute c t b = elim (Bool-cases (member t.id b.executed)) [
    | inl old ↦ subst (λ p. Ran t b p.0) (sym (maybe_execute_old c t b old)) (inl (refl, refl))
    | inr new ↦
        subst (λ p. Ran t b p.0) (sym (maybe_execute_new c t b new))
          (Ran-execute_if c t b (winner t.id b) new)
  ]

  -- When the claims of a task are settled: old enough, and the same as a round ago.
  abbrev pub is_settled : Task X → TaskBoard X C → Dict String ℕ → Bool
  is_settled t b sig = not (
      ltb (or_zero (get t.id b.claim_age)) b.claim_grace_rounds
      || not (same_claims sig (get t.id b.claim_sig)))

  Ran-settle :
      (c : Calls X) (t : Task X) (b : TaskBoard X C) (r : Result (Dict String ℕ))
      → Ran t b (settle c t b r).0
  Ran-settle c t b (raise err) = inl (refl, refl)
  Ran-settle c t b (ok sig) = if_Ran (
      ltb (or_zero (get t.id b.claim_age)) b.claim_grace_rounds
      || not (same_claims sig (get t.id b.claim_sig)))
    where
      if_Ran :
          (w : Bool)
          → Ran t b
              (if w
                then (record b { claim_sig = put t.id sig b.claim_sig }, ok tt)
                else maybe_execute c t (record b { claim_sig = put t.id sig b.claim_sig })).0
      if_Ran true = inl (refl, refl)
      if_Ran false = Ran-maybe_execute c t (record b { claim_sig = put t.id sig b.claim_sig })

  pub runs-maybe_claim :
      (c : Calls X) (t : Task X) (b : TaskBoard X C)
      → ((maybe_claim c t b).runs ≡ b.runs) × ((maybe_claim c t b).executed ≡ b.executed)
  unfolding maybe_claim write
  runs-maybe_claim c t b = (ground arith, ground arith)

  -- The board of a turn after its claim, with the new age.
  abbrev pub aged : Calls X → Task X → TaskBoard X C → TaskBoard X C
  aged c t b =
      let claimed = maybe_claim c t b in
      record claimed {
        claim_age = put t.id (or_zero (get t.id claimed.claim_age) + 1) claimed.claim_age;
      }

  pub turn_handled :
      (c : Calls X) (t : Task X) (b : TaskBoard X C)
      → is_pending t.state ≡ true
      → member t.kind b.handlers ≡ true
      → turn c t b ≡ settle c t (aged c t b) (claims t.id (aged c t b))
  unfolding turn
  turn_handled c t b waits handled = rw (waits, handled) refl

  pub turn_skipped :
      (c : Calls X) (t : Task X) (b : TaskBoard X C)
      → (is_pending t.state && member t.kind b.handlers) ≡ false
      → ((turn c t b).0.runs ≡ b.runs) × ((turn c t b).0.executed ≡ b.executed)
  unfolding turn
  turn_skipped c t b skip = (ground (arith, skip), ground (arith, skip))

  pub Ran-turn : (c : Calls X) (t : Task X) (b : TaskBoard X C) → Ran t b (turn c t b).0
  Ran-turn c t b = elim (Bool-cases (is_pending t.state && member t.kind b.handlers)) [
    | inr skip ↦ inl (turn_skipped c t b skip)
    | inl go ↦
        let b' = aged c t b in
        let same = runs-maybe_claim c t b in
        subst (λ p. Ran t b p.0)
          (sym (turn_handled c t b (ground (arith, go)) (ground (arith, go))))
          (elim (Ran-settle c t b' (claims t.id b')) [
            | inl (r, x) ↦ inl (r ∙ same.0, x ∙ same.1)
            | inr (r, x, out) ↦
                inr (
                  ground (arith, r, same.0),
                  ground (arith, x, same.1),
                  ground (arith, out, same.1),
                )
          ])
  ]

  turn-IsOnce : (c : Calls X) (t : Task X) (b : TaskBoard X C) → IsOnce b → IsOnce (turn c t b).0
  turn-IsOnce c t b h id = elim (Ran-turn c t b) [
    | inl (r, x) ↦ rw (r, x) (h id)
    | inr (r, x, out) ↦
        rw (r, x)
          (ground (
            arith,
            h id,
            out,
            times-snoc id t.id b.runs,
            member-add t.id id b.executed,
            string_eq.beq_iff t.id id,
          ))
  ]

  turns-IsOnce :
      (c : Calls X) (s : TaskBoard X C × Result (Unit {0})) (ts : List (Task X))
      → IsOnce s.0
      → IsOnce (turns c s ts).0
  unfolding turns
  turns-IsOnce c s [] h = h
  turns-IsOnce c (b, raise err) (t ∷ ts) h = turns-IsOnce c (b, raise err) ts h
  turns-IsOnce c (b, ok u) (t ∷ ts) h = turns-IsOnce c (turn c t b) ts (turn-IsOnce c t b h)

  all-IsOnce :
      (c : Calls X) (b : TaskBoard X C) (r : Result (List (Task X)))
      → IsOnce b
      → IsOnce (evaluate_all c b r).0
  all-IsOnce c b (raise err) h = h
  all-IsOnce c b (ok ts) h = turns-IsOnce c (b, ok tt) ts h

  -- A board whose handlers have run each task at most once, and only tasks marked as executed, is
  -- still such after a round, whatever the round ends in.
  pub evaluate-IsOnce : (c : Calls X) (b : TaskBoard X C) → IsOnce b → IsOnce (evaluate c b).0
  unfolding evaluate
  evaluate-IsOnce c b h = all-IsOnce c b (tasks c.empty b) h
