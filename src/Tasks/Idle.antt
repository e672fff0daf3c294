-- ===== src/Tasks/Idle.antt =====
-- The turns of tasks that are not pending, or of a kind that the board does not handle, leave
-- everything but their own ages and claims as it was.
use Prim.Native.String.{String}
use suprime.Base.{
  ℕ, ◌≡◌, refl, ap, ◌∙◌, inl, inr, false, ◌&&◌, List, [], ◌∷◌, ◌++◌, arith, Bool-cases,
}
use suprime.Base.Key.{◌==◌, string_eq}
use suprime.Base.Lists.{In}
use suprime.Base.Result.{Result, ok}
use suprime.Base.Dict.{Dict, get, del, get-del}
use suprime.Base.Sets.{member}
use suprime.Tasks.{Task, TaskBoard, Calls}
use suprime.Tasks.Evaluate.{is_pending, turn, turns, next_turn}

module _ {X : Type 0} where
  -- Another task than `t`, with which a board of these handlers has nothing to do.
  abbrev pub IsIdle : Task X → List String → Task X → Type 0
  IsIdle t handlers u =
      ((u.id == t.id) ≡ false) × ((is_pending u.state && member u.kind handlers) ≡ false)

module _ {X C : Type 0} where
  abbrev pub with_ages : Dict String ℕ → Dict String (Dict String ℕ) → TaskBoard X C → TaskBoard X C
  with_ages ages sigs b = record b { claim_age = ages; claim_sig = sigs }

  -- A step from `b` that raised nothing and kept all but the ages and claims of other tasks.
  abbrev pub IsKept : Task X → TaskBoard X C → TaskBoard X C × Result (Unit {0}) → Type 0
  IsKept t b after =
      (ages : Dict String ℕ) × (sigs : Dict String (Dict String ℕ)) × (after
        ≡ (with_ages ages sigs b, ok tt))
      × (get t.id ages ≡ get t.id b.claim_age)
      × (get t.id sigs ≡ get t.id b.claim_sig)

  idle_turn :
      (c : Calls X) (t u : Task X) (b : TaskBoard X C)
      → IsIdle t b.handlers u
      → IsKept t b (turn c u b)
  unfolding turn
  idle_turn c t u b (other, idle) = elim (Bool-cases (is_pending u.state)) [
    | inr over ↦ (
      del u.id b.claim_age,
      del u.id b.claim_sig,
      rw over refl,
      ground (arith, get-del u.id t.id b.claim_age, other),
      ground (arith, get-del u.id t.id b.claim_sig, other),
    )
    | inl waits ↦
        let unknown : member u.kind b.handlers ≡ false = ground (arith, waits, idle) in
        (b.claim_age, b.claim_sig, rw (waits, unknown) refl, refl, refl)
  ]

  pub idle_turns :
      (c : Calls X) (t : Task X) (us : List (Task X)) (b : TaskBoard X C)
      → ((u : Task X) → In u us → IsIdle t b.handlers u)
      → IsKept t b (turns c (b, ok tt) us)
  unfolding turns
  idle_turns c t [] b idle = (b.claim_age, b.claim_sig, refl, refl, refl)
  idle_turns c t (u ∷ us) b idle =
      let (ages, sigs, went, age, sig) = idle_turn c t u b (idle u (inl refl)) in
      let (ages', sigs', went', age', sig') =
        idle_turns c t us (with_ages ages sigs b) (λ v i. idle v (inr i)) in
      (ages', sigs', ap (λ s. turns c s us) went ∙ went', age' ∙ age, sig' ∙ sig)

  pub turns-append :
      (c : Calls X) (s : TaskBoard X C × Result (Unit {0})) (xs ys : List (Task X))
      → turns c s (xs ++ ys) ≡ turns c (turns c s xs) ys
  unfolding turns
  turns-append c s [] ys = refl
  turns-append c s (x ∷ xs) ys = turns-append c (next_turn c s x) xs ys
