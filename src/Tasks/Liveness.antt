-- ===== src/Tasks/Liveness.antt =====
-- A task that this node has won is run after the grace rounds, if its claims do not change and the
-- node has nothing to do with the other tasks of the store.
use mathlib.Core.Path.{subst}
use Prim.Native.String.{String}
use suprime.Base.{
  ℕ, zero, suc, ◌+◌, ◌≤◌, ◌<◌, ◌≡◌, refl, sym, ap, ◌∙◌, ◌⊎◌, inl, inr, true, none, some, List, [],
  ◌∷◌, ◌++◌, arith, Bool-cases,
}
use suprime.Base.Key.{string_eq, nat_eq, pair_eq}
use suprime.Base.Lists.{In}
use suprime.Base.Result.{ok}
use suprime.Base.Dict.{Dict, get}
use suprime.Base.Sets.{member}
use suprime.Store
use suprime.Tasks.{Task, TaskBoard, Calls, task_value, to_dict, task_key, write}
use suprime.Tasks.Claims.{claims, same_claims, or_zero, tasks}
use suprime.Tasks.Evaluate.{concluded, execute, settle, turns, evaluate_all, evaluate}
use suprime.Tasks.Once.{is_settled}
use suprime.Tasks.Idle.{IsIdle, with_ages, idle_turns, turns-append}
use suprime.Tasks.Waiting.{
  IsWaiting, older, claims-older, age_older, turn_waiting, signed, settle_settled, settle_later,
  signed-IsWaiting, stable_signed, runs-execute, executed-execute, read-execute,
}

module _ {X C : Type 0} where
  -- Rounds of the scheduler, each of which looks at every task of the store.
  unfoldable pub rounds : ℕ → Calls X → TaskBoard X C → TaskBoard X C
  unfolding evaluate
  rounds zero c b = b
  rounds (suc n) c b = rounds n c (evaluate c b).0

  -- The round of the board `w` is the one that runs the task: up to then no round wrote or ran
  -- anything; this one raises nothing, calls the handler, once, and stores what it concludes.
  abbrev pub IsRunOf : Calls X → Task X → TaskBoard X C → TaskBoard X C → Type 0
  IsRunOf c t b w =
      let b' = (evaluate c w).0 in
      (w.store ≡ b.store)
      × (w.runs ≡ b.runs)
      × ((evaluate c w).1 ≡ ok tt)
      × (b'.runs ≡ b.runs ++ t.id ∷ [])
      × (member t.id b'.executed ≡ true)
      × (Store.read (task_key t.id) none b'.store
          ≡ some (task_value (to_dict (concluded b.node_id t (c.run t.kind t)))))

  -- The board's store has the task `t` between others, with which the board has nothing to do.
  pub record IsAmong (c : Calls X) (t : Task X) (xs ys : List (Task X)) (b : TaskBoard X C)
      : Type 0 where
    pub listed : tasks c.empty b ≡ ok (xs ++ t ∷ ys)
    pub idle_before : (u : Task X) → In u xs → IsIdle t b.handlers u
    pub idle_after : (u : Task X) → In u ys → IsIdle t b.handlers u

  -- A round that only waits: it leads to a board that waits a round longer.
  record IsLater (c : Calls X) (t : Task X) (xs ys : List (Task X)) (cs : Dict String ℕ)
      (grace a : ℕ) (b b' : TaskBoard X C) : Type 0 where
    next : (evaluate c b).0 ≡ b'
    among : IsAmong c t xs ys b'
    waiting : IsWaiting t cs grace (a + 1) b'
    stable : same_claims cs (get t.id b'.claim_sig) ≡ true
    young : same_claims cs (get t.id b.claim_sig) ≡ true → a + 1 < grace
    same : (w : TaskBoard X C) → IsRunOf c t b' w → IsRunOf c t b w

  ages-IsWaiting :
      (t : Task X) (cs : Dict String ℕ) (grace a : ℕ) (b : TaskBoard X C) (ages : Dict String ℕ)
      (sigs : Dict String (Dict String ℕ))
      → get t.id ages ≡ get t.id b.claim_age
      → IsWaiting t cs grace a b
      → IsWaiting t cs grace a (with_ages ages sigs b)
  unfolding claims
  ages-IsWaiting t cs grace a b ages sigs age h = record {
    waits = h.waits;
    handled = h.handled;
    claimed = h.claimed;
    seen = h.seen;
    won = h.won;
    not_run = h.not_run;
    old = ap or_zero age ∙ h.old;
    rounds = h.rounds;
  }

  evaluate_among :
      (c : Calls X) (t : Task X) (xs ys : List (Task X)) (cs : Dict String ℕ) (grace a : ℕ)
      (b b' : TaskBoard X C)
      → IsAmong c t xs ys b
      → turns c (b, ok tt) xs ≡ (b', ok tt)
      → IsWaiting t cs grace a b'
      → evaluate c b ≡ turns c (settle c t (older t b') (ok cs)) ys
  unfolding evaluate turns
  evaluate_among c t xs ys cs grace a b b' m went h =
      ap (evaluate_all c b) m.listed
      ∙ turns-append c (b, ok tt) xs (t ∷ ys)
      ∙ ap (λ s. turns c s (t ∷ ys)) went
      ∙ ap (λ s. turns c s ys) (turn_waiting c t cs grace a b' h)

  handlers-execute :
      (c : Calls X) (t : Task X) (b : TaskBoard X C) → (execute c t b).handlers ≡ b.handlers
  unfolding execute write
  handlers-execute c t b = refl

  tasks-ages :
      (c : Calls X) (t : Task X) (ages : Dict String ℕ) (sigs : Dict String (Dict String ℕ))
      (b : TaskBoard X C)
      → tasks c.empty (with_ages ages sigs b) ≡ tasks c.empty b
  unfolding tasks
  tasks-ages c t ages sigs b = refl

  -- A round runs the task, or it waits.
  one_round :
      (c : Calls X) (t : Task X) (xs ys : List (Task X)) (cs : Dict String ℕ) (grace a : ℕ)
      (b : TaskBoard X C)
      → IsAmong c t xs ys b
      → IsWaiting t cs grace a b
      → IsRunOf c t b b ⊎ ((b' : TaskBoard X C) × IsLater c t xs ys cs grace a b b')
  one_round c t xs ys cs grace a b m h =
      let (ages, sigs, went, age, sig) = idle_turns c t xs b m.idle_before in
      let b1 = with_ages ages sigs b in
      let h1 = ages-IsWaiting t cs grace a b ages sigs age h in
      let is = evaluate_among c t xs ys cs grace a b b1 m went h1 in
      let d = signed t cs (older t b1) in
      elim (Bool-cases (is_settled t (older t b1) cs)) [
        | inl settled ↦
            let ran = execute c t d in
            let (ages', sigs', went', _, _) = idle_turns c t ys ran (λ u i.
              subst (λ hs. IsIdle t hs u) (sym (handlers-execute c t d)) (m.idle_after u i)) in
            let done =
              is
              ∙ ap (λ s. turns c s ys)
                  (settle_settled c t cs (older t b1) settled (claims-older t b1 ∙ h1.seen) h1.won
                    h1.not_run)
              ∙ went' in
            inl (
              refl,
              refl,
              ap (λ p. p.1) done,
              ap (λ p. p.0.runs) done ∙ runs-execute c t d,
              ap (λ p. member t.id p.0.executed) done ∙ executed-execute c t d,
              ap (λ p. Store.read (task_key t.id) none p.0.store) done ∙ read-execute c t d,
            )
        | inr later ↦
            let (ages', sigs', went', age', sig') = idle_turns c t ys d m.idle_after in
            let h2 = signed-IsWaiting t cs grace a b1 h1 in
            let older_age = age_older t b1 ∙ ap (λ i. i + 1) h1.old in
            inr (
              with_ages ages' sigs' d,
              record {
                next =
                    ap (λ p. p.0)
                      (is
                        ∙ ap (λ s. turns c s ys) (settle_later c t cs (older t b1) later)
                        ∙ went');
                among = record {
                  listed = tasks-ages c t ages' sigs' b ∙ m.listed;
                  idle_before = m.idle_before;
                  idle_after = m.idle_after;
                };
                waiting = ages-IsWaiting t cs grace (a + 1) d ages' sigs' age' h2;
                stable = ap (same_claims cs) sig' ∙ stable_signed t cs (older t b1);
                young = λ stable.
                    ground (arith, later, ap (same_claims cs) sig ∙ stable, older_age, h1.rounds);
                same = λ w run. run;
              },
            )
      ]

  -- A run in the rounds after one that waits is a run in the rounds.
  after_one :
      (n : ℕ) (c : Calls X) (t : Task X) (xs ys : List (Task X)) (cs : Dict String ℕ) (grace a : ℕ)
      (b b' : TaskBoard X C)
      → IsLater c t xs ys cs grace a b b'
      → (k : ℕ) → k < n
      → IsRunOf c t b' (rounds k c b')
      → (k : ℕ) × (k < suc n) × IsRunOf c t b (rounds k c b)
  unfolding rounds
  after_one n c t xs ys cs grace a b b' later k lt run = (
    suc k,
    omega (arith, lt),
    subst (λ d. IsRunOf c t b (rounds k c d)) (sym later.next) (later.same (rounds k c b') run),
  )

  -- With the claims seen before, the task is run by the round that makes its age the grace.
  run_stable :
      (n : ℕ) (c : Calls X) (t : Task X) (xs ys : List (Task X)) (cs : Dict String ℕ) (grace a : ℕ)
      (b : TaskBoard X C)
      → IsAmong c t xs ys b
      → IsWaiting t cs grace a b
      → same_claims cs (get t.id b.claim_sig) ≡ true
      → 0 < n
      → grace ≤ a + n
      → (k : ℕ) × (k < n) × IsRunOf c t b (rounds k c b)
  unfolding rounds
  run_stable zero c t xs ys cs grace a b m h stable some_left le = absurd (omega (arith, some_left))
  run_stable (suc n) c t xs ys cs grace a b m h stable some_left le =
      elim (one_round c t xs ys cs grace a b m h) [
        | inl run ↦ (0, omega arith, run)
        | inr (b', later) ↦
            let more = later.young stable in
            let (k, lt, run) =
              run_stable n c t xs ys cs grace (a + 1) b' later.among later.waiting later.stable
                (omega (arith, more, le)) (omega (arith, le)) in
            after_one n c t xs ys cs grace a b b' later k lt run
      ]

  -- Where a board's store has a task that is pending, of a kind the board handles, claimed by it,
  -- won by it and not run by it, every other task of the store has another id and is not pending
  -- or of a kind the board does not handle, and nothing else writes to the store, then of any
  -- number of at least two rounds of `evaluate` that brings the task's age to the grace rounds
  -- there is one that runs it: it raises nothing, the task is in the executed set and once more in
  -- the log of runs, and the store reads at its key what its handler concludes; the rounds before
  -- it run and write nothing.
  pub run_at_last :
      (n : ℕ) (c : Calls X) (t : Task X) (xs ys : List (Task X)) (cs : Dict String ℕ) (grace a : ℕ)
      (b : TaskBoard X C)
      → IsAmong c t xs ys b
      → IsWaiting t cs grace a b
      → 1 < n
      → grace ≤ a + n
      → (k : ℕ) × (k < n) × IsRunOf c t b (rounds k c b)
  unfolding rounds
  run_at_last zero c t xs ys cs grace a b m h some_left le = absurd (omega (arith, some_left))
  run_at_last (suc n) c t xs ys cs grace a b m h some_left le =
      elim (one_round c t xs ys cs grace a b m h) [
        | inl run ↦ (0, omega arith, run)
        | inr (b', later) ↦
            let (k, lt, run) =
              run_stable n c t xs ys cs grace (a + 1) b' later.among later.waiting later.stable
                (omega (arith, some_left)) (omega (arith, le)) in
            after_one n c t xs ys cs grace a b b' later k lt run
      ]
