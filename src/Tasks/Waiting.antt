-- ===== src/Tasks/Waiting.antt =====
-- A board that waits to run a task that it has won, and what its next turn of the task does.
use Prim.Native.String.{String, ◌++◌ as ◌<>◌}
use suprime.Base.{
  ℕ, ◌+◌, ◌≡◌, refl, ap, ◌∙◌, true, false, ◌||◌, not, none, some, List, [], ◌∷◌, ◌++◌, arith, ltb,
}
use suprime.Base.Key.{string_eq, ==_refl, nat_eq, pair_eq}
use suprime.Base.Result.{ok}
use suprime.Base.Dict.{Dict, get, put, get-put}
use suprime.Base.Sets.{member, subset, member-add, subset_iff}
use suprime.Store
use suprime.Store.Reads.{read-set}
use suprime.Tasks.{Task, TaskBoard, Calls, task_value, to_dict, task_key, write, prefix_of}
use suprime.Tasks.Claims.{claims, winner_of, same_claims, or_zero}
use suprime.Tasks.Evaluate.{
  concluded, maybe_claim, execute, execute_if, is_node, maybe_execute, settle, is_pending, turn,
}
use suprime.Tasks.Once.{aged, is_settled, turn_handled, maybe_execute_new}
use suprime.Tasks.Progress.{winner-claims}

subset_refl : (s : List (String × ℕ)) → subset s s ≡ true
subset_refl s = (subset_iff s s).1 (λ a h. h)

module _ {X C : Type 0} where
  -- The board has claimed the task, is the winner of its claims, and has not run it; its age is `a`.
  pub record IsWaiting (t : Task X) (cs : Dict String ℕ) (grace a : ℕ) (b : TaskBoard X C)
      : Type 0 where
    pub waits : is_pending t.state ≡ true
    pub handled : member t.kind b.handlers ≡ true
    pub claimed : Store.contains (prefix_of t.id <> b.node_id) b.store ≡ true
    pub seen : claims t.id b ≡ ok cs
    pub won : winner_of cs ≡ some b.node_id
    pub not_run : member t.id b.executed ≡ false
    pub old : or_zero (get t.id b.claim_age) ≡ a
    pub rounds : b.claim_grace_rounds ≡ grace

  unclaimed :
      (c : Calls X) (t : Task X) (b : TaskBoard X C)
      → Store.contains (prefix_of t.id <> b.node_id) b.store ≡ true
      → maybe_claim c t b ≡ b
  unfolding maybe_claim
  unclaimed c t b there = rw there refl

  -- The board of the turn, where nothing is to be claimed.
  abbrev pub older : Task X → TaskBoard X C → TaskBoard X C
  older t b = record b { claim_age = put t.id (or_zero (get t.id b.claim_age) + 1) b.claim_age }

  aged-older :
      (c : Calls X) (t : Task X) (b : TaskBoard X C)
      → Store.contains (prefix_of t.id <> b.node_id) b.store ≡ true
      → aged c t b ≡ older t b
  aged-older c t b there = ap (older t) (unclaimed c t b there)

  pub claims-older : (t : Task X) (b : TaskBoard X C) → claims t.id (older t b) ≡ claims t.id b
  unfolding claims
  claims-older t b = refl

  pub age_older :
      (t : Task X) (b : TaskBoard X C)
      → or_zero (get t.id (older t b).claim_age) ≡ or_zero (get t.id b.claim_age) + 1
  age_older t b =
      ground
        (arith, get-put t.id t.id (or_zero (get t.id b.claim_age) + 1) b.claim_age, ==_refl t.id)

  pub turn_waiting :
      (c : Calls X) (t : Task X) (cs : Dict String ℕ) (grace a : ℕ) (b : TaskBoard X C)
      → IsWaiting t cs grace a b
      → turn c t b ≡ settle c t (older t b) (ok cs)
  turn_waiting c t cs grace a b h =
      turn_handled c t b h.waits h.handled
      ∙ ap (λ d. settle c t d (claims t.id d)) (aged-older c t b h.claimed)
      ∙ ap (settle c t (older t b)) (claims-older t b ∙ h.seen)

  claims-sig :
      (task_id : String) (b : TaskBoard X C) (sig : Dict String (List (String × ℕ)))
      → claims task_id (record b { claim_sig = sig }) ≡ claims task_id b
  unfolding claims
  claims-sig task_id b sig = refl

  -- The board after the claims of a turn are noted.
  abbrev pub signed : Task X → Dict String ℕ → TaskBoard X C → TaskBoard X C
  signed t cs b = record b { claim_sig = put t.id cs b.claim_sig }

  -- The turn of a settled claim runs the task.
  pub settle_settled :
      (c : Calls X) (t : Task X) (cs : Dict String ℕ) (b : TaskBoard X C)
      → is_settled t b cs ≡ true
      → claims t.id b ≡ ok cs
      → winner_of cs ≡ some b.node_id
      → member t.id b.executed ≡ false
      → settle c t b (ok cs) ≡ (execute c t (signed t cs b), ok tt)
  settle_settled c t cs b settled has won out =
      let b' = signed t cs b in
      let on : (ltb (or_zero (get t.id b.claim_age)) b.claim_grace_rounds
            || not (same_claims cs (get t.id b.claim_sig)))
          ≡ false =
        ground (arith, settled) in
      let is : settle c t b (ok cs) ≡ maybe_execute c t b' = rw on refl in
      let mine : is_node b.node_id (winner_of cs) ≡ true = ground (arith, won, ==_refl b.node_id) in
      is
      ∙ maybe_execute_new c t b' out
      ∙ ap (execute_if c t b')
          (winner-claims t.id b' cs (claims-sig t.id b (put t.id cs b.claim_sig) ∙ has))
      ∙ rw mine refl

  pub settle_later :
      (c : Calls X) (t : Task X) (cs : Dict String ℕ) (b : TaskBoard X C)
      → is_settled t b cs ≡ false
      → settle c t b (ok cs) ≡ (signed t cs b, ok tt)
  settle_later c t cs b later =
      let off : (ltb (or_zero (get t.id b.claim_age)) b.claim_grace_rounds
            || not (same_claims cs (get t.id b.claim_sig)))
          ≡ true =
        ground (arith, later) in
      rw off refl

  pub signed-IsWaiting :
      (t : Task X) (cs : Dict String ℕ) (grace a : ℕ) (b : TaskBoard X C)
      → IsWaiting t cs grace a b
      → IsWaiting t cs grace (a + 1) (signed t cs (older t b))
  signed-IsWaiting t cs grace a b h = record {
    waits = h.waits;
    handled = h.handled;
    claimed = h.claimed;
    seen = claims-sig t.id (older t b) (put t.id cs b.claim_sig) ∙ claims-older t b ∙ h.seen;
    won = h.won;
    not_run = h.not_run;
    old = age_older t b ∙ ap (λ i. i + 1) h.old;
    rounds = h.rounds;
  }

  pub stable_signed :
      (t : Task X) (cs : Dict String ℕ) (b : TaskBoard X C)
      → same_claims cs (get t.id (signed t cs b).claim_sig) ≡ true
  stable_signed t cs b =
      ground (arith, get-put t.id t.id cs b.claim_sig, ==_refl t.id, subset_refl cs)

  -- What `execute` does to the board.
  pub runs-execute :
      (c : Calls X) (t : Task X) (b : TaskBoard X C) → (execute c t b).runs ≡ b.runs ++ t.id ∷ []
  unfolding execute write
  runs-execute c t b = refl

  pub executed-execute :
      (c : Calls X) (t : Task X) (b : TaskBoard X C) → member t.id (execute c t b).executed ≡ true
  unfolding execute write
  executed-execute c t b = ground (arith, member-add t.id t.id b.executed, ==_refl t.id)

  pub read-execute :
      (c : Calls X) (t : Task X) (b : TaskBoard X C)
      → Store.read (task_key t.id) none (execute c t b).store
        ≡ some (task_value (to_dict (concluded b.node_id t (c.run t.kind t))))
  unfolding execute write
  read-execute c t b =
      let key = task_key t.id in
      let value = task_value (to_dict (concluded b.node_id t (c.run t.kind t))) in
      let p = (read-set key key (some value) none (c.clock b.reads) b.store).0 in
      ground (arith, p, ==_refl key)
