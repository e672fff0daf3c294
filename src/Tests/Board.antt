-- ===== src/Tests/Board.antt =====
-- Two boards with the claims of nodes `a` and `b` on one task; `a` has the earlier claim.
use mathlib.Core.Path.{subst}
use Prim.Native.String.{String}
use suprime.Base.{
  ℕ, ◌+◌, ◌≤◌, ◌<◌, ◌≡◌, ◌↔◌, refl, inl, inr, false, some, none, [], ◌∷◌, arith, if◌then◌else◌,
}
use suprime.Base.Key.{string_eq, string_order, nat_eq, pair_eq}
use suprime.Base.Result.{ok}
use suprime.Base.Lists.{In}
use suprime.Base.Dict.{Dict}
use suprime.Base.Sets.{member}
use suprime.Store.Entries.{Entry}
use suprime.Store.{contains}
use suprime.Tasks.{
  Task, Value, task_value, claim_value, pending, done, TaskBoard, Calls, returned, to_dict,
}
use suprime.Tasks.Claims.{tasks, claims, winner, claims_in, earliest}
use suprime.Tasks.Evaluate.{turn, evaluate, maybe_claim, maybe_execute, execute}
use suprime.Tasks.Once.{times, aged, evaluate-IsOnce}
use suprime.Tasks.Progress.{SameClaims, one_runner}
use suprime.Tasks.Idle.{IsIdle}
use suprime.Tasks.Waiting.{IsWaiting}
use suprime.Tasks.Liveness.{rounds, IsRunOf, IsAmong, run_at_last}

abbrev job : Task ℕ
job = record {
  id = "t";
  kind = "k";
  args = 0;
  state = pending;
  submitted_by = "a";
  owner = none;
  result = none;
  error = none;
}

abbrev entry : Value ℕ → ℕ → String → Entry String (Value ℕ)
entry value ts origin = record {
  value = some value;
  version = record { ts = ts; origin = origin };
  deleted = false;
}

abbrev board : String → Dict String (Entry String (Value ℕ)) → TaskBoard ℕ ℕ
board node entries = record {
  node_id = node;
  store = record {
    node_id = node;
    entries = ("__task__/t", entry (task_value (to_dict job)) 1 "a") ∷ entries;
    subscribers = [];
    commit_subs = [];
    highest_ts = 0;
    calls = [];
  };
  claim_grace_rounds = 2;
  handlers = "k" ∷ [];
  executed = [];
  claim_age = [];
  claim_sig = [];
  load_weight = 0;
  reads = 0;
  runs = [];
}

abbrev calls : Calls ℕ
calls = record { clock = λ n. 10 + n; load = 0; run = λ kind t. returned 1; empty = 0 }

abbrev claim_a : String × Entry String (Value ℕ)
claim_a = ("__claim__/t/a", entry (claim_value "a" 3) 2 "a")

abbrev claim_b : String × Entry String (Value ℕ)
claim_b = ("__claim__/t/b", entry (claim_value "b" 4) 3 "b")

abbrev board_a : TaskBoard ℕ ℕ
board_a = board "a" (claim_a ∷ claim_b ∷ [])

abbrev board_b : TaskBoard ℕ ℕ
board_b = board "b" (claim_b ∷ claim_a ∷ [])

abbrev claims_a : Dict String ℕ
claims_a = ("a", 3) ∷ ("b", 4) ∷ []

abbrev claims_b : Dict String ℕ
claims_b = ("b", 4) ∷ ("a", 3) ∷ []

seen_a : claims "t" board_a ≡ ok claims_a
unfolding claims claims_in
seen_a = refl

seen_b : claims "t" board_b ≡ ok claims_b
unfolding claims claims_in
seen_b = refl

alike : (r : String × ℕ) → In r claims_a ↔ In r claims_b
alike r = ground arith

evaluate-IsOnce_example :
    times "t" (evaluate calls board_a).0.runs
    ≤ (if member "t" (evaluate calls board_a).0.executed then 1 else 0)
evaluate-IsOnce_example = evaluate-IsOnce calls board_a (λ id. ground arith) "t"

-- The boards after a round: the claims were seen and are one round old.
abbrev later : TaskBoard ℕ ℕ → Dict String ℕ → TaskBoard ℕ ℕ
later b cs = record b { claim_age = ("t", 1) ∷ []; claim_sig = ("t", cs) ∷ [] }

abbrev board_a2 : TaskBoard ℕ ℕ
board_a2 = board "a" (claim_b ∷ claim_a ∷ [])

seen_later_a : claims "t" (aged calls job (later board_a claims_a)) ≡ ok claims_a
unfolding claims claims_in maybe_claim
seen_later_a = refl

seen_later_a2 : claims "t" (aged calls job (later board_a2 claims_b)) ≡ ok claims_b
unfolding claims claims_in maybe_claim
seen_later_a2 = refl

later_same :
    SameClaims "t"
      (aged calls job (later board_a claims_a))
      (aged calls job (later board_a2 claims_b))
later_same cs ds p q r = ground (arith, p, q, seen_later_a, seen_later_a2, alike r)

runs_a : (turn calls job (later board_a claims_a)).0.runs ≡ "t" ∷ []
unfolding turn maybe_claim claims claims_in maybe_execute execute winner earliest
runs_a = refl

runs_a2 : (turn calls job (later board_a2 claims_b)).0.runs ≡ "t" ∷ []
unfolding turn maybe_claim claims claims_in maybe_execute execute winner earliest
runs_a2 = refl

one_runner_example : board_a.node_id ≡ board_a2.node_id
one_runner_example =
    one_runner calls calls job (later board_a claims_a) (later board_a2 claims_b) later_same
      (λ h. cc (h, runs_a)) (λ h. cc (h, runs_a2))

-- A board with a task that is over before the job, and one of a kind it does not handle after it.
abbrev over : Task ℕ
over = record job { id = "s"; state = done; result = some 4; owner = some "b" }

abbrev foreign : Task ℕ
foreign = record job { id = "u"; kind = "other" }

abbrev board_c : TaskBoard ℕ ℕ
board_c = record board_a {
  store = record board_a.store {
    entries =
        ("__task__/s", entry (task_value (to_dict over)) 1 "a")
        ∷ ("__task__/t", entry (task_value (to_dict job)) 1 "a")
        ∷ ("__task__/u", entry (task_value (to_dict foreign)) 1 "a")
        ∷ claim_a
        ∷ claim_b
        ∷ [];
  };
}

board_c-IsWaiting : IsWaiting job claims_a 2 0 board_c
unfolding claims claims_in member contains earliest
board_c-IsWaiting = record {
  waits = refl;
  handled = refl;
  claimed = refl;
  seen = refl;
  won = refl;
  not_run = refl;
  old = refl;
  rounds = refl;
}

job-IsAmong : IsAmong calls job (over ∷ []) (foreign ∷ []) board_c
unfolding tasks to_dict member
job-IsAmong = record {
  listed = refl;
  idle_before = λ u i. elim i [
    | inl is ↦ subst (IsIdle job ("k" ∷ [])) is (refl, refl)
    | inr none_there ↦ absurd none_there
  ];
  idle_after = λ u i. elim i [
    | inl is ↦ subst (IsIdle job ("k" ∷ [])) is (refl, refl)
    | inr none_there ↦ absurd none_there
  ];
}

run_at_last_example : (k : ℕ) × (k < 2) × IsRunOf calls job board_c (rounds k calls board_c)
run_at_last_example =
    run_at_last 2 calls job (over ∷ []) (foreign ∷ []) claims_a 2 0 board_c job-IsAmong
      board_c-IsWaiting (omega arith) (omega arith)
