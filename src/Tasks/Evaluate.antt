-- ===== src/Tasks/Evaluate.antt =====
-- `TaskBoard.evaluate`: claims, ages and executes.
use Prim.Native.String.{String, ◌++◌ as ◌<>◌}
use suprime.Base.{
  ℕ, ◌+◌, ◌*◌, Bool, true, false, ◌||◌, not, Option, none, some, List, [], ◌∷◌, ◌++◌, ltb,
  if◌then◌else◌,
}
use suprime.Base.Key.{◌==◌, string_eq, string_order, nat_eq, pair_eq}
use suprime.Base.Result.{Result, ok, raise}
use suprime.Base.Dict.{Dict, get, put, del}
use suprime.Base.Sets.{member, add, subset}
use suprime.Store
use suprime.Store.{Store}
use suprime.Tasks.{
  TaskState, pending, done, failed, Task, task_value, claim_value, to_dict, Outcome, returned,
  failed_with, TaskBoard, Calls, task_key, prefix_of, write,
}
use suprime.Tasks.Claims.{or_zero, same_claims, tasks, claims, winner}

module _ {X : Type 0} where
  -- The task after its handler.
  abbrev pub concluded : String → Task X → Outcome X → Task X
  concluded node t (returned x) = record t { state = done; result = some x; owner = some node }
  concluded node t (failed_with text) = record t {
    state = failed;
    error = some text;
    owner = some node;
  }

abbrev pub is_node : String → Option String → Bool
is_node node none = false
is_node node (some other) = other == node

abbrev pub is_pending : TaskState → Bool
is_pending pending = true
is_pending done = false
is_pending failed = false

module _ {X C : Type 0} where
  unfoldable pub maybe_claim : Calls X → Task X → TaskBoard X C → TaskBoard X C
  unfolding Store.contains write
  maybe_claim c t b =
      let key = prefix_of t.id <> b.node_id in
      let ts = c.clock b.reads + c.load * b.load_weight in
      let claimed = write c key (claim_value b.node_id ts) (record b { reads = b.reads + 1 }) in
      if Store.contains key b.store then b else claimed

  unfoldable pub execute : Calls X → Task X → TaskBoard X C → TaskBoard X C
  unfolding add write to_dict
  execute c t b =
      write c (task_key t.id) (task_value (to_dict (concluded b.node_id t (c.run t.kind t))))
        (record b { executed = add t.id b.executed; runs = b.runs ++ t.id ∷ [] })

  abbrev pub execute_if :
      Calls X → Task X → TaskBoard X C → Result (Option String) → TaskBoard X C × Result (Unit {0})
  execute_if c t b (raise err) = (b, raise err)
  execute_if c t b (ok w) = (if is_node b.node_id w then execute c t b else b, ok tt)

  unfoldable pub maybe_execute :
      Calls X → Task X → TaskBoard X C → TaskBoard X C × Result (Unit {0})
  unfolding member winner execute
  maybe_execute c t b =
      let go = execute_if c t b (winner t.id b) in if member t.id b.executed then (b, ok tt) else go

  -- Once the claims are known: is the set stable, and old enough?
  abbrev pub settle :
      Calls X → Task X → TaskBoard X C → Result (Dict String ℕ) → TaskBoard X C × Result (Unit {0})
  settle c t b (raise err) = (b, raise err)
  settle c t b (ok sig) =
      let stable = same_claims sig (get t.id b.claim_sig) in
      let age = or_zero (get t.id b.claim_age) in
      let b' = record b { claim_sig = put t.id sig b.claim_sig } in
      if ltb age b.claim_grace_rounds || not stable then (b', ok tt) else maybe_execute c t b'

  -- One turn of the loop of `evaluate`.
  unfoldable pub turn : Calls X → Task X → TaskBoard X C → TaskBoard X C × Result (Unit {0})
  unfolding maybe_claim claims maybe_execute get put del member subset pair_eq
  turn c t b =
      let claimed = maybe_claim c t b in
      let aged = record claimed {
        claim_age = put t.id (or_zero (get t.id claimed.claim_age) + 1) claimed.claim_age;
      } in
      let rest = settle c t aged (claims t.id aged) in
      if not (is_pending t.state)
      then (record b { claim_age = del t.id b.claim_age; claim_sig = del t.id b.claim_sig }, ok tt)
      else if member t.kind b.handlers
      then rest
      else (b, ok tt)

  abbrev pub next_turn :
      Calls X → TaskBoard X C × Result (Unit {0}) → Task X → TaskBoard X C × Result (Unit {0})
  next_turn c (b, raise err) t = (b, raise err)
  next_turn c (b, ok _) t = turn c t b

  unfoldable pub turns :
      Calls X
      → TaskBoard X C × Result (Unit {0})
      → List (Task X)
      → TaskBoard X C × Result (Unit {0})
  unfolding turn
  turns c s [] = s
  turns c s (t ∷ ts) = turns c (next_turn c s t) ts

  abbrev pub evaluate_all :
      Calls X → TaskBoard X C → Result (List (Task X)) → TaskBoard X C × Result (Unit {0})
  evaluate_all c b (raise err) = (b, raise err)
  evaluate_all c b (ok ts) = turns c (b, ok tt) ts

  unfoldable pub evaluate : Calls X → TaskBoard X C → TaskBoard X C × Result (Unit {0})
  unfolding tasks turns
  evaluate c b = evaluate_all c b (tasks c.empty b)
