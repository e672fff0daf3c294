-- ===== src/Tasks/Claims.antt =====
-- The tasks and the claims in the store, and the winner among the claims.
use Prim.Native.String.{String}
use text.Mathlib.Text.{starts_with}
use suprime.Base.{ℕ, Bool, true, false, ◌&&◌, Option, none, some, List, [], ◌∷◌, ltb, if◌then◌else◌}
use suprime.Base.Key.{string_eq, string_order, nat_eq, pair_eq, str_less}
use suprime.Base.Result.{Result, ok, raise, key_error, type_error, ◌>>=◌}
use suprime.Base.Dict.{Dict, put}
use suprime.Base.Sets.{subset}
use suprime.Store
use suprime.Store.{Store}
use suprime.Tasks.{
  task_prefix, Task, Value, task_value, claim_value, other_value, from_dict, TaskBoard, task_key,
  prefix_of,
}

module _ {X : Type 0} where
  -- A stored value read as a task. Values that are not dictionaries raise.
  abbrev pub as_task : X → Option (Value X) → Result (Task X)
  as_task empty (some (task_value d)) = from_dict empty d
  as_task empty (some (claim_value node ts)) = raise key_error
  as_task empty (some (other_value x)) = raise type_error
  as_task empty none = raise type_error

  unfoldable pub tasks_in : X → List (String × Option (Value X)) → Result (List (Task X))
  unfolding from_dict
  tasks_in empty [] = ok []
  tasks_in empty ((k, v) ∷ items) =
      let rest = tasks_in empty items in
      if starts_with k task_prefix
      then (as_task empty v >>= λ t. rest >>= λ ts. ok (t ∷ ts))
      else rest

  -- `claims[value["node_id"]] = value["claim_ts"]`
  abbrev pub as_claim : Option (Value X) → Result (String × ℕ)
  as_claim (some (claim_value node ts)) = ok (node, ts)
  as_claim (some (task_value d)) = raise key_error
  as_claim (some (other_value x)) = raise type_error
  as_claim none = raise type_error

  unfoldable pub claims_in :
      String → List (String × Option (Value X)) → Dict String ℕ → Result (Dict String ℕ)
  unfolding put
  claims_in prefix [] claims = ok claims
  claims_in prefix ((k, v) ∷ items) claims =
      let skip = claims_in prefix items claims in
      if starts_with k prefix
      then (as_claim v >>= λ p. claims_in prefix items (put p.0 p.1 claims))
      else skip

-- `min(claims.items(), key=lambda kv: (kv[1], kv[0]))[0]`
abbrev pub earlier : String × ℕ → String × ℕ → Bool
earlier p q = if ltb p.1 q.1 then true else if ltb q.1 p.1 then false else str_less p.0 q.0

unfoldable pub earliest : String × ℕ → Dict String ℕ → String × ℕ
earliest best [] = best
earliest best (p ∷ claims) = earliest (if earlier p best then p else best) claims

abbrev pub winner_of : Dict String ℕ → Option String
winner_of [] = none
winner_of (p ∷ claims) = some (earliest p claims).0

-- `frozenset(...) == ...` of items that are all different
abbrev pub same_claims : List (String × ℕ) → Option (List (String × ℕ)) → Bool
same_claims sig none = false
same_claims sig (some old) = subset sig old && subset old sig

abbrev pub or_zero : Option ℕ → ℕ
or_zero none = 0
or_zero (some n) = n

module _ {X : Type 0} where
  -- `Task.from_dict(data) if data else None`, of what is not an empty value.
  abbrev pub found : X → Option (Value X) → Result (Option (Task X))
  found empty none = ok none
  found empty (some v) = as_task empty (some v) >>= λ t. ok (some t)

module _ {X C : Type 0} where
  unfoldable pub tasks : X → TaskBoard X C → Result (List (Task X))
  unfolding Store.items tasks_in
  tasks empty b = tasks_in empty (Store.items b.store)

  unfoldable pub get_task : X → String → TaskBoard X C → Result (Option (Task X))
  unfolding Store.read from_dict
  get_task empty task_id b = found empty (Store.read (task_key task_id) none b.store)

  unfoldable pub claims : String → TaskBoard X C → Result (Dict String ℕ)
  unfolding Store.items claims_in
  claims task_id b = claims_in (prefix_of task_id) (Store.items b.store) []

  unfoldable pub winner : String → TaskBoard X C → Result (Option String)
  unfolding claims earliest
  winner task_id b = claims task_id b >>= λ cs. ok (winner_of cs)
