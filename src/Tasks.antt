-- ===== src/Tasks.antt =====
-- suprime/tasks.py: the task board of one node over its store. `X` are the JSON values. The handlers
-- are a parameter, which returns a value or fails with the text of its exception; their calls are
-- the field `runs`, in order. The clock is a parameter too: its reading number `reads` is the next.
pub mod Claims
pub mod Evaluate
pub mod Winner
pub mod Once
pub mod Progress
pub mod Waiting
pub mod Idle
pub mod Liveness
use Prim.Native.String.{String, ◌++◌ as ◌<>◌}
use text.Mathlib.Text.{starts_with}
use suprime.Base.{
  ℕ, ◌+◌, ◌*◌, Bool, true, false, ◌&&◌, ◌||◌, not, Option, none, some, List, [], ◌∷◌, ◌++◌, ltb,
  leb, if◌then◌else◌,
}
use suprime.Base.Key.{Eq, ◌==◌, string_eq, string_order, nat_eq, pair_eq, str_less}
use suprime.Base.Result.{Result, ok, raise, key_error, value_error, type_error, ◌>>=◌}
use suprime.Base.Dict.{Dict, get, put, del}
use suprime.Base.Sets.{member, add, subset}
use suprime.Store
use suprime.Store.{Store}

abbrev pub task_prefix : String
task_prefix = "__task__/"

abbrev pub claim_prefix : String
claim_prefix = "__claim__/"

pub data TaskState : Type 0 where
  pending done failed : TaskState

pub record Task (X : Type 0) : Type 0 where
  pub id : String
  pub kind : String
  pub args : X
  pub state : TaskState
  pub submitted_by : String
  pub owner : Option String
  pub result : Option X
  pub error : Option String

-- The dictionary of a task, any of whose fields may be missing.
pub record TaskDict (X : Type 0) : Type 0 where
  pub id : Option String
  pub kind : Option String
  pub args : Option X
  pub state : Option String
  pub submitted_by : Option String
  pub owner : Option (Option String)
  pub result : Option (Option X)
  pub error : Option (Option String)

-- What the store holds: a task, a claim, or something else.
pub data Value (X : Type 0) : Type 0 where
  task_value : TaskDict X → Value X
  claim_value : String → ℕ → Value X
  other_value : X → Value X

abbrev pub state_value : TaskState → String
state_value pending = "pending"
state_value done = "done"
state_value failed = "failed"

-- `TaskState(text)`
unfoldable pub parse_state : String → Result TaskState
parse_state text =
    if text == "pending"
    then ok pending
    else if text == "done"
    then ok done
    else if text == "failed"
    then ok failed
    else raise value_error

abbrev required : {A : Type 0} → Option A → Result A
required none = raise key_error
required (some a) = ok a

abbrev flat : {A : Type 0} → Option (Option A) → Option A
flat none = none
flat (some a) = a

abbrev or_default : {A : Type 0} → A → Option A → A
or_default default none = default
or_default default (some a) = a

module _ {X : Type 0} where
  unfoldable pub to_dict : Task X → TaskDict X
  to_dict t = record {
    id = some t.id;
    kind = some t.kind;
    args = some t.args;
    state = some (state_value t.state);
    submitted_by = some t.submitted_by;
    owner = some t.owner;
    result = some t.result;
    error = some t.error;
  }

  -- `empty` is the empty dictionary.
  unfoldable pub from_dict : X → TaskDict X → Result (Task X)
  unfolding parse_state
  from_dict empty d = required d.id >>= λ id. required d.kind >>= λ kind.
      required d.state >>= λ text. parse_state text >>= λ state. required d.submitted_by >>= λ by.
      ok (record {
        id = id;
        kind = kind;
        args = or_default empty d.args;
        state = state;
        submitted_by = by;
        owner = flat d.owner;
        result = flat d.result;
        error = flat d.error;
      })

-- What a handler ends in.
pub data Outcome (X : Type 0) : Type 0 where
  returned : X → Outcome X
  failed_with : String → Outcome X

pub record TaskBoard (X C : Type 0) : Type 0 where
  pub node_id : String
  pub store : Store String (Value X) C
  pub claim_grace_rounds : ℕ
  pub handlers : List String
  pub executed : List String
  pub claim_age : Dict String ℕ
  pub claim_sig : Dict String (List (String × ℕ))
  pub load_weight : ℕ
  pub reads : ℕ
  pub runs : List String

-- What the board calls: the clock, the load provider (no load where there is none), the handlers by
-- kind, and the empty dictionary.
pub record Calls (X : Type 0) : Type 0 where
  pub clock : ℕ → ℕ
  pub load : ℕ
  pub run : String → Task X → Outcome X
  pub empty : X

unfoldable pub init : {X C : Type 0} → String → Store String (Value X) C → ℕ → TaskBoard X C
init node_id store claim_grace_rounds = record {
  node_id = node_id;
  store = store;
  claim_grace_rounds = claim_grace_rounds;
  handlers = [];
  executed = [];
  claim_age = [];
  claim_sig = [];
  load_weight = 0;
  reads = 0;
  runs = [];
}

abbrev pub task_key : String → String
task_key task_id = task_prefix <> task_id

abbrev pub prefix_of : String → String
prefix_of task_id = (claim_prefix <> task_id) <> "/"

module _ {X C : Type 0} where
  unfoldable pub set_load_model : ℕ → TaskBoard X C → TaskBoard X C
  set_load_model weight b = record b { load_weight = weight }

  unfoldable pub register_handler : String → TaskBoard X C → TaskBoard X C
  unfolding add
  register_handler kind b = record b { handlers = add kind b.handlers }

  -- `self._store.set(key, value)`, with the reading of the clock that it makes.
  unfoldable pub write : Calls X → String → Value X → TaskBoard X C → TaskBoard X C
  unfolding Store.set
  write c key value b = record b {
    store = (Store.set key (some value) (c.clock b.reads) b.store).1;
    reads = b.reads + 1;
  }

  -- `task_id` is the given or a fresh one, `args` the given arguments.
  unfoldable pub submit : Calls X → String → X → String → TaskBoard X C → TaskBoard X C
  unfolding write to_dict
  submit c kind args task_id b =
      write c (task_key task_id)
        (task_value (
          to_dict (record {
            id = task_id;
            kind = kind;
            args = args;
            state = pending;
            submitted_by = b.node_id;
            owner = none;
            result = none;
            error = none;
          })))
        b
