-- ===== src/Engine/Requests.antt =====
-- engine.py: the requests that pass on to one source. Each is cut where it waits for the source.
use openrois.Common.{
  ℕ, Bool, true, false, Option, none, some, List, [], ◌∷◌, ◌++◌, if◌then◌else◌, length, get_elem?,
  Text, text_eq, codes, Result, ok, err,
}
use openrois.Common.Dict
use openrois.Common.Dict.{Dict}
use openrois.Condition.Syntax.{Condition, ConditionError}
use openrois.Condition.Parse.{parse_condition}
use openrois.Profiles.Status.{ReturnCode, CompletedStatus}
use openrois.Profiles.Units.{Named, CommandUnit}
use openrois.Engine.State.{SourceId, Engine}
use openrois.Engine.Routes.{Entry, components, owner_of}
use openrois.Engine.Binds.{holds, as_seen_by}
use openrois.Engine.Commands.{is_some, store, finish, status_at, prune}
use openrois.Engine.Execute.{checked_parameters}
use openrois.Engine.Events.{known_subscription}
use openrois.Engine.Pick.{Picked, not_picked, picked}

-- What a request does up to its wait: the answer without a wait, or what the source is asked.
pub data Asked {ℓ} (A : Type ℓ) : Type ℓ where
  answered : ReturnCode → Asked A
  asks : SourceId → A → Asked A

unfoldable pub parses : Result ConditionError Condition → Bool
parses (ok parsed) = true
parses (err e) = false

-- `_empty_filter`
unfoldable pub empty_filter : Text → Bool
empty_filter condition = parses (parse_condition condition [])

unfoldable pub asked_owner : Bool → Text → Option SourceId → Asked Text
asked_owner empty assigned_id none = answered ReturnCode.bad_parameter
asked_owner empty assigned_id (some source) =
    if empty then asks source assigned_id else answered ReturnCode.bad_parameter

-- `_get_error_detail` and `_get_event_detail`, which differ only in what they ask the source
unfoldable pub get_detail : Engine → Text → Text → Asked Text
get_detail e assigned_id condition =
    asked_owner (empty_filter condition) assigned_id (owner_of e assigned_id)

-- `_get_parameter`
unfoldable pub get_parameter : Engine → Text → Text → Asked Text
get_parameter e session_id ref = elim (Dict.get ref (components e)) [
  | none ↦ answered ReturnCode.unsupported
  | some (profile, source) ↦
      if holds e session_id ref then asks source ref else answered ReturnCode.error
]

unfoldable pub asked_parameters : SourceId → Option (List Named) → Asked (List Named)
asked_parameters source none = answered ReturnCode.bad_parameter
asked_parameters source (some parameters) = asks source parameters

-- `_set_parameter` up to the call of the source
unfoldable pub set_parameter :
    (Text → Text → Bool) → Engine → Text → Text → List Named → Asked (List Named)
set_parameter decodes e session_id ref parameters = elim (Dict.get ref (components e)) [
  | none ↦ answered ReturnCode.unsupported
  | some (profile, source) ↦
      if holds e session_id ref
      then asked_parameters source (checked_parameters decodes profile parameters)
      else answered ReturnCode.error
]

-- `known is None or known.status is not None`
unfoldable pub is_free_id : Engine → Text → Bool
is_free_id e command_id = elim (Dict.get command_id e.commands) [
  | none ↦ true
  | some at ↦ is_some (status_at e at)
]

unfoldable pub new_object : Engine → Text → Text → SourceId → Engine
new_object e session_id ref source = record e {
  objects =
      e.objects
      ++ record {
        session_id = session_id;
        ref = ref;
        source = some source;
        status = none;
        task = false;
      }
        ∷ [];
}

-- `_set_parameter` from an OK of the source with a command id on: the engine, and the address of the
-- command object that `_complete` is then called on.
unfoldable pub parameter_set : Engine → Text → Text → SourceId → Text → Engine × ℕ
parameter_set e session_id ref source command_id =
    let made = new_object e session_id ref source in
    let entered =
      prune (record made { commands = Dict.put command_id (length e.objects) e.commands }) in
    (if is_free_id e command_id then entered else made, length e.objects)

-- What `_get_command_result` answers of a command object. OK without a wait: the command never ran.
unfoldable pub result_source : Text → Option SourceId → Asked Text
result_source command_id none = answered ReturnCode.ok
result_source command_id (some source) = asks source command_id

unfoldable pub asked_result : Engine → Bool → Text → Option ℕ → Asked Text
asked_result e empty command_id none = answered ReturnCode.bad_parameter
asked_result e empty command_id (some at) = elim (get_elem? e.objects at) [
  | none ↦ answered ReturnCode.bad_parameter
  | some command ↦
      if empty then result_source command_id command.source else answered ReturnCode.bad_parameter
]

-- `_get_command_result`
unfoldable pub get_command_result : Engine → Text → Text → Asked Text
get_command_result e command_id condition =
    asked_result e (empty_filter condition) command_id (Dict.get command_id e.commands)

-- `_query` from the reply of the source on
unfoldable pub query_reply :
    Engine → Text → Text → Text → ReturnCode → List Named → ReturnCode × List Named
query_reply e session_id ref query_type ReturnCode.ok results = (
  ReturnCode.ok,
  if text_eq query_type (codes "component_status")
      then as_seen_by e session_id ref results
      else results,
)
query_reply e session_id ref query_type code results = (code, results)

-- What `_subscribe` does up to its wait: an id that is there already is the answer.
pub data Subscribing : Type 0 where
  failed : ReturnCode → Subscribing
  known : Text → Subscribing
  calls : SourceId → Text → List Named → Text → Subscribing

unfoldable pub subscribing : SourceId → Text → List Named → Text → Option Text → Subscribing
subscribing source ref arguments condition none = calls source ref arguments condition
subscribing source ref arguments condition (some subscribe_id) = known subscribe_id

-- `_subscribe` behind `_pick`, up to the call of the source
unfoldable pub subscribe : Engine → Text → Text → Picked → Subscribing
subscribe e session_id event_type (not_picked code) = failed code
subscribe e session_id event_type (picked ref source arguments condition) =
    subscribing source ref arguments condition
      (known_subscription e session_id event_type condition)

-- `_run_unit` up to the wait for its task: the address of the command object, or an end with ERROR.
unfoldable pub start_object : Engine → Text → Text → Option ℕ → Option Entry → Engine × Option ℕ
start_object e session_id command_id (some at) (some entry) = elim (get_elem? e.objects at) [
  | none ↦ (e, some at)
  | some command ↦ (store e at (record command { task = true }), some at)
]
start_object e session_id command_id _ _ =
    (finish e session_id command_id CompletedStatus.error, none)

unfoldable pub start_unit : Engine → Text → CommandUnit → Engine × Option ℕ
start_unit e session_id unit =
    start_object e session_id unit.command_id (Dict.get unit.command_id e.commands)
      (Dict.get unit.component_ref (components e))

-- `_run_unit` from the end of its task on: `command.task = None`, and the finish under its id
unfoldable pub end_unit : Engine → Text → CommandUnit → ℕ → CompletedStatus → Engine
end_unit e session_id unit at status = elim (get_elem? e.objects at) [
  | none ↦ finish e session_id unit.command_id status
  | some command ↦
      finish (store e at (record command { task = false })) session_id unit.command_id status
]
