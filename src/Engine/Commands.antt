-- ===== src/Engine/Commands.antt =====
-- engine.py: the command table. A command object has an address in `objects`, and `commands` has the
-- address of the object under each id.
use openrois.Common.{
  ℕ, zero, suc, ◌-◌, Bool, true, false, not, ◌&&◌, Option, none, some, List, [], ◌∷◌, ◌++◌,
  if◌then◌else◌, length, get_elem?, set, Text,
}
use openrois.Common.Dict
use openrois.Common.Dict.{Dict}
use openrois.Condition.Parse.{mem_text}
use openrois.Profiles.Status.{CompletedStatus}
use openrois.Profiles.Units.{CommandUnit}
use openrois.Engine.State.{SourceId, Command, Notification, completed, Engine}

-- How many finished commands the table keeps: `_COMMANDS_KEPT`.
abbrev pub commands_kept : ℕ
commands_kept = 4096

-- `session.notify(…)`
unfoldable pub notify : Engine → Text → Notification → Engine
notify e session_id n = record e { sent = e.sent ++ (session_id, n) ∷ [] }

-- `session.connected`
unfoldable pub is_connected : Engine → Text → Bool
is_connected e session_id = elim (Dict.get session_id e.peers) [
  | none ↦ false
  | some s ↦ s.connected
]

-- `session.connected and session.id in self._sessions`
unfoldable pub is_served : Engine → Text → Bool
is_served e session_id = is_connected e session_id && mem_text session_id e.sessions

unfoldable pub store : Engine → ℕ → Command → Engine
store e at command = record e { objects = set e.objects at command }

-- `_complete`, on the command object at an address
unfoldable pub complete_object :
    Engine → Text → Text → ℕ → CompletedStatus → Command → Option CompletedStatus → Engine
complete_object e session_id command_id at status command (some ended) = e
complete_object e session_id command_id at status command none =
    let e' = store e at (record command { status = some status }) in
    if is_served e' session_id then notify e' session_id (completed command_id status) else e'

unfoldable pub complete : Engine → Text → Text → ℕ → CompletedStatus → Engine
complete e session_id command_id at status = elim (get_elem? e.objects at) [
  | none ↦ e
  | some command ↦ complete_object e session_id command_id at status command command.status
]

-- `_finish`
unfoldable pub finish : Engine → Text → Text → CompletedStatus → Engine
finish e session_id command_id status = elim (Dict.get command_id e.commands) [
  | none ↦ e
  | some at ↦ complete e session_id command_id at status
]

unfoldable pub is_some {ℓ} : {A : Type ℓ} → Option A → Bool
is_some none = false
is_some (some a) = true

-- `_skip` of one command: the guard, then the object without its source, finished with ABORT
unfoldable pub skip_object : Engine → Text → Text → ℕ → Command → Engine
skip_object e session_id command_id at command =
    if not (is_some command.status) && not command.task
    then finish (store e at (record command { source = none })) session_id command_id
        CompletedStatus.abort
    else e

unfoldable pub skip_one : Engine → Text → Text → Engine
skip_one e session_id command_id = elim (Dict.get command_id e.commands) [
  | none ↦ e
  | some at ↦ elim (get_elem? e.objects at) [
    | none ↦ e
    | some command ↦ skip_object e session_id command_id at command
  ]
]

-- `_skip`
unfoldable pub skip : Engine → Text → List CommandUnit → Engine
skip e session_id [] = e
skip e session_id (unit ∷ units) = skip (skip_one e session_id unit.command_id) session_id units

-- the status of the object at an address
unfoldable pub status_at : Engine → ℕ → Option CompletedStatus
status_at e at = elim (get_elem? e.objects at) [ none ↦ none | some command ↦ command.status ]

-- The rounds of `_prune_commands`: the first `excess` entries that are finished are dropped.
unfoldable pub prune_rounds : Engine → ℕ → Dict ℕ → Dict ℕ
prune_rounds e zero commands = commands
prune_rounds e (suc excess) [] = []
prune_rounds e (suc excess) ((command_id, at) ∷ commands) =
    let dropped = prune_rounds e excess commands in
    let left = (command_id, at) ∷ prune_rounds e (suc excess) commands in
    if is_some (status_at e at) then dropped else left

-- `_prune_commands`; without an excess the difference is 0, and nothing is dropped.
unfoldable pub prune : Engine → Engine
prune e = record e { commands = prune_rounds e (length e.commands - commands_kept) e.commands }

-- `self._commands[command_id] = _Command(session.id, ref, source)`
unfoldable pub add_command : Engine → Text → Text → Text → SourceId → Engine
add_command e session_id command_id ref source = record e {
  objects =
      e.objects
      ++ record {
        session_id = session_id;
        ref = ref;
        source = some source;
        status = none;
        task = false;
      }
        ∷ [];
  commands = Dict.put command_id (length e.objects) e.commands;
}
