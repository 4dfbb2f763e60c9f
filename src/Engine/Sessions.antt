-- ===== src/Engine/Sessions.antt =====
-- engine.py: sessions. `open_session`, `close_session`, the guard of `handle`, `_release` and
-- `_end_session`, and `remove_child`.
use openrois.Common.{
  ℕ, suc, ◌==◌, Bool, true, false, not, ◌&&◌, Option, none, some, List, [], ◌∷◌, ◌++◌,
  if◌then◌else◌, get_elem?, keep, Text, text_eq, codes,
}
use openrois.Common.Dict
use openrois.Common.Dict.{Dict}
use openrois.Common.Numerals.{decimal}
use openrois.Condition.Parse.{mem_text}
use openrois.Profiles.Status.{ReturnCode}
use openrois.Engine.State.{SourceId, local, child, Source, Command, Subscription, Engine}
use openrois.Engine.Routes.{profile_of}
use openrois.Engine.Binds.{holders, is_empty, discard, unbind, unbind_all}
use openrois.Engine.Commands.{is_connected, is_some}
use openrois.Engine.Events.{subscriptions_of, end_subscriptions, announce_profile}

-- `open_session`
unfoldable pub open_session : Engine → Bool → Engine × Text
open_session e trusted =
    let session_id = codes "session-" ++ decimal (suc e.next_session) in
    (
      record e {
        next_session = suc e.next_session;
        peers = Dict.put session_id (record { trusted = trusted; connected = false }) e.peers;
        sessions = e.sessions ++ session_id ∷ [];
      },
      session_id,
    )

-- `session.connected = …`
unfoldable pub set_connected : Engine → Text → Bool → Engine
set_connected e session_id connected = elim (Dict.get session_id e.peers) [
  | none ↦ e
  | some s ↦ record e { peers = Dict.put session_id (record s { connected = connected }) e.peers }
]

-- `_connect`
unfoldable pub connect : Engine → Text → Engine × ReturnCode
connect e session_id = (set_connected e session_id true, ReturnCode.ok)

-- The test of `_spare_shared` of one command object: it runs in a child engine for this session (on
-- `ref`, when one is given), and another session holds its component.
unfoldable pub is_on : Option Text → Text → Bool
is_on none ref = true
is_on (some wanted) ref = text_eq ref wanted

unfoldable pub is_child : Option SourceId → Bool
is_child (some (child k)) = true
is_child _ = false

unfoldable pub is_running_for : Text → Option Text → Command → Bool
is_running_for session_id ref command =
    text_eq command.session_id session_id
    && is_on ref command.ref
    && command.task
    && not (is_some command.status)

unfoldable pub is_spared : Engine → Text → Option Text → Command → Bool
is_spared e session_id ref command =
    is_running_for session_id ref command
    && is_child command.source
    && not (is_empty (discard session_id (holders e command.ref)))

-- the commands of the table, in its order, whose objects pass a test
unfoldable pub commands_where : (Command → Bool) → Engine → Dict ℕ → List (Text × Command)
commands_where test e [] = []
commands_where test e ((command_id, at) ∷ commands) = elim (get_elem? e.objects at) [
  | none ↦ commands_where test e commands
  | some command ↦
      if test command
      then (command_id, command) ∷ commands_where test e commands
      else commands_where test e commands
]

unfoldable pub sources_of : List (Text × Command) → List (SourceId × Text)
sources_of [] = []
sources_of ((command_id, command) ∷ found) = elim command.source [
  | none ↦ sources_of found
  | some source ↦ (source, command_id) ∷ sources_of found
]

-- `_spare_shared`: the calls of `keep_running`
unfoldable pub spare_shared : Engine → Text → Option Text → Engine
spare_shared e session_id ref = record e {
  kept = e.kept ++ sources_of (commands_where (is_spared e session_id ref) e e.commands);
}

-- `_release` up to where it waits for the commands that it aborts: the engine, the return code and
-- the ids of the commands whose tasks it cancels (`tasks` of `_abort_commands`).
unfoldable pub release : Engine → Text → Text → Engine × ReturnCode × List (Text × Command)
release e session_id ref = elim (profile_of e ref) [
  | none ↦ (e, ReturnCode.unsupported, [])
  | some profile ↦
      let e' = unbind e session_id ref in
      (
        spare_shared e' session_id (some ref),
        ReturnCode.ok,
        commands_where (is_running_for session_id (some ref)) e' e'.commands,
      )
]

-- `_end_session` up to where it cancels the sequences of the session and waits for them.
unfoldable pub begin_end : Engine → Text → Engine
begin_end e session_id =
    spare_shared (unbind_all (set_connected e session_id false) session_id) session_id none

-- The rest of `_end_session`, when no other step comes between its rounds.
unfoldable pub end_rest : Engine → Text → Option Engine
end_rest e session_id = end_subscriptions e (subscriptions_of session_id e.subscriptions)

-- the last step of `close_session`
unfoldable pub forget_session : Engine → Text → Engine
forget_session e session_id = record e {
  sessions = keep (λ t. not (text_eq t session_id)) e.sessions;
}

-- the guard of `handle`: `none` where the request reaches its handler
unfoldable pub refused : Engine → Text → Text → Option ReturnCode
refused e session_id method =
    if not (is_connected e session_id) && not (text_eq method (codes "rois.system.connect"))
    then some ReturnCode.error
    else none

unfoldable pub drop_keys {ℓ} : {V : Type ℓ} → List Text → Dict V → Dict V
drop_keys refs [] = []
drop_keys refs ((ref, v) ∷ d) =
    if mem_text ref refs then drop_keys refs d else (ref, v) ∷ drop_keys refs d

unfoldable pub is_source : ℕ → SourceId → Bool
is_source k local = false
is_source k (child j) = j == k

unfoldable pub drop_source : ℕ → Dict Subscription → Dict Subscription
drop_source k [] = []
drop_source k ((subscribe_id, s) ∷ subscriptions) =
    if is_source k s.source
    then drop_source k subscriptions
    else (subscribe_id, s) ∷ drop_source k subscriptions

unfoldable pub find_child : ℕ → List (ℕ × Source) → Option Source
find_child k [] = none
find_child k ((j, s) ∷ children) = if j == k then some s else find_child k children

unfoldable pub without_child : ℕ → List (ℕ × Source) → List (ℕ × Source)
without_child k [] = []
without_child k ((j, s) ∷ children) = if j == k then children else (j, s) ∷ without_child k children

-- `remove_child`
unfoldable pub remove_child : Engine → ℕ → Engine
remove_child e k = elim (find_child k e.children) [
  | none ↦ e
  | some s ↦ announce_profile (record e {
    children = without_child k e.children;
    binds = drop_keys (Dict.keys s.profiles) e.binds;
    subscriptions = drop_source k e.subscriptions;
  })
]
