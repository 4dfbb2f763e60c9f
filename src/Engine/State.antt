-- ===== src/Engine/State.antt =====
-- session.py, and the state of `Engine` in engine.py. The mutable objects that the source shares are
-- in stores of the engine: a session object by its id, a command object by its address.
use openrois.Common.{ℕ, Bool, Option, List, Text}
use openrois.Common.Dict.{Dict}
use openrois.Profiles.Status.{CompletedStatus, ErrorType}
use openrois.Profiles.Units.{ComponentProfile, EngineProfile}

pub record Session : Type 0 where
  pub trusted : Bool
  pub connected : Bool

-- Which object a source is: the local components, or a child engine.
pub data SourceId : Type 0 where
  local : SourceId
  child : ℕ → SourceId

-- What the engine reads of a `ComponentContract` without waiting.
pub record Source : Type 0 where
  pub engine_ids : List Text
  pub profiles : Dict ComponentProfile
  pub engine_profile : Option EngineProfile

-- `_Command`; `task` says whether a task runs the command.
pub record Command : Type 0 where
  pub session_id : Text
  pub ref : Text
  pub source : Option SourceId
  pub status : Option CompletedStatus
  pub task : Bool

-- `_Subscription`
pub record Subscription : Type 0 where
  pub session_id : Text
  pub source : SourceId
  pub ref : Text
  pub event_type : Text
  pub condition : Text

-- What `session.notify` is called with.
pub data Notification : Type 0 where
  completed : Text → CompletedStatus → Notification
  notify_error : Text → ErrorType → Notification
  notify_event : Text → Text → Notification
  profile_changed : Notification

pub record Engine : Type 0 where
  pub engine_id : Text
  -- `_local` and `_children`, each child with the number that stands for the object
  pub local_source : Source
  pub children : List (ℕ × Source)
  -- every session object that was opened, and the ids in `_sessions`
  pub peers : Dict Session
  pub sessions : List Text
  -- `_binds`: the ids of the sessions that hold a component
  pub binds : Dict (List Text)
  -- the command objects, and `_commands`: the address of the object under each id
  pub objects : List Command
  pub commands : Dict ℕ
  pub subscriptions : Dict Subscription
  pub next_session : ℕ
  pub next_command : ℕ
  -- what was sent, oldest first: the session and the notification
  pub sent : List (Text × Notification)
  -- the calls of `keep_running`, oldest first
  pub kept : List (SourceId × Text)
