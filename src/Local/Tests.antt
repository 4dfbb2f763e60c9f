-- ===== src/Local/Tests.antt =====
-- local.py: the theorems at one component of an engine, with two starts, a suspension and an error.
use openrois.Common.{
  ℕ, ◌≤◌, ◌≡◌, ◌⊎◌, refl, Bool, true, false, none, some, List, [], ◌∷◌, arith, if◌then◌else◌,
  length, any, Text, codes, text_eq, text_eq_iff,
}
use openrois.Common.Dict
use openrois.Common.Dict.{Dict}
use openrois.Condition.Parse.{mem_text}
use openrois.Engine.Binds.{is_empty}
use openrois.Engine.Execute.{last_named}
use openrois.Profiles.Status.{ComponentStatus, CompletedStatus, ReturnCode, ErrorType}
use openrois.Profiles.Units.{Named, ParameterProfile, ComponentProfile}
use openrois.Local.State.{Lifecycle, Hosted, Local}
use openrois.Local.Statuses.{raise_component, operable, is_lifecycle_ready, has_error}
use openrois.Local.Results.{results_kept, keep_results, command_result}
use openrois.Local.Commands.{begin_start, time_out_start, take_turn, with_task, aborting}
use openrois.Local.Suspensions.{begin_suspend, begin_stop, end_resume}
use openrois.Local.Ends.{Work, with_id, returned, is_none, begin}
use openrois.Local.Run.{after_wait, ends, released}
use openrois.Local.Hosting.{is_known_resource, try_open, open_resources, start_each, start}
use openrois.Local.Parameters.{
  typed, type_code, named_value, begin_apply, end_apply, apply, apply_stored, store_all, store_one,
  is_typed,
}
use openrois.Local.Turns.{IsLive, task_at}
use openrois.Local.Steps
use openrois.Local.Orderly.{Reach-one_start}
use openrois.Local.Aborting.{Passes, at_once, passing}
use openrois.Local.Aborted.{EndsAborted, by_start, superseded-EndsAborted}
use openrois.Local.Superseded.{held-ends}
use openrois.Local.Kept
use openrois.Local.Recent.{keep_results-recent}
use openrois.Local.Stored.{expected, apply-stored}
use openrois.Local.Starting.{IsStarted, start-IsStarted}

abbrev speed : ParameterProfile
speed = record {
  name = codes "speed";
  data_type_ref = codes "int";
  default_value = some (codes "1");
  read_only = false;
}

abbrev wheels_profile : ComponentProfile
wheels_profile = record {
  identifier = record { authority = []; code = codes "Wheels" };
  name = [];
  function = none;
  sub_component_profiles = [];
  command_profiles = [];
  query_profiles = [];
  event_profiles = [];
  parameter_profiles = speed ∷ [];
}

abbrev wheels : Hosted
wheels = record {
  name = codes "w";
  ref = codes "e/w";
  profile = wheels_profile;
  parameters = [];
  resources = 4 ∷ [];
  state = Lifecycle.ready;
  raised = [];
  running = [];
  starts = [];
  start = none;
  aborted = [];
  takeover = [];
  rois_common = true;
  started = false;
  suspensions = [];
  suspension = none;
}

abbrev idle : Work
idle = record { results = []; hosted = wheels }

abbrev is_any : Text → Bool
is_any id = true

-- one start runs, behind a takeover that had nothing to halt
abbrev moving : Work
moving = (take_turn (begin_start idle (codes "e/cmd-1")) 0 (codes "e/cmd-1") []).0

moving-Reach : Steps.Reach is_any idle moving
unfolding begin_start
moving-Reach =
    Steps.next
      (Steps.next Steps.here
        (Steps.starts (codes "e/cmd-1") refl (λ a s at e. absurd (ground (arith, at)))))
      (Steps.takes_turn (record { current = 0; previous = none; is_awaited = true }) []
        (record { command_id = codes "e/cmd-1"; task = none }) refl refl
        (λ a e. absurd (ground (arith, e))) refl)

Reach-one_start_example : ◌≡◌ {A = ℕ} 0 0
unfolding begin_start take_turn begin with_task aborting task_at mem_text any
Reach-one_start_example = Reach-one_start is_any idle moving refl refl moving-Reach 0 0 refl refl

-- a start that waits for its turn
abbrev starting : Work
starting = record {
  results = [];
  hosted = record wheels {
    starts = record { command_id = codes "e/cmd-1"; task = none } ∷ [];
    start = some 0;
    started = true;
    takeover = record { current = 0; previous = none; is_awaited = true } ∷ [];
  };
}

-- another start arrives, and its time is over before its turn
abbrev outlived : Work
outlived = (time_out_start (begin_start starting (codes "e/cmd-2")) 1 (codes "e/cmd-2") false).0

other_command : text_eq (codes "e/cmd-2") (codes "e/cmd-1") ≡ false
unfolding text_eq
other_command = refl

outlives : Passes is_any (codes "e/cmd-1") (begin_start starting (codes "e/cmd-2")) outlived
unfolding begin_start
outlives =
    passing at_once
      (Steps.times_out 1 (record { command_id = codes "e/cmd-2"; task = none }) false refl refl)
      (λ e. cc (other_command, (text_eq_iff (codes "e/cmd-2") (codes "e/cmd-1")).1 e))

superseded-EndsAborted_example : EndsAborted outlived 0 (codes "e/cmd-1")
superseded-EndsAborted_example =
    superseded-EndsAborted is_any starting (begin_start starting (codes "e/cmd-2")) outlived 0
      (record { command_id = codes "e/cmd-1"; task = none }) refl refl refl
      (by_start (codes "e/cmd-2")) outlives

-- A start that waits for its turn when a suspend arrives begins its handler while the suspension is in
-- force: only the arrival of a command asks for a suspension.
begins_suspended :
    ((take_turn (begin_suspend starting (codes "e/cmd-4")).0 0 (codes "e/cmd-1") []).1 ≡ none)
    × ((take_turn
          (begin_suspend starting (codes "e/cmd-4")).0
          0
          (codes "e/cmd-1")
          []).0.hosted.suspension
        ≡ some 0)
    × IsLive
        (take_turn
          (begin_suspend starting (codes "e/cmd-4")).0
          0
          (codes "e/cmd-1")
          []).0.hosted.starts
        0
unfolding take_turn begin_suspend begin with_id with_task task_at mem_text any is_none
begins_suspended = (refl, refl, refl)

-- a suspension in force
abbrev held : Work
held = record {
  results = [];
  hosted = record wheels {
    suspensions = record { released = false; aborted = false } ∷ [];
    suspension = some 0;
  };
}

held-ends_example :
    (after_wait (begin_stop held (codes "e/cmd-3")).hosted (codes "turn") 0 false
      ≡ ends CompletedStatus.abort)
    × (after_wait (end_resume held (codes "e/cmd-3") (returned [])).0.hosted (codes "turn") 0 false
        ≡ released (end_resume held (codes "e/cmd-3") (returned [])).0.hosted (codes "turn"))
unfolding mem_text any
held-ends_example =
    held-ends held (codes "e/cmd-3") (codes "turn") 0 (record { released = false; aborted = false })
      [] refl refl refl

abbrev robot : Local
robot = record {
  engine_id = codes "e";
  event_lifetime = 60;
  hosted = (codes "e/w", wheels) ∷ [];
  resources = 4 ∷ [];
  opened = [];
  subscriptions =
      (
        codes "e/sub-1",
        record { ref = codes "e/w"; event_type = codes "turned"; arguments = []; deliver = 7 },
      )
      ∷ [];
  events = [];
  results = [];
  errors = [];
  engine_raised = none;
  has_loop = true;
  has_on_error = true;
  next_id = 1;
  reported = [];
  delivered = [];
}

abbrev troubled : Local
troubled =
    raise_component robot (codes "e/w") 0 ComponentStatus.warning []
      ErrorType.component_internal_error 5

keep_results-recent_example :
    (length (keep_results robot (codes "e/cmd-1") []).results ≤ results_kept)
    × (command_result (keep_results robot (codes "e/cmd-1") []) (codes "e/cmd-1")
        ≡ (ReturnCode.ok, []))
    × ((command_result (keep_results robot (codes "e/cmd-1") []) (codes "e/cmd-2") ≡ (
          if text_eq (codes "e/cmd-1") (codes "e/cmd-2")
          then (ReturnCode.ok, [])
          else command_result robot (codes "e/cmd-2")))
        ⊎ (results_kept ≤ length robot.results))
keep_results-recent_example = keep_results-recent robot (codes "e/cmd-1") (codes "e/cmd-2") []

abbrev faster : List Named
faster = record { name = codes "speed"; data_type_ref = []; value = codes "3" } ∷ []

apply-stored_example :
    Dict.get (codes "speed") (apply wheels wheels true faster).0.parameters
    ≡ expected
        (speed ∷ [])
        (codes "speed")
        (Dict.get (codes "speed") [])
        (last_named (λ p. p.name) (codes "speed") faster)
unfolding apply begin_apply end_apply apply_stored store_all store_one is_typed typed type_code
    named_value operable is_lifecycle_ready has_error any text_eq
apply-stored_example = apply-stored wheels wheels true faster (codes "speed") refl

-- two components that share a resource, which would not open a second time
abbrev twins : Local
twins = record robot {
  hosted =
      (codes "e/w", wheels)
      ∷ (codes "e/v", record wheels { name = codes "v"; ref = codes "e/v" })
      ∷ [];
}

abbrev opens_first : List ℕ → ℕ → Bool
opens_first tried r = is_empty tried

start-IsStarted_example :
    IsStarted opens_first
      (λ ref. true)
      twins
      (start opens_first (λ ref. true) twins).0
      (start opens_first (λ ref. true) twins).1
start-IsStarted_example = start-IsStarted opens_first (λ ref. true) twins refl

twins_try_once : (start opens_first (λ ref. true) twins).1 ≡ 4 ∷ []
unfolding start start_each open_resources try_open is_known_resource any is_empty
twins_try_once = refl
