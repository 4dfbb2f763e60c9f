-- ===== src/Local/Run.antt =====
-- local.py: what becomes of a command when it arrives, and when a hold on it ends. `run` up to the
-- part that the type of the command names, and `_held`.
use openrois.Common.{
  ℕ, Bool, false, not, ◌&&◌, Option, none, some, List, [], ◌∷◌, if◌then◌else◌, ltb, get_elem?, Text,
  codes, text_eq,
}
use openrois.Condition.Parse.{mem_text}
use openrois.Profiles.Status.{CompletedStatus}
use openrois.Profiles.Units.{MessageProfile}
use openrois.Local.State.{Suspension, Hosted}
use openrois.Local.Statuses.{operable}
use openrois.Local.Ends.{is_none}

-- Where a command goes: to `_apply`, to its end without a handler, to the part for its type, to a wait
-- for the end of a suspension, or to its handler.
pub data Route : Type 0 where
  applies suspends resumes starts stops runs : Route
  ends : CompletedStatus → Route
  waits : ℕ → Route

-- `_UNSTARTED_NO_OPS`
abbrev pub unstarted_no_ops : List Text
unstarted_no_ops = codes "suspend" ∷ codes "resume" ∷ codes "stop" ∷ []

-- whether a command has nothing to do, since its component is not started
unfoldable pub is_no_op : Hosted → Text → Bool
is_no_op h command_type =
    mem_text command_type unstarted_no_ops
    && not h.started
    && not (text_eq command_type (codes "stop") && not (is_none h.start))

unfoldable pub dispatch : Text → Route
dispatch command_type =
    if text_eq command_type (codes "start")
    then starts
    else if text_eq command_type (codes "stop")
    then stops
    else runs

-- a command that is not held, or not any more
unfoldable pub released : Hosted → Text → Route
released h command_type = if operable h then dispatch command_type else ends CompletedStatus.error

-- the test of the loop of `_held`
unfoldable pub hold : Hosted → Text → Route
hold h command_type = elim h.suspension [ none ↦ released h command_type | some s ↦ waits s ]

unfoldable pub common_route : Hosted → Text → Route
common_route h command_type =
    if is_no_op h command_type
    then ends CompletedStatus.ok
    else if text_eq command_type (codes "suspend")
    then suspends
    else if text_eq command_type (codes "resume")
    then resumes
    else if text_eq command_type (codes "stop")
    then stops
    else hold h command_type

-- `run` of a command that has just arrived
unfoldable pub route : Hosted → Text → Route
route h command_type =
    if text_eq command_type (codes "set_parameter")
    then applies
    else if not (operable h)
    then ends CompletedStatus.error
    else if h.rois_common
    then common_route h command_type
    else dispatch command_type

unfoldable pub is_lift_aborted : Option Suspension → Bool
is_lift_aborted none = false
is_lift_aborted (some s) = s.aborted

-- a round of the loop of `_held` from the end of its wait for the suspension `s` on
unfoldable pub after_wait : Hosted → Text → ℕ → Bool → Route
after_wait h command_type s is_timed_out =
    if is_timed_out
    then ends CompletedStatus.timeout
    else if is_lift_aborted (get_elem? h.suspensions s)
    then ends CompletedStatus.abort
    else hold h command_type

-- `_timeout` in milliseconds: the outer `none` is the StopIteration where no command has the name.
unfoldable pub message_timeout : Option ℕ → Option ℕ
message_timeout none = none
message_timeout (some t) = if ltb 0 t then some t else none

unfoldable pub command_timeout : List MessageProfile → Text → Option (Option ℕ)
command_timeout [] command_type = none
command_timeout (m ∷ messages) command_type =
    if text_eq m.name command_type
    then some (message_timeout m.timeout)
    else command_timeout messages command_type
