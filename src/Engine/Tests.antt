-- ===== src/Engine/Tests.antt =====
-- engine.py: the theorems on binds, commands, errors and routes at one engine.
use openrois.Common.{
  ◌≡◌, refl, ◌≤◌, ◌⊎◌, true, false, not, ◌&&◌, none, some, List, [], ◌∷◌, ◌++◌, ◌+◌, if◌then◌else◌,
  length, Text, codes, text_eq, any, all,
}
use openrois.Common.Dict
use openrois.Common.Dict.{Dict}
use openrois.Condition.Parse.{mem_text}
use openrois.Profiles.Status.{CompletedStatus, ReturnCode, ErrorType}
use openrois.Profiles.Units.{Named, CommandUnit, Item, single}
use openrois.Engine.State.{child, Source, completed, Notification, notify_error, Engine}
use openrois.Engine.Routes.{
  components, add_children, add_source, profile_of, before_slash, owner_of, engine_ids_are_free,
  ids_of_others,
}
use openrois.Engine.Binds.{
  holders, is_empty, is_actuation, is_actuator, bind, is_trusted, holds, bind_request,
}
use openrois.Engine.Commands.{is_served, status_at, complete, prune, commands_kept}
use openrois.Engine.Execute.{
  units_of, all_units, is_served_unit, declares, has_fitting_arguments, checked_arguments,
  first_message, execute, name_commands, accept,
}
use openrois.Engine.Events.{raise_error, end_subscription, add_child, announce_profile}
use openrois.Engine.Sessions.{release, begin_end, find_child, remove_child}
use openrois.Engine.Exclusive.{IsExclusive}
use openrois.Engine.Steps.{binds, Reach, here, next, Reach-IsExclusive, sole_commander}
use openrois.Engine.Holding.{
  is_holder, BindOutcome, bind_request-BindOutcome, release-is_holder, begin_end-is_holder,
}
use openrois.Engine.Requests.{query_reply}
use openrois.Engine.Busy.{AreShown, query_reply-AreShown}
use openrois.Engine.Completion.{complete_once}
use openrois.Engine.CommandIds.{ids_of, ids_from, AllDistinct, execute-ids}
use openrois.Engine.Prune.{count_finished, prune-bound, prune-running}
use openrois.Engine.Errors.{Told, raise_error-Told}
use openrois.Engine.Routing.{add_child-owner_of}
use openrois.Engine.Ending.{IsDict, end_subscription-raises}
use openrois.Engine.Samples.{
  any_value, nav, arm, actuator, kitchen_source, ada, ben, running, watched, robot,
}

nav_profile : profile_of robot nav ≡ some actuator
unfolding profile_of components add_children add_source Dict.get Dict.put text_eq
nav_profile = refl

-- the first client binds, and the second is refused
abbrev bound : Engine
bound = (bind_request robot ada nav).0

abbrev tried : Engine
tried = (bind_request bound ben nav).0

abbrev run : Reach any_value robot tried
run = next (next here (binds ada nav)) (binds ben nav)

Reach-IsExclusive_example : IsExclusive tried
Reach-IsExclusive_example = Reach-IsExclusive any_value refl run

nav_profile_tried : profile_of tried nav ≡ some actuator
unfolding bind_request bind profile_of components add_children add_source Dict.get Dict.put text_eq
    mem_text any holders is_actuation is_actuator is_empty
nav_profile_tried = refl

is_trusted-ada : is_trusted tried ada ≡ false
unfolding bind_request bind profile_of components add_children add_source Dict.get Dict.put text_eq
    mem_text any holders is_actuation is_actuator is_empty is_trusted
is_trusted-ada = refl

holds-ada : holds tried ada nav ≡ true
unfolding holds bind_request bind profile_of components add_children add_source Dict.get Dict.put
    text_eq mem_text any holders is_actuation is_actuator is_empty is_trusted
holds-ada = refl

is_actuation-actuator : is_actuation actuator ≡ true
unfolding is_actuation is_actuator
is_actuation-actuator = refl

sole_commander_example : ada ≡ ada
sole_commander_example =
    sole_commander any_value ada ada nav actuator refl run nav_profile_tried is_actuation-actuator
      is_trusted-ada is_trusted-ada holds-ada holds-ada

second_refused : (bind_request bound ben nav).1 ≡ ReturnCode.out_of_resources
unfolding bind_request bind profile_of components add_children add_source Dict.get Dict.put text_eq
    mem_text any holders is_actuation is_actuator is_empty
second_refused = refl

bind_request-BindOutcome_example : BindOutcome robot ada nav (bind_request robot ada nav)
bind_request-BindOutcome_example = bind_request-BindOutcome robot ada nav

release-is_holder_example :
    is_holder (release tried ada nav).0 ada nav
    ≡ not (text_eq ada ada && text_eq nav nav) && is_holder tried ada nav
release-is_holder_example = release-is_holder tried ada nav ada nav actuator nav_profile_tried

begin_end-is_holder_example :
    is_holder (begin_end tried ada) ada nav ≡ not (text_eq ada ada) && is_holder tried ada nav
begin_end-is_holder_example = begin_end-is_holder tried ada ada nav

abbrev statuses : List Named
statuses =
    record {
      name = codes "status";
      data_type_ref = codes "component_status";
      value = codes "READY";
    }
    ∷ []

query_reply-AreShown_example :
    AreShown
      (bind_request tried ben nav).1
      statuses
      (query_reply tried ben nav (codes "component_status") ReturnCode.ok statuses).1
query_reply-AreShown_example =
    query_reply-AreShown tried ben nav statuses (Reach-IsExclusive any_value refl run)

complete_once_example :
    (status_at (complete robot ada (codes "r/cmd-1") 0 CompletedStatus.abort) 0
      ≡ some CompletedStatus.abort)
    × ((complete robot ada (codes "r/cmd-1") 0 CompletedStatus.abort).sent
        ≡ []
          ++ (if is_served robot ada
              then (ada, completed (codes "r/cmd-1") CompletedStatus.abort) ∷ []
              else []))
    × ((s' c' : Text) (second : CompletedStatus)
        → complete (complete robot ada (codes "r/cmd-1") 0 CompletedStatus.abort) s' c' 0 second
          ≡ complete robot ada (codes "r/cmd-1") 0 CompletedStatus.abort)
complete_once_example =
    complete_once robot ada (codes "r/cmd-1") 0 CompletedStatus.abort running refl refl

abbrev go_nav : CommandUnit
go_nav = record {
  component_ref = nav;
  command_type = codes "go";
  command_id = codes "mine";
  arguments = [];
  delay_time = none;
}

abbrev twice : List Item
twice = single go_nav ∷ single go_nav ∷ []

execute_ok : (execute any_value tried ada twice).1 ≡ ReturnCode.ok
unfolding execute all_units units_of is_served_unit declares has_fitting_arguments checked_arguments
    first_message name_commands accept all holds bind_request bind profile_of components
    add_children add_source Dict.get Dict.put text_eq mem_text any holders is_actuation is_actuator
    is_empty is_trusted
execute_ok = refl

execute-ids_example :
    (ids_of (all_units (execute any_value tried ada twice).2)
      ≡ ids_from tried.engine_id tried.next_command (length (all_units twice)))
    × AllDistinct (ids_of (all_units (execute any_value tried ada twice).2))
    × ((execute any_value tried ada twice).0.next_command
        ≡ tried.next_command + length (all_units twice))
execute-ids_example = execute-ids any_value tried ada twice is_trusted-ada execute_ok

prune-bound_example :
    (length (prune robot).commands ≤ commands_kept)
    ⊎ (count_finished (prune robot) (prune robot).commands ≡ 0)
prune-bound_example = prune-bound robot

running_is_there : Dict.get (codes "r/cmd-1") robot.commands ≡ some 0
unfolding Dict.get text_eq
running_is_there = refl

running_is_open : status_at robot 0 ≡ none
unfolding status_at
running_is_open = refl

prune-running_example : Dict.get (codes "r/cmd-1") (prune robot).commands ≡ some 0
prune-running_example = prune-running robot (codes "r/cmd-1") 0 running_is_there running_is_open

raise_error-Told_example :
    (out : List (Text × Notification)) × ((raise_error robot arm
        (codes "k/err-1")
        ErrorType.component_not_responding).sent
      ≡ [] ++ out)
    × Told robot arm
        (notify_error (codes "k/err-1") ErrorType.component_not_responding)
        (ada ∷ ben ∷ [])
        out
raise_error-Told_example =
    raise_error-Told robot arm (codes "k/err-1") ErrorType.component_not_responding

abbrev hall_source : Source
hall_source = record { engine_ids = codes "h" ∷ []; profiles = []; engine_profile = none }

abbrev with_hall : Engine
with_hall = announce_profile (record robot { children = robot.children ++ (8, hall_source) ∷ [] })

hall_added : add_child robot 8 hall_source ≡ some with_hall
unfolding add_child engine_ids_are_free ids_of_others all mem_text any text_eq
hall_added = refl

slash_hall : before_slash (codes "h/cmd-3") ≡ some (codes "h")
unfolding before_slash
slash_hall = refl

add_child-owner_of_example : owner_of with_hall (codes "h/cmd-3") ≡ (
    if mem_text (codes "h") (codes "h" ∷ [])
    then some (child 8)
    else owner_of robot (codes "h/cmd-3"))
add_child-owner_of_example =
    add_child-owner_of robot with_hall 8 hall_source (codes "h") (codes "h/cmd-3") hall_added
      slash_hall

watched_is_there : Dict.get (codes "k/sub-1") robot.subscriptions ≡ some watched
unfolding Dict.get text_eq
watched_is_there = refl

kitchen_is_there : find_child 7 robot.children ≡ some kitchen_source
unfolding find_child
kitchen_is_there = refl

subscriptions-IsDict : IsDict robot.subscriptions
unfolding mem_text any Dict.keys
subscriptions-IsDict = (refl, tt)

end_subscription-raises_example : end_subscription (remove_child robot 7) (codes "k/sub-1") ≡ none
end_subscription-raises_example =
    end_subscription-raises robot 7 (codes "k/sub-1") watched kitchen_source subscriptions-IsDict
      watched_is_there refl kitchen_is_there
