-- ===== src/Engine/Tasks.antt =====
-- engine.py: the start and the end of a command's task, and a set_parameter, leave the binds alone.
use openrois.Common.{ℕ, refl, true, false, Option, none, some, arith, get_elem?, Text}
use openrois.Profiles.Status.{CompletedStatus}
use openrois.Profiles.Units.{CommandUnit}
use openrois.Engine.State.{SourceId, Command, Engine}
use openrois.Engine.Routes.{Entry}
use openrois.Engine.Commands.{finish, store, prune}
use openrois.Engine.Requests.{start_object, start_unit, end_unit, new_object, parameter_set}
use openrois.Engine.Frames.{SameBinds, SameBinds-refl, SameBinds-trans, finish-SameBinds}

finish-store-SameBinds :
    (e : Engine) (at : ℕ) (command : Command) (s c : Text) (status : CompletedStatus)
    → SameBinds e (finish (store e at command) s c status)
finish-store-SameBinds e at command s c status =
    SameBinds-trans {b = store e at command}
      (unfold store in record { same_binds = refl; same_local = refl; same_children = refl })
      (finish-SameBinds (store e at command) s c status)

pub end_unit-SameBinds :
    (e : Engine) (s : Text) (unit : CommandUnit) (at : ℕ) (status : CompletedStatus)
    → SameBinds e (end_unit e s unit at status)
unfolding end_unit
end_unit-SameBinds e s unit at status = of_object (get_elem? e.objects at)
  where
    of_object :
        (found : Option Command)
        → SameBinds e (
            let e' : Engine = elim found [
              | none ↦ finish e s unit.command_id status
              | some command ↦
                  finish (store e at (record command { task = false })) s unit.command_id status
            ] in
            e')
    of_object none = finish-SameBinds e s unit.command_id status
    of_object (some command) = finish-store-SameBinds e at _ s unit.command_id status

start_object-SameBinds :
    (e : Engine) (s c : Text) (at : Option ℕ) (entry : Option Entry)
    → SameBinds e (start_object e s c at entry).0
unfolding start_object
start_object-SameBinds e s c none entry = finish-SameBinds e s c CompletedStatus.error
start_object-SameBinds e s c (some at) none = finish-SameBinds e s c CompletedStatus.error
start_object-SameBinds e s c (some at) (some entry) = of_object (get_elem? e.objects at)
  where
    of_object :
        (found : Option Command)
        → SameBinds e
            (let y : Engine × Option ℕ = elim found [
              | none ↦ (e, some at)
              | some command ↦ (store e at (record command { task = true }), some at)
            ] in
              y).0
    of_object none = SameBinds-refl e
    of_object (some command) =
        unfold store in record { same_binds = refl; same_local = refl; same_children = refl }

pub start_unit-SameBinds :
    (e : Engine) (s : Text) (unit : CommandUnit) → SameBinds e (start_unit e s unit).0
unfolding start_unit
start_unit-SameBinds e s unit = start_object-SameBinds e s unit.command_id _ _

pub parameter_set-SameBinds :
    (e : Engine) (s ref : Text) (source : SourceId) (id : Text)
    → SameBinds e (parameter_set e s ref source id).0
unfolding parameter_set new_object prune
parameter_set-SameBinds e s ref source id = ground arith
