-- ===== src/Engine/Frames.antt =====
-- engine.py: the operations that leave the binds and the sources alone.
use openrois.Common.{
  ℕ, ◌≡◌, refl, ◌∙◌, Bool, true, false, Option, none, some, List, [], ◌∷◌, arith, if◌then◌else◌,
  get_elem?, Text,
}
use openrois.Common.Dict
use openrois.Common.Dict.{Dict}
use openrois.Profiles.Status.{CompletedStatus, ReturnCode}
use openrois.Profiles.Units.{CommandUnit, Item}
use openrois.Engine.State.{SourceId, Command, Engine, Notification, profile_changed}
use openrois.Engine.Routes.{Entry, components, profile_of, owner_of, source_of_engine}
use openrois.Engine.Binds.{holders, is_trusted}
use openrois.Engine.Commands.{
  notify, is_connected, complete, complete_object, store, finish, skip, skip_one, skip_object,
  prune, add_command,
}
use openrois.Engine.Execute.{
  execute, name_commands, accept, add_commands, all_units, assign_items, ids_are_new,
}
use openrois.Engine.Events.{unsubscribe, notify_each, announce_profile}
use openrois.Engine.Exclusive.{IsExclusive, IsExclusive-of_fewer}

-- The parts of the engine that say who may bind what.
pub record SameBinds (e e' : Engine) : Type 0 where
  pub same_binds : e'.binds ≡ e.binds
  pub same_local : e'.local_source ≡ e.local_source
  pub same_children : e'.children ≡ e.children

pub SameBinds-refl : (e : Engine) → SameBinds e e
SameBinds-refl e = record { same_binds = refl; same_local = refl; same_children = refl }

pub SameBinds-trans : {a b c : Engine} → SameBinds a b → SameBinds b c → SameBinds a c
SameBinds-trans h k = record {
  same_binds = k.same_binds ∙ h.same_binds;
  same_local = k.same_local ∙ h.same_local;
  same_children = k.same_children ∙ h.same_children;
}

pub IsExclusive-SameBinds : {e e' : Engine} → SameBinds e e' → IsExclusive e → IsExclusive e'
IsExclusive-SameBinds {e} {e'} h =
    IsExclusive-of_fewer e e'
      (λ r. unfold profile_of components in rw (h.same_local, h.same_children) refl)
      (λ r. unfold holders in rw h.same_binds (omega arith))

notify-SameBinds : (e : Engine) (s : Text) (n : Notification) → SameBinds e (notify e s n)
unfolding notify
notify-SameBinds e s n = ground arith

if-SameBinds :
    {e : Engine} (b : Bool) (x y : Engine)
    → SameBinds e x
    → SameBinds e y
    → SameBinds e (if b then x else y)
if-SameBinds true x y h k = h
if-SameBinds false x y h k = k

pub complete-SameBinds :
    (e : Engine) (s c : Text) (at : ℕ) (status : CompletedStatus)
    → SameBinds e (complete e s c at status)
unfolding complete complete_object notify store
complete-SameBinds e s c at status = ground arith

pub finish-SameBinds :
    (e : Engine) (s c : Text) (status : CompletedStatus) → SameBinds e (finish e s c status)
unfolding finish
finish-SameBinds e s c status = of_address (Dict.get c e.commands)
  where
    of_address :
        (found : Option ℕ)
        → SameBinds e (elim found [ none ↦ e | some at ↦ complete e s c at status ])
    of_address none = SameBinds-refl e
    of_address (some at) = complete-SameBinds e s c at status

store-SameBinds : (e : Engine) (at : ℕ) (c : Command) → SameBinds e (store e at c)
unfolding store
store-SameBinds e at c = ground arith

skip_object-SameBinds :
    (e : Engine) (s c : Text) (at : ℕ) (command : Command)
    → SameBinds e (skip_object e s c at command)
unfolding skip_object
skip_object-SameBinds e s c at command =
    if-SameBinds _ _ _
      (SameBinds-trans (store-SameBinds e at (record command { source = none })) (
        finish-SameBinds (store e at (record command { source = none })) s c CompletedStatus.abort))
      (SameBinds-refl e)

skip_one-SameBinds : (e : Engine) (s c : Text) → SameBinds e (skip_one e s c)
unfolding skip_one
skip_one-SameBinds e s c = of_address (Dict.get c e.commands)
  where
    of_object :
        (at : ℕ) (found : Option Command)
        → SameBinds e (elim found [ none ↦ e | some command ↦ skip_object e s c at command ])
    of_object at none = SameBinds-refl e
    of_object at (some command) = skip_object-SameBinds e s c at command

    of_address :
        (found : Option ℕ)
        → SameBinds e (elim found [
          | none ↦ e
          | some at ↦ elim (get_elem? e.objects at) [
            | none ↦ e
            | some command ↦ skip_object e s c at command
          ]
        ])
    of_address none = SameBinds-refl e
    of_address (some at) = of_object at (get_elem? e.objects at)

pub skip-SameBinds :
    (e : Engine) (s : Text) (units : List CommandUnit) → SameBinds e (skip e s units)
unfolding skip
skip-SameBinds e s [] = SameBinds-refl e
skip-SameBinds e s (unit ∷ units) =
    SameBinds-trans (skip_one-SameBinds e s unit.command_id)
      (skip-SameBinds (skip_one e s unit.command_id) s units)

add_command-SameBinds :
    (e : Engine) (s c ref : Text) (source : SourceId) → SameBinds e (add_command e s c ref source)
unfolding add_command
add_command-SameBinds e s c ref source = ground arith

add_commands-SameBinds :
    (e : Engine) (s : Text) (known : Dict Entry) (units : List CommandUnit)
    → SameBinds e (add_commands e s known units)
unfolding add_commands
add_commands-SameBinds e s known [] = SameBinds-refl e
add_commands-SameBinds e s known (unit ∷ units) =
    of_entry (Dict.get unit.component_ref known) (λ e'. add_commands-SameBinds e' s known units)
  where
    of_entry :
        (found : Option Entry)
        → ((e' : Engine) → SameBinds e' (add_commands e' s known units))
        → SameBinds e (elim found [
          | none ↦ add_commands e s known units
          | some (profile, source) ↦
              add_commands (add_command e s unit.command_id unit.component_ref source) s known units
        ])
    of_entry none ih = ih e
    of_entry (some (profile, source)) ih =
        SameBinds-trans (add_command-SameBinds e s unit.command_id unit.component_ref source)
          (ih (add_command e s unit.command_id unit.component_ref source))

accept-SameBinds : (e : Engine) (s : Text) (items : List Item) → SameBinds e (accept e s items).0
unfolding accept prune
accept-SameBinds e s items =
    let h = add_commands-SameBinds e s (components e) (all_units items) in
    record { same_binds = h.same_binds; same_local = h.same_local; same_children = h.same_children }

pick-SameBinds :
    {e : Engine} (b : Bool) (x y : Engine × ReturnCode × List Item)
    → SameBinds e x.0
    → SameBinds e y.0
    → SameBinds e (if b then x else y).0
pick-SameBinds true x y h k = h
pick-SameBinds false x y h k = k

count-SameBinds : (e : Engine) (n : ℕ) → SameBinds e (record e { next_command = n })
count-SameBinds e n = record { same_binds = refl; same_local = refl; same_children = refl }

name_commands-SameBinds :
    (e : Engine) (s : Text) (items : List Item) → SameBinds e (name_commands e s items).0
unfolding name_commands
name_commands-SameBinds e s items =
    let named = assign_items e.engine_id e.next_command items in
    pick-SameBinds (is_trusted e s) _ _
      (pick-SameBinds (ids_are_new e [] (all_units items)) _ _ (accept-SameBinds e s items)
        (SameBinds-refl e))
      (SameBinds-trans (count-SameBinds e named.0)
        (accept-SameBinds (record e { next_command = named.0 }) s named.1))

pub execute-SameBinds :
    (decodes : Text → Text → Bool) (e : Engine) (s : Text) (items : List Item)
    → SameBinds e (execute decodes e s items).0
unfolding execute
execute-SameBinds decodes e s items = ground (arith, name_commands-SameBinds e s items)

pub unsubscribe-SameBinds : (e : Engine) (s i : Text) → SameBinds e (unsubscribe e s i).0
unfolding unsubscribe
unsubscribe-SameBinds e s i = ground arith

pub notify_each-SameBinds :
    (e : Engine) (test : Text → Bool) (n : Notification) (sessions : List Text)
    → SameBinds e (notify_each e test n sessions)
unfolding notify_each
notify_each-SameBinds e test n [] = SameBinds-refl e
notify_each-SameBinds e test n (s ∷ sessions) =
    SameBinds-trans (if-SameBinds (test s) _ _ (notify-SameBinds e s n) (SameBinds-refl e))
      (notify_each-SameBinds (if test s then notify e s n else e) test n sessions)

pub announce-SameBinds : (e : Engine) → SameBinds e (announce_profile e)
unfolding announce_profile
announce-SameBinds e = notify_each-SameBinds e (is_connected e) profile_changed e.sessions

-- which source owns an id depends on the sources alone
pub owner_of-SameBinds : {e e' : Engine} (t : Text) → SameBinds e e' → owner_of e' t ≡ owner_of e t
unfolding owner_of source_of_engine
owner_of-SameBinds t h = rw (h.same_local, h.same_children) refl
