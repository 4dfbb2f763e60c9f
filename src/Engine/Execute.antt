-- ===== src/Engine/Execute.antt =====
-- engine.py: `_execute`, its checks and the ids that it assigns. `decodes code value` stands for
-- `decode_value` of values.py: it is true where that raises no ValueError.
use openrois.Common.{
  ℕ, suc, Bool, true, false, not, ◌&&◌, Option, none, some, List, [], ◌∷◌, ◌++◌, if◌then◌else◌, any,
  all, Text, text_eq, codes,
}
use openrois.Common.Dict
use openrois.Common.Dict.{Dict}
use openrois.Common.Numerals.{decimal}
use openrois.Condition.Parse.{mem_text}
use openrois.Profiles.Status.{ReturnCode}
use openrois.Profiles.Units.{
  Named, CommandUnit, Branch, Item, single, concurrent, ParameterProfile, MessageProfile,
  ComponentProfile,
}
use openrois.Engine.State.{Engine}
use openrois.Engine.Routes.{Entry, components, owner_of}
use openrois.Engine.Binds.{holds, is_empty, is_trusted}
use openrois.Engine.Commands.{is_some, add_command, prune}

unfoldable pub branch_units : List Branch → List CommandUnit
branch_units [] = []
branch_units (b ∷ branches) = b.command_list ++ branch_units branches

-- `_units`
unfoldable pub units_of : Item → List CommandUnit
units_of (single unit) = unit ∷ []
units_of (concurrent branches delay) = branch_units branches

unfoldable pub all_units : List Item → List CommandUnit
all_units [] = []
all_units (item ∷ items) = units_of item ++ all_units items

-- `_declares`
unfoldable pub declares : ComponentProfile → Text → Bool
declares profile command_type =
    if text_eq command_type (codes "set_parameter")
    then not (is_empty profile.parameter_profiles)
    else any (λ m. text_eq m.name command_type) profile.command_profiles

-- the last entry with a name wins, as in a dict that is built from the list
unfoldable pub last_named {ℓ} : {A : Type ℓ} → (A → Text) → Text → List A → Option A
last_named name_of name [] = none
last_named name_of name (x ∷ xs) = elim (last_named name_of name xs) [
  | some y ↦ some y
  | none ↦ if text_eq (name_of x) name then some x else none
]

-- `next(m for m in profile.command_profiles if m.name == …)`
unfoldable pub first_message : Text → List MessageProfile → Option MessageProfile
first_message name [] = none
first_message name (m ∷ messages) =
    if text_eq m.name name then some m else first_message name messages

-- the test of the first loop of `_execute`
unfoldable pub is_served_unit : Dict Entry → CommandUnit → Bool
is_served_unit known unit = elim (Dict.get unit.component_ref known) [
  | none ↦ false
  | some (profile, source) ↦ declares profile unit.command_type
]

module _ (decodes : Text → Text → Bool) where
  -- One round of `_checked_parameters`: the parameter with the type of the profile.
  unfoldable pub checked_parameter : ComponentProfile → Named → Option Named
  checked_parameter profile parameter =
      elim (last_named (λ p. p.name) parameter.name profile.parameter_profiles) [
        | none ↦ none
        | some known ↦
            if known.read_only
            then none
            else if decodes known.data_type_ref parameter.value
            then some (record parameter { data_type_ref = known.data_type_ref })
            else none
      ]

  -- `_checked_parameters`
  unfoldable pub checked_parameters : ComponentProfile → List Named → Option (List Named)
  checked_parameters profile [] = some []
  checked_parameters profile (p ∷ parameters) = elim (checked_parameter profile p) [
    | none ↦ none
    | some checked ↦ elim (checked_parameters profile parameters) [
      | none ↦ none
      | some later ↦ some (checked ∷ later)
    ]
  ]

  -- the test of one argument against the declared ones
  unfoldable pub argument_fits : List ParameterProfile → Named → Bool
  argument_fits declared argument = elim (last_named (λ p. p.name) argument.name declared) [
    | none ↦ false
    | some known ↦ decodes known.data_type_ref argument.value
  ]

  -- `_checked_arguments`. The message is there: `_declares` was tested before.
  unfoldable pub checked_arguments : ComponentProfile → CommandUnit → Bool
  checked_arguments profile unit =
      if text_eq unit.command_type (codes "set_parameter")
      then is_some (checked_parameters profile unit.arguments)
      else elim (first_message unit.command_type profile.command_profiles) [
        | none ↦ false
        | some message ↦ all (argument_fits message.arguments) unit.arguments
      ]

  -- the test of its third loop
  unfoldable pub has_fitting_arguments : Dict Entry → CommandUnit → Bool
  has_fitting_arguments known unit = elim (Dict.get unit.component_ref known) [
    | none ↦ false
    | some (profile, source) ↦ checked_arguments profile unit
  ]

-- The ids that a parent engine named: not empty, new, not repeated, and of no engine reached here.
unfoldable pub ids_are_new : Engine → List Text → List CommandUnit → Bool
ids_are_new e seen [] = true
ids_are_new e seen (unit ∷ units) =
    not (is_empty unit.command_id)
    && not (is_some (Dict.get unit.command_id e.commands))
    && not (mem_text unit.command_id seen)
    && not (is_some (owner_of e unit.command_id))
    && ids_are_new e (unit.command_id ∷ seen) units

-- the id that `_new_command_id` makes of the number of the command
unfoldable pub command_id_of : Text → ℕ → Text
command_id_of engine_id n = engine_id ++ (codes "/cmd-" ++ decimal n)

-- `_assign_ids`: the counter before, and the counter after with the units or the items.
unfoldable pub assign_units : Text → ℕ → List CommandUnit → ℕ × List CommandUnit
assign_units engine_id n [] = (n, [])
assign_units engine_id n (unit ∷ units) =
    let (n', later) = assign_units engine_id (suc n) units in
    (n', record unit { command_id = command_id_of engine_id (suc n) } ∷ later)

unfoldable pub assign_branches : Text → ℕ → List Branch → ℕ × List Branch
assign_branches engine_id n [] = (n, [])
assign_branches engine_id n (branch ∷ branches) =
    let (n', units) = assign_units engine_id n branch.command_list in
    let (n'', later) = assign_branches engine_id n' branches in
    (n'', record { command_list = units } ∷ later)

unfoldable pub assign_item : Text → ℕ → Item → ℕ × Item
assign_item engine_id n (single unit) =
    (suc n, single (record unit { command_id = command_id_of engine_id (suc n) }))
assign_item engine_id n (concurrent branches delay) =
    let (n', assigned) = assign_branches engine_id n branches in (n', concurrent assigned delay)

unfoldable pub assign_items : Text → ℕ → List Item → ℕ × List Item
assign_items engine_id n [] = (n, [])
assign_items engine_id n (item ∷ items) =
    let (n', assigned) = assign_item engine_id n item in
    let (n'', later) = assign_items engine_id n' items in (n'', assigned ∷ later)

-- the loop that enters the commands in the table
unfoldable pub add_commands : Engine → Text → Dict Entry → List CommandUnit → Engine
add_commands e session_id known [] = e
add_commands e session_id known (unit ∷ units) = elim (Dict.get unit.component_ref known) [
  | none ↦ add_commands e session_id known units
  | some (profile, source) ↦
      add_commands (add_command e session_id unit.command_id unit.component_ref source) session_id
        known units
]

-- The end of `_execute`: the items to run are entered, and the table is pruned.
unfoldable pub accept : Engine → Text → List Item → Engine × ReturnCode × List Item
accept e session_id items =
    (prune (add_commands e session_id (components e) (all_units items)), ReturnCode.ok, items)

-- the part of `_execute` behind the tests: the ids of a parent are taken over, a client's replaced
unfoldable pub name_commands : Engine → Text → List Item → Engine × ReturnCode × List Item
name_commands e session_id items =
    if is_trusted e session_id
    then (if ids_are_new e [] (all_units items)
        then accept e session_id items
        else (e, ReturnCode.bad_parameter, []))
    else (let (n, assigned) = assign_items e.engine_id e.next_command items in
        accept (record e { next_command = n }) session_id assigned)

-- `_execute`: the engine, the return code, and the items that a new task of the session runs.
unfoldable pub execute :
    (Text → Text → Bool) → Engine → Text → List Item → Engine × ReturnCode × List Item
execute decodes e session_id items =
    let units = all_units items in
    if is_empty units
    then (e, ReturnCode.bad_parameter, [])
    else if not (all (is_served_unit (components e)) units)
    then (e, ReturnCode.unsupported, [])
    else if not (all (λ u. holds e session_id u.component_ref) units)
    then (e, ReturnCode.error, [])
    else if not (all (has_fitting_arguments decodes (components e)) units)
    then (e, ReturnCode.bad_parameter, [])
    else name_commands e session_id items
