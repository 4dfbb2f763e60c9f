-- ===== src/Local/Parameters.antt =====
-- local.py: the parameter store.
use openrois.Common.{
  Bool, true, false, Option, none, some, List, [], ◌∷◌, if◌then◌else◌, Text, text_eq,
}
use openrois.Common.Dict
use openrois.Common.Dict.{Dict}
use openrois.Engine.Binds.{is_empty}
use openrois.Profiles.Status.{CompletedStatus, ReturnCode}
use openrois.Profiles.Units.{Named, ParameterProfile}
use openrois.Local.State.{Hosted}
use openrois.Local.Statuses.{operable}

-- `_parameter`: `none` where no parameter has the name
unfoldable pub type_code : List ParameterProfile → Text → Option Text
type_code [] name = none
type_code (p ∷ profiles) name =
    if text_eq p.name name then some p.data_type_ref else type_code profiles name

unfoldable pub named_value : Text → Text → Option Text → Option Named
named_value name value none = none
named_value name value (some code) =
    some (record { name = name; data_type_ref = code; value = value })

unfoldable pub typed : List ParameterProfile → Text → Text → Option Named
typed profiles name value = named_value name value (type_code profiles name)

-- the loop of `_apply` that stores the values, and whether it came to its end: a name that no profile
-- has raises StopIteration, behind the values that it stored before
unfoldable pub store_one : Text → Dict Named → Option Named → Dict Named
store_one name stored none = stored
store_one name stored (some p) = Dict.put name p stored

unfoldable pub is_typed : Option Named → Bool
is_typed none = false
is_typed (some p) = true

unfoldable pub store_all : List ParameterProfile → List Named → Dict Named → Dict Named × Bool
store_all profiles [] stored = (stored, true)
store_all profiles (p ∷ parameters) stored =
    let known = typed profiles p.name p.value in
    let rest = store_all profiles parameters (store_one p.name stored known) in
    if is_typed known then rest else (stored, false)

-- What `_apply` returns: a status, `_REFUSED`, or an exception for a name that no profile has.
pub data Applied : Type 0 where
  completes : CompletedStatus → Applied
  refused raises : Applied

unfoldable pub apply_stored : Hosted → Dict Named × Bool → Hosted × Applied
apply_stored h (stored, to_end) =
    (record h { parameters = stored }, if to_end then completes CompletedStatus.ok else raises)

-- `_apply` up to its wait for the hook: its status, or `none` where it waits
unfoldable pub begin_apply : Hosted → Option CompletedStatus
begin_apply h = if operable h then none else some CompletedStatus.error

-- `_apply` from the end of the hook on, where `accepts` says whether the hook accepted the values
unfoldable pub end_apply : Hosted → Bool → List Named → Hosted × Applied
end_apply h accepts parameters =
    if accepts
    then apply_stored h (store_all h.profile.parameter_profiles parameters h.parameters)
    else (h, refused)

-- The whole of `_apply`: from the component `h`, with `after` for what it is once the hook is done.
unfoldable pub apply : Hosted → Hosted → Bool → List Named → Hosted × Applied
apply h after accepts parameters = elim (begin_apply h) [
  | some status ↦ (h, completes status)
  | none ↦ end_apply after accepts parameters
]

unfoldable pub values_given : Dict Named → List Named
values_given [] = []
values_given ((name, p) ∷ stored) =
    if is_empty p.value then values_given stored else p ∷ values_given stored

-- `get_parameter`
unfoldable pub get_parameter : Hosted → ReturnCode × List Named
get_parameter h = (ReturnCode.ok, values_given h.parameters)

-- `set_parameter`, with the new id where one is given: its return code, and the status of the command
unfoldable pub set_parameter_reply :
    Text → Applied → Option (ReturnCode × Option Text × CompletedStatus)
set_parameter_reply command_id (completes status) = some (ReturnCode.ok, some command_id, status)
set_parameter_reply command_id refused =
    some (ReturnCode.bad_parameter, none, CompletedStatus.error)
set_parameter_reply command_id raises = none
