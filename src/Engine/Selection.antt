-- ===== src/Engine/Selection.antt =====
-- engine.py: conditions that select components. `_select`, `_matching`, `_search`, `_get_profile`,
-- `_trim`, and `_pick` with the arguments that its condition gives.
use openrois.Common.{
  ℕ, Bool, not, Option, none, some, List, [], ◌∷◌, if◌then◌else◌, keep, Text, Result, ok, err,
  ◌>>=◌,
}
use openrois.Common.Dict
use openrois.Common.Dict.{Dict}
use openrois.Condition.Syntax.{
  Condition, ConditionError, selection_properties, component_ref_property, component_type_property,
}
use openrois.Condition.Tokens.{is_blank}
use openrois.Condition.Parse.{mem_text, parse_condition, condition_matches}
use openrois.Condition.Print.{component_type_urn}
use openrois.Profiles.Status.{ReturnCode}
use openrois.Profiles.Units.{ComponentProfile, EngineProfile, SubProfiles, engine, nil, cons}
use openrois.Engine.State.{Source, Engine}
use openrois.Engine.Routes.{Entry, components}
use openrois.Engine.Binds.{bind_any}

-- the properties of a component that a selection reads
unfoldable pub properties_of : Text → ComponentProfile → Dict Text
properties_of ref profile =
    (component_ref_property, ref)
    ∷ (
      component_type_property,
      component_type_urn profile.identifier.authority profile.identifier.code,
    )
    ∷ []

-- `_matching`, over the components. `err` is an exception of `matches`, which nothing catches.
unfoldable pub matching : Condition → Dict Entry → Result ConditionError (List Text)
matching selection [] = ok []
matching selection ((ref, (profile, source)) ∷ known) = do
  found ← condition_matches selection (properties_of ref profile)
  later ← matching selection known
  ok (if found then ref ∷ later else later)

unfoldable pub select_parsed :
    Engine → Result ConditionError Condition → Result ConditionError (Option (List Text))
select_parsed e (err caught) = ok none
select_parsed e (ok parsed) = do refs ← matching parsed (components e); ok (some refs)

-- `_select`: `none` where the condition does not parse
unfoldable pub select : Engine → Text → Result ConditionError (Option (List Text))
select e condition = select_parsed e (parse_condition condition selection_properties)

unfoldable pub search_answer : Option (List Text) → ReturnCode × List Text
search_answer none = (ReturnCode.bad_parameter, [])
search_answer (some refs) = (ReturnCode.ok, refs)

-- `_search`
unfoldable pub search_request : Engine → Text → Result ConditionError (ReturnCode × List Text)
search_request e condition = do selected ← select e condition; ok (search_answer selected)

-- `_bind_any` with its condition
unfoldable pub bind_any_request :
    Engine → Text → Text → Result ConditionError (Engine × ReturnCode × Option Text)
bind_any_request e session_id condition = do
  selected ← select e condition
  ok (bind_any e session_id selected)

-- the component ids of a trimmed profile, or no profile when none is left
unfoldable pub trimmed : Text → SubProfiles → List Text → Option EngineProfile
trimmed code sub_profiles [] = none
trimmed code sub_profiles (ref ∷ refs) = some (engine code sub_profiles (ref ∷ refs))

unfoldable pub cons_some : Option EngineProfile → SubProfiles → SubProfiles
cons_some none profiles = profiles
cons_some (some p) profiles = cons p profiles

unfoldable mutual
  -- `_trim`
  pub trim : List Text → EngineProfile → Option EngineProfile
  trim chosen (engine code sub_profiles component_ids) =
      trimmed code (trim_each chosen sub_profiles) (keep (λ ref. mem_text ref chosen) component_ids)

  pub trim_each : List Text → SubProfiles → SubProfiles
  trim_each chosen nil = nil
  trim_each chosen (cons p profiles) = cons_some (trim chosen p) (trim_each chosen profiles)

-- the profile of one child in the answer of `_get_profile`
unfoldable pub child_profile : Bool → List Text → Source → Option EngineProfile
child_profile filtered chosen s = elim s.engine_profile [
  | none ↦ none
  | some profile ↦ if filtered then trim chosen profile else some profile
]

-- the loop of `_get_profile` over the children
unfoldable pub sub_profiles_of : Bool → List Text → List (ℕ × Source) → SubProfiles
sub_profiles_of filtered chosen [] = nil
sub_profiles_of filtered chosen ((k, s) ∷ children) =
    cons_some (child_profile filtered chosen s) (sub_profiles_of filtered chosen children)

-- `component_profiles` of the answer: the profile of each selected component
unfoldable pub profiles_in : Dict Entry → List Text → Dict ComponentProfile
profiles_in known [] = []
profiles_in known (ref ∷ refs) = elim (Dict.get ref known) [
  | none ↦ profiles_in known refs
  | some (profile, source) ↦ (ref, profile) ∷ profiles_in known refs
]

unfoldable pub profile_answer :
    Engine → Bool → Option (List Text) → ReturnCode × Option (EngineProfile × Dict ComponentProfile)
profile_answer e filtered none = (ReturnCode.bad_parameter, none)
profile_answer e filtered (some refs) = (
  ReturnCode.ok,
  some (
    engine e.engine_id (sub_profiles_of filtered refs e.children) refs,
    profiles_in (components e) refs,
  ),
)

-- `_get_profile`
unfoldable pub get_profile :
    Engine
    → Text
    → Result ConditionError (ReturnCode × Option (EngineProfile × Dict ComponentProfile))
get_profile e condition = do
  selected ← select e condition
  ok (profile_answer e (not (is_blank condition)) selected)
