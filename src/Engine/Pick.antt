-- ===== src/Engine/Pick.antt =====
-- engine.py: `_pick`, the one component that a query or a subscribe selects, with its arguments.
use openrois.Common.{
  Bool, true, false, not, ◌&&◌, Option, none, some, List, [], ◌∷◌, ◌++◌, map, if◌then◌else◌, keep,
  Text, text_eq, Result, ok, err,
}
use openrois.Common.Dict
use openrois.Common.Dict.{Dict}
use openrois.Condition.Syntax.{
  Operator, equal, like, Comparison, Condition, ConditionError, selection_properties,
}
use openrois.Condition.Parse.{mem_text, parse_condition}
use openrois.Condition.Print.{print_condition}
use openrois.Profiles.Status.{ReturnCode}
use openrois.Profiles.Units.{Named, ParameterProfile, MessageProfile, ComponentProfile}
use openrois.Engine.State.{SourceId, Engine}
use openrois.Engine.Routes.{Entry, components}
use openrois.Engine.Binds.{is_empty}
use openrois.Engine.Execute.{last_named}
use openrois.Engine.Selection.{matching}

-- `messages`: the query or event messages of a profile with a name
unfoldable pub messages_of : Bool → Text → ComponentProfile → List MessageProfile
messages_of events name profile =
    keep (λ m. text_eq m.name name)
      (if events then profile.event_profiles else profile.query_profiles)

unfoldable pub argument_names : List MessageProfile → List Text
argument_names [] = []
argument_names (m ∷ messages) = map (λ a. a.name) m.arguments ++ argument_names messages

unfoldable pub all_argument_names : Bool → Text → Dict Entry → List Text
all_argument_names events name [] = []
all_argument_names events name ((ref, (profile, source)) ∷ known) =
    argument_names (messages_of events name profile) ++ all_argument_names events name known

-- the comparisons of a condition that select, and those that give arguments
unfoldable pub selecting : Condition → Condition
selecting = keep (λ c. mem_text c.property selection_properties)

unfoldable pub giving : Condition → Condition
giving = keep (λ c. not (mem_text c.property selection_properties))

-- `candidates`, each with its messages, profile and source
unfoldable pub candidates_in :
    Bool → Text → Dict Entry → List Text → List (Text × List MessageProfile × SourceId)
candidates_in events name known [] = []
candidates_in events name known (ref ∷ refs) =
    let later = candidates_in events name known refs in
    elim (Dict.get ref known) [
      | none ↦ later
      | some (profile, source) ↦
          if is_empty (messages_of events name profile)
          then later
          else (ref, messages_of events name profile, source) ∷ later
    ]

-- the test of a known value of an argument
unfoldable pub agrees : Option Named → Text → Bool
agrees none value = true
agrees (some known) value = text_eq known.value value

unfoldable pub is_equality : Operator → Bool
is_equality equal = true
is_equality like = false

unfoldable pub argument_of : Text → Text → Text → Named
argument_of name code value = record { name = name; data_type_ref = code; value = value }

-- The loop over `given`, with the arguments so far: `none` is BAD_PARAMETER.
unfoldable pub given_arguments :
    (Text → Text → Bool)
    → List ParameterProfile
    → Dict Named
    → List Comparison
    → Option (Dict Named)
given_arguments decodes declared arguments [] = some arguments
given_arguments decodes declared arguments (c ∷ given) =
    elim (last_named (λ p. p.name) c.property declared) [
      | none ↦ none
      | some p ↦
          let later =
            given_arguments decodes declared
              (Dict.put c.property (argument_of c.property p.data_type_ref c.value) arguments)
              given in
          if is_equality c.operator
            && (agrees (Dict.get c.property arguments) c.value && decodes p.data_type_ref c.value)
          then later
          else none
    ]

unfoldable pub values {ℓ} : {V : Type ℓ} → Dict V → List V
values [] = []
values ((k, v) ∷ d) = v ∷ values d

-- What `_pick` returns: a return code, or the component, its source, the arguments and the condition.
pub data Picked : Type 0 where
  not_picked : ReturnCode → Picked
  picked : Text → SourceId → List Named → Text → Picked

-- What it may raise: an error of `matches`, or the ValueError of `[message] = …`.
pub data PickError : Type 0 where
  condition_error : ConditionError → PickError
  not_one_message : PickError

unfoldable pub pick_arguments : Text → SourceId → Condition → Option (Dict Named) → Picked
pick_arguments ref source parsed none = not_picked ReturnCode.bad_parameter
pick_arguments ref source parsed (some arguments) =
    picked ref source (values arguments) (print_condition parsed)

-- the part of `_pick` behind the candidates
unfoldable pub pick_candidate :
    (Text → Text → Bool)
    → Condition
    → List (Text × List MessageProfile × SourceId)
    → Result PickError Picked
pick_candidate decodes parsed [] = ok (not_picked ReturnCode.unsupported)
pick_candidate decodes parsed ((ref, (m ∷ []), source) ∷ []) =
    ok (pick_arguments ref source parsed (given_arguments decodes m.arguments [] (giving parsed)))
pick_candidate decodes parsed ((ref, messages, source) ∷ []) = err not_one_message
pick_candidate decodes parsed (a ∷ b ∷ rest) = ok (not_picked ReturnCode.bad_parameter)

unfoldable pub pick_matching :
    (Text → Text → Bool)
    → Bool
    → Text
    → Dict Entry
    → Condition
    → Result ConditionError (List Text)
    → Result PickError Picked
pick_matching decodes events name known parsed (err raised) = err (condition_error raised)
pick_matching decodes events name known parsed (ok refs) =
    pick_candidate decodes parsed (candidates_in events name known refs)

unfoldable pub pick_parsed :
    (Text → Text → Bool)
    → Bool
    → Text
    → Dict Entry
    → Result ConditionError Condition
    → Result PickError Picked
pick_parsed decodes events name known (err caught) = ok (not_picked ReturnCode.bad_parameter)
pick_parsed decodes events name known (ok parsed) =
    pick_matching decodes events name known parsed (matching (selecting parsed) known)

-- `_pick`
unfoldable pub pick : (Text → Text → Bool) → Engine → Text → Text → Bool → Result PickError Picked
pick decodes e condition name events = pick_parsed decodes events name (components e) (
    parse_condition condition
      (selection_properties ++ all_argument_names events name (components e)))
