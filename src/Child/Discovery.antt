-- ===== src/Child/Discovery.antt =====
-- child.py: `_apply_profile` with the checks of a profile, `_owns`, `_condition` and `_start_timeout`.
-- `is_free` stands for the `check_engine_ids` that the child is made with: true where it raises nothing.
use openrois.Common.{
  ℕ, Bool, true, false, not, ◌&&◌, Option, none, some, List, [], ◌∷◌, ◌++◌, map, ◌==◌, leb,
  if◌then◌else◌, length, keep, any, Text, text_eq, Result, ok, err, ◌>>=◌,
}
use openrois.Common.Dict
use openrois.Common.Dict.{Dict}
use openrois.Condition.Syntax.{component_ref_property}
use openrois.Condition.Parse.{mem_text}
use openrois.Condition.Print.{eq_condition, all_of}
use openrois.Profiles.Units.{
  Named, ComponentProfile, CommandUnit, EngineProfile, SubProfiles, engine, nil, cons,
  MessageProfile,
}
use openrois.Engine.Routes.{before_slash}
use openrois.Engine.Binds.{is_empty}
use openrois.Engine.Execute.{first_message}

-- the ValueError of `_apply_profile`, by the place that raises it
pub data ProfileError : Type 0 where
  invalid_id repeated_id foreign_ref missing_profile taken_id : ProfileError

-- `_profile`, `_profiles` and `_engine_ids`
pub record Discovered : Type 0 where
  pub profile : EngineProfile
  pub profiles : Dict ComponentProfile
  pub engine_ids : List Text

unfoldable mutual
  -- `_engine_ids`
  pub engine_ids_of : EngineProfile → List Text
  engine_ids_of (engine code sub_profiles component_ids) = code ∷ engine_ids_below sub_profiles

  pub engine_ids_below : SubProfiles → List Text
  engine_ids_below nil = []
  engine_ids_below (cons p profiles) = engine_ids_of p ++ engine_ids_below profiles

abbrev pub component_ids_of : EngineProfile → List Text
component_ids_of (engine code sub_profiles component_ids) = component_ids

unfoldable pub is_valid_id : Text → Bool
is_valid_id engine_id = not (is_empty engine_id) && not (any (λ c. c == b'/') engine_id)

unfoldable pub count : Text → List Text → ℕ
count t xs = length (keep (text_eq t) xs)

-- the loop over the engine ids
unfoldable pub check_ids : List Text → List Text → Result ProfileError (Unit {0})
check_ids engine_ids [] = ok tt
check_ids engine_ids (i ∷ rest) =
    let later = check_ids engine_ids rest in
    if not (is_valid_id i)
    then err invalid_id
    else if leb (count i engine_ids) 1
    then later
    else err repeated_id

-- the test of one component ref
unfoldable pub is_owned : List Text → Text → Bool
is_owned engine_ids ref = elim (before_slash ref) [
  | none ↦ false
  | some owner ↦ mem_text owner engine_ids
]

-- the loop over the component ids
unfoldable pub collect :
    List Text
    → Dict ComponentProfile
    → Dict ComponentProfile
    → List Text
    → Result ProfileError (Dict ComponentProfile)
collect engine_ids sent profiles [] = ok profiles
collect engine_ids sent profiles (ref ∷ refs) = elim (Dict.get ref sent) [
  | none ↦ if is_owned engine_ids ref then err missing_profile else err foreign_ref
  | some profile ↦
      let later = collect engine_ids sent (Dict.put ref profile profiles) refs in
      if is_owned engine_ids ref then later else err foreign_ref
]

abbrev pub check_free : Bool → Result ProfileError (Unit {0})
check_free true = ok tt
check_free false = err taken_id

-- `_apply_profile`
unfoldable pub apply_profile :
    (List Text → Bool) → EngineProfile → Dict ComponentProfile → Result ProfileError Discovered
apply_profile is_free profile sent = do
  _ ← check_ids (engine_ids_of profile) (engine_ids_of profile)
  profiles ← collect (engine_ids_of profile) sent [] (component_ids_of profile)
  _ ← check_free (is_free (engine_ids_of profile))
  ok (record { profile = profile; profiles = profiles; engine_ids = engine_ids_of profile })

-- the part of an id behind its first slash
unfoldable pub after_slash : Text → Text
after_slash [] = []
after_slash (c ∷ s) = let later = after_slash s in if c == b'/' then s else later

-- `_owns`
unfoldable pub owns : List Text → Text → Bool
owns engine_ids assigned_id =
    not (is_empty (after_slash assigned_id)) && is_owned engine_ids assigned_id

-- `_condition`
unfoldable pub child_condition : Text → List Named → Text
child_condition ref arguments =
    all_of
      (eq_condition component_ref_property ref ∷ map (λ a. eq_condition a.name a.value) arguments)

-- `_start_timeout`, in milliseconds
unfoldable pub smaller_timeout : ℕ → Option ℕ → ℕ
smaller_timeout request_timeout none = request_timeout
smaller_timeout request_timeout (some t) =
    if t == 0 then request_timeout else if leb request_timeout t then request_timeout else t

unfoldable pub message_timeout : Option MessageProfile → Option ℕ
message_timeout none = none
message_timeout (some m) = m.timeout

unfoldable pub start_timeout : ℕ → Dict ComponentProfile → CommandUnit → ℕ
start_timeout request_timeout profiles unit =
    smaller_timeout request_timeout (elim (Dict.get unit.component_ref profiles) [
      | none ↦ none
      | some profile ↦ message_timeout (first_message unit.command_type profile.command_profiles)
    ])
