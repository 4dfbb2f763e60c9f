-- ===== src/Engine/Selecting.antt =====
-- engine.py: a condition selects exactly the components whose properties it holds of.
use openrois.Common.{
  ◌≡◌, refl, Bool, true, false, some, List, [], ◌∷◌, if◌then◌else◌, All, Text, Result, ok, err,
  ◌>>=◌,
}
use openrois.Common.Dict.{Dict}
use openrois.Condition.Syntax.{Condition, ConditionError, selection_properties}
use openrois.Condition.Parse.{parse_condition, condition_matches}
use openrois.Condition.Accepts.{Holds, Answers, parse_condition-Answers}
use openrois.Profiles.Units.{ComponentProfile}
use openrois.Engine.State.{SourceId, Engine}
use openrois.Engine.Routes.{Entry, components}
use openrois.Engine.Selection.{properties_of, matching, select_parsed, select}

-- The refs, in the order of the components, of those components that a condition holds of.
pub data Selected (cs : Condition) : Dict Entry → List Text → Type 0 where
  empty : Selected cs [] []
  taken :
      {ref : Text} {profile : ComponentProfile} {source : SourceId} {known : Dict Entry}
      {refs : List Text}
      → All (Holds (properties_of ref profile)) cs
      → Selected cs known refs
      → Selected cs ((ref, (profile, source)) ∷ known) (ref ∷ refs)
  passed :
      {ref : Text} {profile : ComponentProfile} {source : SourceId} {known : Dict Entry}
      {refs : List Text}
      → ¬ All (Holds (properties_of ref profile)) cs
      → Selected cs known refs
      → Selected cs ((ref, (profile, source)) ∷ known) refs

round-Selected :
    (cs : Condition) (ref : Text) (profile : ComponentProfile) (source : SourceId)
    (known : Dict Entry) (refs : List Text) (m : Result ConditionError Bool)
    (n : Result ConditionError (List Text))
    → Answers (All (Holds (properties_of ref profile)) cs) m
    → n ≡ ok refs
    → Selected cs known refs
    → (found : List Text) × ((do held ← m; later ← n; ok (if held then ref ∷ later else later))
        ≡ ok found)
      × Selected cs ((ref, (profile, source)) ∷ known) found
round-Selected cs ref profile source known refs (ok true) n a h k =
    (ref ∷ refs, rw h refl, taken a k)
round-Selected cs ref profile source known refs (ok false) n a h k = (refs, rw h refl, passed a k)
round-Selected cs ref profile source known refs (err e) n a h k = absurd a

matching-Selected :
    (cs : Condition)
    → ((ref : Text) (profile : ComponentProfile)
        → Answers
            (All (Holds (properties_of ref profile)) cs)
            (condition_matches cs (properties_of ref profile)))
    → (known : Dict Entry)
    → (refs : List Text) × (matching cs known ≡ ok refs) × Selected cs known refs
unfolding matching
matching-Selected cs answers [] = ([], refl, empty)
matching-Selected cs answers ((ref, (profile, source)) ∷ known) =
    let (refs, h, k) = matching-Selected cs answers known in
    round-Selected cs ref profile source known refs
      (condition_matches cs (properties_of ref profile)) (matching cs known) (answers ref profile) h
      k

-- A selection condition that parses never raises when it is matched, and it selects exactly the
-- components that every comparison holds of, in the order of the components.
pub select-Selected :
    (e : Engine) (condition : Text) (cs : Condition)
    → parse_condition condition selection_properties ≡ ok cs
    → (refs : List Text) × (select e condition ≡ ok (some refs)) × Selected cs (components e) refs
unfolding select select_parsed
select-Selected e condition cs h =
    let (refs, found, k) =
      matching-Selected cs
        (λ ref profile.
          parse_condition-Answers (properties_of ref profile) condition selection_properties cs h)
        (components e) in
    (refs, rw (h, select_parsed) (rw found refl), k)
