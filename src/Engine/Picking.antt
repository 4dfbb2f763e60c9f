-- ===== src/Engine/Picking.antt =====
-- engine.py: what `_pick` passes on to a source.
use openrois.Common.{
  ◌≡◌, refl, Bool, true, false, ◌&&◌, Option, none, some, List, [], ◌∷◌, arith, if◌then◌else◌, All,
  Text, text_eq, Result, ok, err,
}
use openrois.Common.Dict
use openrois.Common.Dict.{Dict}
use openrois.Condition.Syntax.{Condition, ConditionError, Comparison}
use openrois.Profiles.Units.{Named, ParameterProfile, MessageProfile, ComponentProfile}
use openrois.Engine.State.{SourceId, Engine}
use openrois.Engine.Routes.{Entry, components}
use openrois.Engine.Binds.{is_empty}
use openrois.Engine.Execute.{last_named, argument_fits}
use openrois.Engine.Pick.{
  messages_of, giving, candidates_in, agrees, is_equality, argument_of, given_arguments, values,
  picked, pick_arguments, pick_candidate, pick_matching, pick_parsed, pick,
}

All-values-if :
    (P : Named → Type 0) (b : Bool) (d e : Dict Named)
    → All P (values d)
    → All P (values e)
    → All P (values (if b then d else e))
All-values-if P true d e h k = h
All-values-if P false d e h k = k

All-values-put :
    (P : Named → Type 0) (k : Text) (a : Named) (d : Dict Named)
    → P a
    → All P (values d)
    → All P (values (Dict.put k a d))
unfolding values Dict.put
All-values-put P k a [] p h = (p, tt)
All-values-put P k a ((j, b) ∷ d) p (q, h) =
    All-values-if P (text_eq j k) ((j, a) ∷ d) ((j, b) ∷ Dict.put k a d) (p, h)
      (q, All-values-put P k a d p h)

module _ (decodes : Text → Text → Bool) (declared : List ParameterProfile) where
  -- an argument that the message declares, with a value of its type
  abbrev Fits : Named → Type 0
  Fits a = argument_fits decodes declared a ≡ true

  argument_of-Fits :
      (name value : Text) (p : ParameterProfile)
      → last_named (λ q. q.name) name declared ≡ some p
      → decodes p.data_type_ref value ≡ true
      → Fits (argument_of name p.data_type_ref value)
  unfolding argument_fits argument_of
  argument_of-Fits name value p found fits = rw (found, argument_fits) fits

  -- one round that goes on
  round-cases :
      (c : Comparison) (given : Condition) (arguments result : Dict Named)
      → given_arguments decodes declared arguments (c ∷ given) ≡ some result
      → (p : ParameterProfile) × (last_named (λ q. q.name) c.property declared ≡ some p)
        × (decodes p.data_type_ref c.value ≡ true)
        × (given_arguments decodes declared
              (Dict.put c.property (argument_of c.property p.data_type_ref c.value) arguments)
              given
            ≡ some result)
  unfolding given_arguments
  round-cases c given arguments result h =
      of_found (last_named (λ q. q.name) c.property declared) refl h
    where
      of_found :
          (found : Option ParameterProfile)
          → last_named (λ q. q.name) c.property declared ≡ found
          → (let r : Option (Dict Named) = elim found [
            | none ↦ none
            | some p ↦
                if is_equality c.operator
                  && (agrees (Dict.get c.property arguments) c.value
                      && decodes p.data_type_ref c.value)
                then given_arguments decodes declared
                    (Dict.put c.property (argument_of c.property p.data_type_ref c.value) arguments)
                    given
                else none
          ] in
              r)
            ≡ some result
          → (p : ParameterProfile) × (last_named (λ q. q.name) c.property declared ≡ some p)
            × (decodes p.data_type_ref c.value ≡ true)
            × (given_arguments decodes declared
                  (Dict.put c.property (argument_of c.property p.data_type_ref c.value) arguments)
                  given
                ≡ some result)
      of_found none k h = cc
      of_found (some p) k h = (p, k, ground arith, ground arith)

  given_arguments-nil :
      (arguments result : Dict Named)
      → given_arguments decodes declared arguments [] ≡ some result
      → result ≡ arguments
  unfolding given_arguments
  given_arguments-nil arguments result h = cc

  given_arguments-Fits :
      (given : Condition) (arguments result : Dict Named)
      → All Fits (values arguments)
      → given_arguments decodes declared arguments given ≡ some result
      → All Fits (values result)
  given_arguments-Fits [] arguments result fit h = rw (given_arguments-nil arguments result h) fit
  given_arguments-Fits (c ∷ given) arguments result fit h =
      let (p, found, decoded, later) = round-cases c given arguments result h in
      given_arguments-Fits given _ result
        (All-values-put Fits c.property (argument_of c.property p.data_type_ref c.value) arguments
          (argument_of-Fits c.property c.value p found decoded) fit)
        later

-- A reached component that declares the message once, and arguments that the message declares.
pub record Serves (decodes : Text → Text → Bool) (e : Engine) (events : Bool) (name ref : Text)
    (source : SourceId) (arguments : List Named) : Type 0 where
  pub profile : ComponentProfile
  pub message : MessageProfile
  pub reached : Dict.get ref (components e) ≡ some (profile, source)
  pub declared : messages_of events name profile ≡ message ∷ []
  pub fits : All (Fits decodes message.arguments) arguments

module _ (events : Bool) (name : Text) (known : Dict Entry) where
  abbrev IsCandidate : Text × List MessageProfile × SourceId → Type 0
  IsCandidate (ref, messages, source) =
      (profile : ComponentProfile) × (Dict.get ref known ≡ some (profile, source))
      × (messages_of events name profile ≡ messages)

  candidates_in-IsCandidate :
      (refs : List Text) → All IsCandidate (candidates_in events name known refs)
  unfolding candidates_in
  candidates_in-IsCandidate [] = tt
  candidates_in-IsCandidate (ref ∷ refs) =
      of_found (Dict.get ref known) refl (candidates_in-IsCandidate refs)
    where
      of_profile :
          (profile : ComponentProfile) (source : SourceId)
          (later : List (Text × List MessageProfile × SourceId)) (b : Bool)
          → Dict.get ref known ≡ some (profile, source)
          → All IsCandidate later
          → All IsCandidate
              (if b then later else (ref, messages_of events name profile, source) ∷ later)
      of_profile profile source later true h k = k
      of_profile profile source later false h k = ((profile, h, refl), k)

      of_found :
          (found : Option Entry)
          → Dict.get ref known ≡ found
          → All IsCandidate (candidates_in events name known refs)
          → All IsCandidate (
              let r : List (Text × List MessageProfile × SourceId) = elim found [
                | none ↦ candidates_in events name known refs
                | some (profile, source) ↦
                    if is_empty (messages_of events name profile)
                    then candidates_in events name known refs
                    else (ref, messages_of events name profile, source)
                      ∷ candidates_in events name known refs
              ] in
              r)
      of_found none h k = k
      of_found (some (profile, source)) h k = of_profile profile source _ _ h k

module _ (decodes : Text → Text → Bool) (e : Engine) (events : Bool) (name : Text) where
  pick_arguments-Serves :
      (ref r : Text) (source src : SourceId) (parsed : Condition) (args : List Named) (text : Text)
      (message : MessageProfile) (found : Option (Dict Named))
      → IsCandidate events name (components e) (ref, (message ∷ []), source)
      → given_arguments decodes message.arguments [] (giving parsed) ≡ found
      → pick_arguments ref source parsed found ≡ picked r src args text
      → Serves decodes e events name r src args
  unfolding pick_arguments
  pick_arguments-Serves ref r source src parsed args text message none candidate given h = cc
  pick_arguments-Serves ref r source src parsed args text message (some arguments)
        (profile, reached, declared) given h =
      let same : values arguments ≡ args = cc (h) in
      record {
        profile = profile;
        message = message;
        reached = cc (reached, h);
        declared = declared;
        fits = rw same at (
            given_arguments-Fits decodes message.arguments (giving parsed) [] arguments
              (unfold values in tt) given);
      }

  pick_candidate-Serves :
      (parsed : Condition) (found : List (Text × List MessageProfile × SourceId)) (r : Text)
      (src : SourceId) (args : List Named) (text : Text)
      → All (IsCandidate events name (components e)) found
      → pick_candidate decodes parsed found ≡ ok (picked r src args text)
      → Serves decodes e events name r src args
  unfolding pick_candidate
  pick_candidate-Serves parsed [] r src args text candidates h = cc
  pick_candidate-Serves parsed ((ref, [], source) ∷ []) r src args text candidates h = cc
  pick_candidate-Serves parsed ((ref, (m ∷ []), source) ∷ []) r src args text (candidate, _) h =
      pick_arguments-Serves ref r source src parsed args text m _ candidate refl (cc (h))
  pick_candidate-Serves parsed ((ref, (m ∷ n ∷ ms), source) ∷ []) r src args text candidates h = cc
  pick_candidate-Serves parsed (a ∷ b ∷ rest) r src args text candidates h = cc

  pick_matching-Serves :
      (parsed : Condition) (refs : Result ConditionError (List Text)) (r : Text) (src : SourceId)
      (args : List Named) (text : Text)
      → pick_matching decodes events name (components e) parsed refs ≡ ok (picked r src args text)
      → Serves decodes e events name r src args
  unfolding pick_matching
  pick_matching-Serves parsed (err raised) r src args text h = cc
  pick_matching-Serves parsed (ok refs) r src args text h =
      pick_candidate-Serves parsed _ r src args text
        (candidates_in-IsCandidate events name (components e) refs) h

  pick_parsed-Serves :
      (parsed : Result ConditionError Condition) (r : Text) (src : SourceId) (args : List Named)
      (text : Text)
      → pick_parsed decodes events name (components e) parsed ≡ ok (picked r src args text)
      → Serves decodes e events name r src args
  unfolding pick_parsed
  pick_parsed-Serves (err caught) r src args text h = cc
  pick_parsed-Serves (ok parsed) r src args text h = pick_matching-Serves parsed _ r src args text h

  -- What a query or a subscribe passes on goes to the source of a component that the engine reaches
  -- and that declares the message once, and every argument is one that the message declares, with a
  -- value that decodes as its type.
  pub pick-Serves :
      (condition ref : Text) (source : SourceId) (arguments : List Named) (text : Text)
      → pick decodes e condition name events ≡ ok (picked ref source arguments text)
      → Serves decodes e events name ref source arguments
  unfolding pick
  pick-Serves condition ref source arguments text h =
      pick_parsed-Serves _ ref source arguments text h
