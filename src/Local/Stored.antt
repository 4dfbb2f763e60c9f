-- ===== src/Local/Stored.antt =====
-- local.py: a parameter has the value that was set last.
use openrois.Common.{
  ◌≡◌, refl, sym, ◌∙◌, Bool, true, false, Option, none, some, List, [], ◌∷◌, arith, if◌then◌else◌,
  Text, text_eq, text_eq_iff, Bool-cases, inl, inr,
}
use openrois.Common.Dict
use openrois.Common.Dict.{Dict, get-put}
use openrois.Profiles.Units.{Named, ParameterProfile}
use openrois.Profiles.Status.{CompletedStatus}
use openrois.Local.State.{Hosted}
use openrois.Local.Statuses.{operable}
use openrois.Local.Parameters.{
  typed, store_one, is_typed, store_all, completes, apply_stored, begin_apply, end_apply, apply,
}
use openrois.Engine.Execute.{last_named}

-- what the store has of a name: the value that is given last, with the type of the profile
unfoldable pub expected : List ParameterProfile → Text → Option Named → Option Named → Option Named
expected profiles name before none = before
expected profiles name before (some p) = typed profiles name p.value

expected-put :
    (profiles : List ParameterProfile) (name : Text) (p q : Named) (stored : Dict Named)
    (later : Option Named)
    → typed profiles p.name p.value ≡ some q
    → expected profiles name (Dict.get name (Dict.put p.name q stored)) later
      ≡ expected profiles name
          (Dict.get name stored)
          (elim later [ some y ↦ some y | none ↦ (if text_eq p.name name then some p else none) ])
unfolding expected
expected-put profiles name p q stored (some y) known = refl
expected-put profiles name p q stored none known = elim (Bool-cases (text_eq p.name name)) [
  | inl same ↦
      get-put p.name name q stored ∙ rw (same, sym ((text_eq_iff p.name name).0 same)) (sym known)
  | inr other ↦ get-put p.name name q stored ∙ rw other refl
]

get-store_all :
    (profiles : List ParameterProfile) (parameters : List Named) (stored : Dict Named) (name : Text)
    → (store_all profiles parameters stored).1 ≡ true
    → Dict.get name (store_all profiles parameters stored).0
      ≡ expected profiles name (Dict.get name stored) (last_named (λ p. p.name) name parameters)
unfolding store_all last_named store_one is_typed
get-store_all profiles [] stored name to_end = unfold expected in refl
get-store_all profiles (p ∷ parameters) stored name to_end =
    by_type (typed profiles p.name p.value) refl to_end
      (λ s k. get-store_all profiles parameters s name k)
  where
    by_type :
        (o : Option Named)
        → typed profiles p.name p.value ≡ o
        → (if is_typed o
            then store_all profiles parameters (store_one p.name stored o)
            else (stored, false)).1
          ≡ true
        → ((s : Dict Named)
            → (store_all profiles parameters s).1 ≡ true
            → Dict.get name (store_all profiles parameters s).0
              ≡ expected profiles name (Dict.get name s) (last_named (λ p. p.name) name parameters))
        → Dict.get name
            (if is_typed o
              then store_all profiles parameters (store_one p.name stored o)
              else (stored, false)).0
          ≡ expected profiles name
              (Dict.get name stored)
              (last_named (λ p. p.name) name (p ∷ parameters))
    by_type none e h later = absurd (ground arith)
    by_type (some q) e h later =
        later (Dict.put p.name q stored) h
        ∙ expected-put profiles name p q stored (last_named (λ p. p.name) name parameters) e

-- Where `_apply` completes OK, every parameter that was given has the value that was given last, with
-- the type of its profile, and every other one has the value that it had when the hook was done.
pub apply-stored :
    (h after : Hosted) (accepts : Bool) (parameters : List Named) (name : Text)
    → (apply h after accepts parameters).1 ≡ completes CompletedStatus.ok
    → Dict.get name (apply h after accepts parameters).0.parameters
      ≡ expected after.profile.parameter_profiles name
          (Dict.get name after.parameters)
          (last_named (λ p. p.name) name parameters)
unfolding apply begin_apply end_apply apply_stored
apply-stored h after accepts parameters name completed = elim (Bool-cases (operable h)) [
  | inl works ↦ elim (Bool-cases accepts) [
    | inl taken ↦
        rw (apply, begin_apply, end_apply, works, taken)
          (get-store_all after.profile.parameter_profiles parameters after.parameters name
            (ground (arith, works, taken, completed)))
    | inr refuses ↦ absurd (ground (arith, works, refuses, completed))
  ]
  | inr broken ↦ absurd (ground (arith, broken, completed))
]
