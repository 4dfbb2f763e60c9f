-- ===== src/Engine/Binds.antt =====
-- engine.py: who holds a component. `_bind`, `_holds`, and the three requests that bind and release.
use openrois.Common.{
  Bool, true, false, not, ◌&&◌, ◌||◌, Option, none, some, List, [], ◌∷◌, ◌++◌, map, if◌then◌else◌,
  keep, Text, text_eq, codes,
}
use openrois.Common.Dict
use openrois.Common.Dict.{Dict}
use openrois.Condition.Parse.{mem_text}
use openrois.Profiles.Status.{ReturnCode, ComponentFunction, actuation}
use openrois.Profiles.Units.{ComponentProfile, Named}
use openrois.Engine.State.{Engine}
use openrois.Engine.Routes.{Entry, components, profile_of}

-- `self._binds.get(ref, set())`
unfoldable pub holders : Engine → Text → List Text
holders e ref = elim (Dict.get ref e.binds) [ none ↦ [] | some held ↦ held ]

unfoldable pub is_empty {ℓ} : {A : Type ℓ} → List A → Bool
is_empty [] = true
is_empty (x ∷ xs) = false

unfoldable pub is_actuator : Option ComponentFunction → Bool
is_actuator (some actuation) = true
is_actuator _ = false

-- `profile.function is ComponentFunction.ACTUATION`
unfoldable pub is_actuation : ComponentProfile → Bool
is_actuation p = is_actuator p.function

-- `_bind`, with the empty set of holders that it leaves for a component not bound before
unfoldable pub bind : Engine → Text → Text → ComponentProfile → Engine × ReturnCode
bind e session_id ref profile =
    let held = holders e ref in
    if mem_text session_id held
    then (e, ReturnCode.ok)
    else if is_actuation profile && not (is_empty held)
    then (e, ReturnCode.out_of_resources)
    else (record e { binds = Dict.put ref (held ++ session_id ∷ []) e.binds }, ReturnCode.ok)

-- `session.trusted`
unfoldable pub is_trusted : Engine → Text → Bool
is_trusted e session_id = elim (Dict.get session_id e.peers) [ none ↦ false | some s ↦ s.trusted ]

-- `_holds`
unfoldable pub holds : Engine → Text → Text → Bool
holds e session_id ref = is_trusted e session_id || mem_text session_id (holders e ref)

-- `set.discard`
unfoldable pub discard : Text → List Text → List Text
discard t = keep (λ x. not (text_eq x t))

-- `_bind_request`
unfoldable pub bind_request : Engine → Text → Text → Engine × ReturnCode
bind_request e session_id ref = elim (profile_of e ref) [
  | none ↦ (e, ReturnCode.unsupported)
  | some profile ↦ bind e session_id ref profile
]

-- the test of one round, with the later rounds
unfoldable pub first_bound :
    Text
    → Engine × ReturnCode
    → (Engine → Engine × ReturnCode × Option Text)
    → Engine × ReturnCode × Option Text
first_bound ref (e, ReturnCode.ok) later = (e, ReturnCode.ok, some ref)
first_bound ref (e, _) later = later e

-- The loop of `_bind_any` over the selected refs. `none` is for no ref that could be bound.
unfoldable pub bind_first :
    Engine → Text → Dict Entry → List Text → Engine × ReturnCode × Option Text
bind_first e session_id known [] = (e, ReturnCode.out_of_resources, none)
bind_first e session_id known (ref ∷ refs) = elim (Dict.get ref known) [
  | none ↦ bind_first e session_id known refs
  | some (profile, source) ↦
      first_bound ref (bind e session_id ref profile) (λ e'. bind_first e' session_id known refs)
]

-- `_bind_any`, given the refs that its condition selects (`none`: it does not parse)
unfoldable pub bind_any : Engine → Text → Option (List Text) → Engine × ReturnCode × Option Text
bind_any e session_id none = (e, ReturnCode.bad_parameter, none)
bind_any e session_id (some []) = (e, ReturnCode.unsupported, none)
bind_any e session_id (some (ref ∷ refs)) = bind_first e session_id (components e) (ref ∷ refs)

-- `self._binds.get(ref, set()).discard(session.id)`
unfoldable pub unbind : Engine → Text → Text → Engine
unbind e session_id ref = elim (Dict.get ref e.binds) [
  | none ↦ e
  | some held ↦ record e { binds = Dict.put ref (discard session_id held) e.binds }
]

unfoldable pub discard_all : Text → Dict (List Text) → Dict (List Text)
discard_all session_id [] = []
discard_all session_id ((ref, held) ∷ binds) =
    (ref, discard session_id held) ∷ discard_all session_id binds

-- `for holders in self._binds.values(): holders.discard(session.id)`
unfoldable pub unbind_all : Engine → Text → Engine
unbind_all e session_id = record e { binds = discard_all session_id e.binds }

unfoldable pub is_ready : Named → Bool
is_ready r = text_eq r.name (codes "status") && text_eq r.value (codes "READY")

-- the test of `_as_seen_by`: another session holds an actuation component
unfoldable pub is_busy_for : Engine → Text → Text → Bool
is_busy_for e session_id ref = elim (profile_of e ref) [
  | none ↦ false
  | some profile ↦ is_actuation profile && not (is_empty (discard session_id (holders e ref)))
]

-- `_as_seen_by`
unfoldable pub as_seen_by : Engine → Text → Text → List Named → List Named
as_seen_by e session_id ref results =
    map
      (λ r.
        if is_busy_for e session_id ref && is_ready r then record r { value = codes "BUSY" } else r)
      results
