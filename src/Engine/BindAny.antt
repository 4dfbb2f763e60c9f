-- ===== src/Engine/BindAny.antt =====
-- engine.py: `_bind_any` keeps the binds exclusive, and binds the component that it answers with.
use openrois.Common.{◌≡◌, refl, sym, ◌∙◌, Option, none, some, List, [], ◌∷◌, arith, Text}
use openrois.Common.Dict
use openrois.Common.Dict.{Dict}
use openrois.Profiles.Status.{ReturnCode}
use openrois.Profiles.Units.{ComponentProfile}
use openrois.Engine.State.{SourceId, Engine}
use openrois.Engine.Routes.{Entry, components, profile_of}
use openrois.Engine.Binds.{bind, first_bound, bind_first, bind_any}
use openrois.Engine.Exclusive.{IsExclusive, bind-IsExclusive}

pub components-bind :
    (e : Engine) (s ref : Text) (p : ComponentProfile)
    → components (bind e s ref p).0 ≡ components e
unfolding bind components
components-bind e s ref p = ground arith

first_bound-IsExclusive :
    (ref : Text) (r : Engine × ReturnCode) (later : Engine → Engine × ReturnCode × Option Text)
    → IsExclusive r.0
    → IsExclusive (later r.0).0
    → IsExclusive (first_bound ref r later).0
unfolding first_bound
first_bound-IsExclusive ref (e, ReturnCode.ok) later x y = x
first_bound-IsExclusive ref (e, _) later x y = y

profile_of-components :
    (e : Engine) (ref : Text) (p : ComponentProfile) (source : SourceId)
    → Dict.get ref (components e) ≡ some (p, source)
    → profile_of e ref ≡ some p
unfolding profile_of
profile_of-components e ref p source h = rw (h, profile_of) refl

abbrev round :
    Engine
    → Text
    → Text
    → (Engine → Engine × ReturnCode × Option Text)
    → Option Entry
    → Engine × ReturnCode × Option Text
round e s ref later found = elim found [
  | none ↦ later e
  | some (profile, source) ↦ first_bound ref (bind e s ref profile) later
]

round-IsExclusive :
    (e : Engine) (s ref : Text) (known : Dict Entry)
    (later : Engine → Engine × ReturnCode × Option Text) (found : Option Entry)
    → ((e' : Engine) → known ≡ components e' → IsExclusive e' → IsExclusive (later e').0)
    → Dict.get ref known ≡ found
    → known ≡ components e
    → IsExclusive e
    → IsExclusive (round e s ref later found).0
round-IsExclusive e s ref known later none ih h k x = ih e k x
round-IsExclusive e s ref known later (some (p, source)) ih h k x =
    let there : profile_of e ref ≡ some p = profile_of-components e ref p source (rw (← k) h) in
    let bound : IsExclusive (bind e s ref p).0 = bind-IsExclusive e s ref p there x in
    first_bound-IsExclusive ref (bind e s ref p) later bound
      (ih (bind e s ref p).0 (k ∙ sym (components-bind e s ref p)) bound)

bind_first-IsExclusive :
    (e : Engine) (s : Text) (known : Dict Entry) (refs : List Text)
    → known ≡ components e
    → IsExclusive e
    → IsExclusive (bind_first e s known refs).0
unfolding bind_first
bind_first-IsExclusive e s known [] k x = x
bind_first-IsExclusive e s known (ref ∷ refs) k x =
    round-IsExclusive e s ref known (λ e'. bind_first e' s known refs) (Dict.get ref known)
      (λ e' k' x'. bind_first-IsExclusive e' s known refs k' x') refl k x

pub bind_any-IsExclusive :
    (e : Engine) (s : Text) (selected : Option (List Text))
    → IsExclusive e
    → IsExclusive (bind_any e s selected).0
unfolding bind_any
bind_any-IsExclusive e s none x = x
bind_any-IsExclusive e s (some []) x = x
bind_any-IsExclusive e s (some (ref ∷ refs)) x =
    bind_first-IsExclusive e s (components e) (ref ∷ refs) refl x
