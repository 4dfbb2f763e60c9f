-- ===== src/Engine/Exclusive.antt =====
-- engine.py: the binds of an actuation component.
use openrois.Common.{
  ◌≤◌, ◌≡◌, refl, sym, ap, ◌∙◌, Bool, true, false, not, ◌&&◌, Option, none, some, List, [], ◌∷◌,
  ◌++◌, arith, if◌then◌else◌, length, length-append, ◌⊎◌, inl, inr, keep, Text, text_eq,
  text_eq_iff,
}
use openrois.Common.Dict
use openrois.Common.Dict.{Dict, get-put}
use openrois.Profiles.Status.{ReturnCode}
use openrois.Profiles.Units.{ComponentProfile}
use openrois.Engine.State.{Engine}
use openrois.Engine.Routes.{components, profile_of}
use openrois.Engine.Binds.{
  holders, is_empty, is_actuation, bind, discard, bind_request, unbind, unbind_all, discard_all,
}

-- Every actuation component that the engine reaches has one holder at most.
pub record IsExclusive (e : Engine) : Type 0 where
  pub one_holder :
      (ref : Text) (profile : ComponentProfile)
      → profile_of e ref ≡ some profile
      → is_actuation profile ≡ true
      → length (holders e ref) ≤ 1

pub holders-put :
    (e : Engine) (ref r : Text) (held : List Text)
    → holders (record e { binds = Dict.put ref held e.binds }) r
      ≡ (if text_eq ref r then held else holders e r)
unfolding holders
holders-put e ref r held = ground (arith, get-put ref r held e.binds)

-- What `bind` leaves: the caller among the holders, or the holders as they were.
holders-bind :
    (e : Engine) (s ref r : Text) (p : ComponentProfile)
    → (holders (bind e s ref p).0 r ≡ holders e r)
      ⊎ (r ≡ ref)
        × (holders (bind e s ref p).0 r ≡ holders e r ++ s ∷ [])
        × (is_actuation p && not (is_empty (holders e ref)) ≡ false)
unfolding bind
holders-bind e s ref r p =
    ground (arith, holders-put e ref r (holders e ref ++ s ∷ []), text_eq_iff ref r)

length-is_empty : (xs : List Text) → is_empty xs ≡ true → length xs ≡ 0
unfolding is_empty
length-is_empty [] h = refl
length-is_empty (x ∷ xs) h = cc

-- which components there are does not depend on the binds
profile_of-bind :
    (e : Engine) (s ref r : Text) (p : ComponentProfile)
    → profile_of (bind e s ref p).0 r ≡ profile_of e r
unfolding bind profile_of components
profile_of-bind e s ref r p = ground arith

free_when_bound :
    (e : Engine) (ref r : Text) (p q : ComponentProfile)
    → r ≡ ref
    → profile_of e ref ≡ some p
    → profile_of e r ≡ some q
    → is_actuation q ≡ true
    → is_actuation p && not (is_empty (holders e ref)) ≡ false
    → length (holders e r) ≡ 0
free_when_bound e ref r p q er hp hq ha free =
    let same : q ≡ p = cc (er, hp, hq) in ground (arith, length-is_empty (holders e ref), same, er)

bind-one_holder :
    (e : Engine) (s ref r : Text) (p q : ComponentProfile)
    → IsExclusive e
    → profile_of e ref ≡ some p
    → profile_of e r ≡ some q
    → is_actuation q ≡ true
    → length (holders (bind e s ref p).0 r) ≤ 1
bind-one_holder e s ref r p q x hp hq ha = elim (holders-bind e s ref r p) [
  | inl same ↦ rw same (x.one_holder r q hq ha)
  | inr (er, grown, free) ↦ rw grown (
      omega
        (arith, length-append (holders e r) (s ∷ []), free_when_bound e ref r p q er hp hq ha free))
]

pub bind-IsExclusive :
    (e : Engine) (s ref : Text) (p : ComponentProfile)
    → profile_of e ref ≡ some p
    → IsExclusive e
    → IsExclusive (bind e s ref p).0
bind-IsExclusive e s ref p hp x = record {
  one_holder =
      λ r q hq ha. bind-one_holder e s ref r p q x hp (sym (profile_of-bind e s ref r p) ∙ hq) ha;
}

pub bind_request-IsExclusive :
    (e : Engine) (s ref : Text) → IsExclusive e → IsExclusive (bind_request e s ref).0
unfolding bind_request
bind_request-IsExclusive e s ref x = of_profile (profile_of e ref) refl
  where
    of_profile :
        (found : Option ComponentProfile)
        → profile_of e ref ≡ found
        → IsExclusive
            (let y : Engine × ReturnCode = elim found [
              | none ↦ (e, ReturnCode.unsupported)
              | some profile ↦ bind e s ref profile
            ] in
              y).0
    of_profile none h = x
    of_profile (some p) h = bind-IsExclusive e s ref p h x

-- A step that adds no holder and no component keeps it.
pub IsExclusive-of_fewer :
    (e e' : Engine)
    → ((r : Text) → profile_of e' r ≡ profile_of e r)
    → ((r : Text) → length (holders e' r) ≤ length (holders e r))
    → IsExclusive e
    → IsExclusive e'
IsExclusive-of_fewer e e' same fewer x = record {
  one_holder =
      λ r p hp ha. let old = x.one_holder r p (sym (same r) ∙ hp) ha in omega (arith, fewer r, old);
}

length-keep {ℓ} : {A : Type ℓ} (p : A → Bool) (xs : List A) → length (keep p xs) ≤ length xs
unfolding keep
length-keep p [] = omega arith
length-keep p (x ∷ xs) = ground (arith, length-keep p xs)

length-discard : (t : Text) (xs : List Text) → length (discard t xs) ≤ length xs
unfolding discard
length-discard t xs = length-keep _ xs

discard-nil : (t : Text) → discard t [] ≡ []
unfolding discard keep
discard-nil t = refl

found-unbind :
    (e : Engine) (s ref r : Text) (found : Option (List Text))
    → Dict.get ref e.binds ≡ found
    → holders
        (elim found [
          | none ↦ e
          | some held ↦ record e { binds = Dict.put ref (discard s held) e.binds }
        ])
        r
      ≡ (if text_eq ref r then discard s (holders e r) else holders e r)
found-unbind e s ref r none h = unfold holders in ground (arith, text_eq_iff ref r, discard-nil s)
found-unbind e s ref r (some held) h =
    rw holders-put (unfold holders in ground (arith, text_eq_iff ref r))

pub holders-unbind :
    (e : Engine) (s ref r : Text)
    → holders (unbind e s ref) r ≡ (if text_eq ref r then discard s (holders e r) else holders e r)
unfolding unbind
holders-unbind e s ref r = found-unbind e s ref r (Dict.get ref e.binds) refl

get-discard_all :
    (s r : Text) (binds : Dict (List Text))
    → Dict.get r (discard_all s binds)
      ≡ elim (Dict.get r binds) [ none ↦ none | some held ↦ some (discard s held) ]
unfolding Dict.get discard_all
get-discard_all s r [] = refl
get-discard_all s r ((j, held) ∷ binds) = ground (arith, get-discard_all s r binds)

pub holders-unbind_all :
    (e : Engine) (s r : Text) → holders (unbind_all e s) r ≡ discard s (holders e r)
unfolding unbind_all holders
holders-unbind_all e s r = ground (arith, get-discard_all s r e.binds, discard-nil s)

profile_of-unbind : (e : Engine) (s ref r : Text) → profile_of (unbind e s ref) r ≡ profile_of e r
unfolding unbind profile_of components
profile_of-unbind e s ref r = ground arith

pub unbind-IsExclusive : (e : Engine) (s ref : Text) → IsExclusive e → IsExclusive (unbind e s ref)
unbind-IsExclusive e s ref =
    IsExclusive-of_fewer e (unbind e s ref) (profile_of-unbind e s ref)
      (λ r. ground (arith, holders-unbind e s ref r, length-discard s (holders e r)))

pub unbind_all-IsExclusive : (e : Engine) (s : Text) → IsExclusive e → IsExclusive (unbind_all e s)
unbind_all-IsExclusive e s =
    IsExclusive-of_fewer e (unbind_all e s) (λ r. unfold unbind_all profile_of components in refl)
      (λ r. omega (arith, ap length (holders-unbind_all e s r), length-discard s (holders e r)))
