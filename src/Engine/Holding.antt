-- ===== src/Engine/Holding.antt =====
-- engine.py: exactly who holds what after a bind, a release and the end of a session.
use openrois.Common.{
  ◌≡◌, ◌≢◌, refl, ap, Bool, not, ◌&&◌, ◌||◌, Option, none, some, [], ◌∷◌, ◌++◌, arith, any, Text,
  text_eq, text_eq_iff,
}
use openrois.Condition.Parse.{mem_text}
use openrois.Profiles.Status.{ReturnCode}
use openrois.Profiles.Units.{ComponentProfile}
use openrois.Engine.State.{Engine}
use openrois.Engine.Routes.{profile_of}
use openrois.Engine.Binds.{holders, bind, bind_request, unbind}
use openrois.Engine.Sessions.{release, spare_shared, begin_end, set_connected}
use openrois.Engine.Exclusive.{holders-put, holders-unbind, holders-unbind_all}
use openrois.Engine.Busy.{mem_text-append, mem_text-discard}

-- whether a session is among the holders of a component
abbrev pub is_holder : Engine → Text → Text → Bool
is_holder e s ref = mem_text s (holders e ref)

mem_text-single : (t u : Text) → mem_text t (u ∷ []) ≡ text_eq u t
unfolding mem_text any
mem_text-single t u = ground arith

bind-is_holder :
    (e : Engine) (s ref t r : Text) (p : ComponentProfile)
    → (bind e s ref p).1 ≡ ReturnCode.ok
    → is_holder (bind e s ref p).0 t r ≡ (text_eq s t && text_eq ref r) || is_holder e t r
unfolding bind
bind-is_holder e s ref t r p h = ground (
  arith,
  holders-put e ref r (holders e ref ++ s ∷ []),
  mem_text-append t (holders e ref) (s ∷ []),
  mem_text-single t s,
  text_eq_iff s t,
  text_eq_iff ref r,
)

bind-refused :
    (e : Engine) (s ref : Text) (p : ComponentProfile)
    → (bind e s ref p).1 ≢ ReturnCode.ok
    → (bind e s ref p).0 ≡ e
unfolding bind
bind-refused e s ref p h = ground arith

-- `bind_request` is `bind` at a component that the engine reaches
bind_request-some :
    (e : Engine) (s ref : Text) (p : ComponentProfile)
    → profile_of e ref ≡ some p
    → bind_request e s ref ≡ bind e s ref p
unfolding bind_request
bind_request-some e s ref p h = rw (h, bind_request) refl

bind_request-none :
    (e : Engine) (s ref : Text)
    → profile_of e ref ≡ none
    → bind_request e s ref ≡ (e, ReturnCode.unsupported)
unfolding bind_request
bind_request-none e s ref h = rw (h, bind_request) refl

-- What a bind request does to the holders, by its answer.
abbrev pub BindOutcome : Engine → Text → Text → Engine × ReturnCode → Type 0
BindOutcome e s ref (e', ReturnCode.ok) =
    (t r : Text) → is_holder e' t r ≡ (text_eq s t && text_eq ref r) || is_holder e t r
BindOutcome e s ref (e', _) = e' ≡ e

bind-BindOutcome :
    (e : Engine) (s ref : Text) (p : ComponentProfile) (y : Engine × ReturnCode)
    → bind e s ref p ≡ y
    → BindOutcome e s ref y
bind-BindOutcome e s ref p (e', ReturnCode.ok) h =
    λ t r. rw h at (bind-is_holder e s ref t r p (ap (λ (y : Engine × ReturnCode). y.1) h))
bind-BindOutcome e s ref p (e', c) h =
    rw h at (bind-refused e s ref p (λ k. cc (k, ap (λ (y : Engine × ReturnCode). y.1) h)))

found-BindOutcome :
    (e : Engine) (s ref : Text) (found : Option ComponentProfile)
    → profile_of e ref ≡ found
    → BindOutcome e s ref (bind_request e s ref)
found-BindOutcome e s ref none h = rw (bind_request-none e s ref h) refl
found-BindOutcome e s ref (some p) h =
    rw (bind_request-some e s ref p h) (bind-BindOutcome e s ref p (bind e s ref p) refl)

-- A bind request answered OK adds the caller to the holders of that component and changes no other
-- membership; answered otherwise, it leaves the engine as it was.
pub bind_request-BindOutcome :
    (e : Engine) (s ref : Text) → BindOutcome e s ref (bind_request e s ref)
bind_request-BindOutcome e s ref = found-BindOutcome e s ref (profile_of e ref) refl

holders-spare_shared :
    (e : Engine) (s r : Text) (ref : Option Text) → holders (spare_shared e s ref) r ≡ holders e r
unfolding holders spare_shared
holders-spare_shared e s r ref = refl

release-some :
    (e : Engine) (s ref : Text) (p : ComponentProfile)
    → profile_of e ref ≡ some p
    → (release e s ref).0 ≡ spare_shared (unbind e s ref) s (some ref)
unfolding release
release-some e s ref p h = rw (h, release) refl

-- A release of a component that the engine reaches takes the caller from its holders, whatever the
-- caller held, and changes no other membership.
pub release-is_holder :
    (e : Engine) (s ref t r : Text) (p : ComponentProfile)
    → profile_of e ref ≡ some p
    → is_holder (release e s ref).0 t r ≡ not (text_eq s t && text_eq ref r) && is_holder e t r
release-is_holder e s ref t r p h = rw (release-some e s ref p h) (
    rw holders-spare_shared (
      rw holders-unbind
        (ground (arith, mem_text-discard t s (holders e r), text_eq_iff ref r, text_eq_iff s t))))

holders-set_connected :
    (e : Engine) (s r : Text) (connected : Bool)
    → holders (set_connected e s connected) r ≡ holders e r
unfolding holders set_connected
holders-set_connected e s r connected = ground arith

-- The end of a session takes it from the holders of every component, and no other session from any.
pub begin_end-is_holder :
    (e : Engine) (s t r : Text)
    → is_holder (begin_end e s) t r ≡ not (text_eq s t) && is_holder e t r
unfolding begin_end
begin_end-is_holder e s t r =
    rw holders-spare_shared
      (rw holders-unbind_all (rw holders-set_connected (mem_text-discard t s (holders e r))))
