-- ===== src/Engine/Errors.antt =====
-- engine.py: who is told of an error.
use mathlib.Core.Logic.{inl, inr}
use mathlib.Core.List.{Memᴰ}
use mathlib.Core.List.Memᴰ.{head, tail}
use openrois.Common.{
  ◌≡◌, refl, sym, ◌∙◌, ap, ◌↔◌, Bool, true, false, ◌&&◌, Option, none, some, List, [], ◌∷◌, ◌++◌,
  append_assoc, append-nil, arith, if◌then◌else◌, any, Text, text_eq, text_eq_iff, Bool-cases,
}
use openrois.Common.Dict
use openrois.Common.Dict.{Dict}
use openrois.Condition.Parse.{mem_text}
use openrois.Profiles.Status.{ErrorType}
use openrois.Engine.State.{Session, Subscription, Notification, notify_error, Engine}
use openrois.Engine.Binds.{holders, is_empty, is_trusted}
use openrois.Engine.Commands.{notify, is_connected}
use openrois.Engine.Events.{is_concerned, is_subscribed, notify_each, raise_error}

-- A session with the flag `connected`.
abbrev pub IsConnected : Engine → Text → Type 0
IsConnected e s = (x : Session) × (Dict.get s e.peers ≡ some x) × (x.connected ≡ true)

-- A session of the listener of another engine: it is trusted.
abbrev pub IsTrusted : Engine → Text → Type 0
IsTrusted e s = (x : Session) × (Dict.get s e.peers ≡ some x) × (x.trusted ≡ true)

-- Why an error of a component, or of the engine itself where `ref` is empty, concerns a session.
pub data Concerns (e : Engine) (ref s : Text) : Type 0 where
  as_engine_error : ref ≡ [] → Concerns e ref s
  as_trusted : IsTrusted e s → Concerns e ref s
  as_holder : (held : List Text) → Dict.get ref e.binds ≡ some held → Memᴰ s held → Concerns e ref s
  as_subscriber :
      (id : Text) (x : Subscription)
      → Memᴰ (id, x) e.subscriptions
      → x.ref ≡ ref
      → x.session_id ≡ s
      → Concerns e ref s

-- What is sent to the sessions of a list, in their order: one notification to each session that is
-- connected and that the error concerns.
pub data Told (e : Engine) (ref : Text) (n : Notification)
    : List Text → List (Text × Notification) → Type 0 where
  nobody : Told e ref n [] []
  tells :
      {s : Text} {sessions : List Text} {sent : List (Text × Notification)}
      → IsConnected e s
      → Concerns e ref s
      → Told e ref n sessions sent
      → Told e ref n (s ∷ sessions) ((s, n) ∷ sent)
  passes :
      {s : Text} {sessions : List Text} {sent : List (Text × Notification)}
      → ¬ (IsConnected e s × Concerns e ref s)
      → Told e ref n sessions sent
      → Told e ref n (s ∷ sessions) sent

any-Memᴰ :
    {A : Type 0} (p : A → Bool) (xs : List A) → any p xs ≡ true → (x : A) × Memᴰ x xs × (p x ≡ true)
unfolding any
any-Memᴰ p [] h = cc
any-Memᴰ p (x ∷ xs) h = elim (Bool-cases (p x)) [
  | inl e ↦ (x, head refl, e)
  | inr e ↦ let (y, there, holds) = any-Memᴰ p xs (ground (arith, h, e)) in (y, tail there, holds)
]

Memᴰ-any :
    {A : Type 0} (p : A → Bool) (x : A) (xs : List A) → p x ≡ true → Memᴰ x xs → any p xs ≡ true
unfolding any
Memᴰ-any p x [] h there = elim there [ ]
Memᴰ-any p x (y ∷ xs) h (head e) = ground (arith, ap p e, h)
Memᴰ-any p x (y ∷ xs) h (tail there) = ground (arith, Memᴰ-any p x xs h there)

is_connected_iff : (e : Engine) (s : Text) → (is_connected e s ≡ true) ↔ IsConnected e s
unfolding is_connected
is_connected_iff e s = of_session (Dict.get s e.peers)
  where
    of_session :
        (o : Option Session)
        → ((let b : Bool = elim o [ none ↦ false | some x ↦ x.connected ] in b) ≡ true)
          ↔ ((x : Session) × (o ≡ some x) × (x.connected ≡ true))
    of_session none = (λ h. cc, λ (x, h, _). cc)
    of_session (some x) = (λ h. (x, refl, h), λ (y, h, c). ground (arith, h, c))

is_trusted_iff : (e : Engine) (s : Text) → (is_trusted e s ≡ true) ↔ IsTrusted e s
unfolding is_trusted
is_trusted_iff e s = of_session (Dict.get s e.peers)
  where
    of_session :
        (o : Option Session)
        → ((let b : Bool = elim o [ none ↦ false | some x ↦ x.trusted ] in b) ≡ true)
          ↔ ((x : Session) × (o ≡ some x) × (x.trusted ≡ true))
    of_session none = (λ h. cc, λ (x, h, _). cc)
    of_session (some x) = (λ h. (x, refl, h), λ (y, h, c). ground (arith, h, c))

holders-Memᴰ : (e : Engine) (ref s : Text) → mem_text s (holders e ref) ≡ true → Concerns e ref s
unfolding holders mem_text any
holders-Memᴰ e ref s = of_holders (Dict.get ref e.binds) refl
  where
    of_holders :
        (o : Option (List Text))
        → Dict.get ref e.binds ≡ o
        → mem_text s (let held : List Text = elim o [ none ↦ [] | some held ↦ held ] in held) ≡ true
        → Concerns e ref s
    of_holders none k h = cc
    of_holders (some held) k h =
        let (t, there, same) = any-Memᴰ (λ x. text_eq x s) held h in
        as_holder held k (rw (sym ((text_eq_iff t s).0 same)) there)

Memᴰ-holders :
    (e : Engine) (ref s : Text) (held : List Text)
    → Dict.get ref e.binds ≡ some held
    → Memᴰ s held
    → mem_text s (holders e ref) ≡ true
unfolding mem_text holders any
Memᴰ-holders e ref s held k there =
    rw (holders, k) (Memᴰ-any (λ x. text_eq x s) s held ((text_eq_iff s s).1 refl) there)

is_subscribed-Concerns :
    (e : Engine) (ref s : Text) → is_subscribed s ref e.subscriptions ≡ true → Concerns e ref s
unfolding is_subscribed
is_subscribed-Concerns e ref s h =
    let ((id, x), there, test) = any-Memᴰ _ e.subscriptions h in
    as_subscriber id x there ((text_eq_iff x.ref ref).0 (ground arith))
      ((text_eq_iff x.session_id s).0 (ground arith))

Memᴰ-is_subscribed :
    (e : Engine) (ref s id : Text) (x : Subscription)
    → Memᴰ (id, x) e.subscriptions
    → x.ref ≡ ref
    → x.session_id ≡ s
    → is_subscribed s ref e.subscriptions ≡ true
unfolding is_subscribed
Memᴰ-is_subscribed e ref s id x there of_ref of_session =
    Memᴰ-any (λ (i, y). text_eq y.ref ref && text_eq y.session_id s) (id, x) e.subscriptions
      (ground (arith, (text_eq_iff x.ref ref).1 of_ref, (text_eq_iff x.session_id s).1 of_session))
      there

is_empty-Concerns : (e : Engine) (ref s : Text) → is_empty ref ≡ true → Concerns e ref s
unfolding is_empty
is_empty-Concerns e [] s h = as_engine_error refl
is_empty-Concerns e (c ∷ ref) s h = cc

Concerns-is_concerned :
    (e : Engine) (ref s : Text)
    → is_connected e s ≡ true
    → Concerns e ref s
    → is_concerned e ref s ≡ true
unfolding is_concerned is_empty
Concerns-is_concerned e ref s h (as_engine_error none_given) = rw none_given (ground arith)
Concerns-is_concerned e ref s h (as_trusted t) = ground (arith, (is_trusted_iff e s).1 t)
Concerns-is_concerned e ref s h (as_holder held k there) =
    ground (arith, Memᴰ-holders e ref s held k there)
Concerns-is_concerned e ref s h (as_subscriber id x there of_ref of_session) =
    ground (arith, Memᴰ-is_subscribed e ref s id x there of_ref of_session)

is_concerned-Concerns : (e : Engine) (ref s : Text) → is_concerned e ref s ≡ true → Concerns e ref s
unfolding is_concerned
is_concerned-Concerns e ref s h = elim (Bool-cases (is_empty ref)) [
  | inl of_engine ↦ is_empty-Concerns e ref s of_engine
  | inr of_component ↦ elim (Bool-cases (is_trusted e s)) [
    | inl trusted ↦ as_trusted ((is_trusted_iff e s).0 trusted)
    | inr untrusted ↦ elim (Bool-cases (mem_text s (holders e ref))) [
      | inl holding ↦ holders-Memᴰ e ref s holding
      | inr released ↦
          is_subscribed-Concerns e ref s (ground (arith, h, of_component, untrusted, released))
    ]
  ]
]

is_concerned-is_connected :
    (e : Engine) (ref s : Text) → is_concerned e ref s ≡ true → is_connected e s ≡ true
unfolding is_concerned
is_concerned-is_connected e ref s h = ground arith

sent-round :
    (e : Engine) (test : Text → Bool) (n : Notification) (s : Text) (sessions : List Text)
    → (notify_each e test n (s ∷ sessions)).sent
      ≡ (notify_each (if test s then notify e s n else e) test n sessions).sent
unfolding notify_each
sent-round e test n s sessions = refl

sent-notify :
    (e : Engine) (s : Text) (n : Notification) (out : List (Text × Notification))
    → (notify e s n).sent ++ out ≡ e.sent ++ (s, n) ∷ out
unfolding notify
sent-notify e s n out = append_assoc e.sent ((s, n) ∷ []) out

sent-if :
    (e : Engine) (test : Text → Bool) (n : Notification) (s : Text) (sessions : List Text)
    (b : Bool)
    → test s ≡ b
    → (notify_each e test n (s ∷ sessions)).sent
      ≡ (notify_each (if b then notify e s n else e) test n sessions).sent
sent-if e test n s sessions b h =
    sent-round e test n s sessions
    ∙ ap (λ c. (notify_each (if c then notify e s n else e) test n sessions).sent) h

-- one round: what the session is sent, and the later ones
notify_each-Told :
    (e e' : Engine) (ref : Text) (n : Notification) (sessions : List Text)
    → (out : List (Text × Notification)) × ((notify_each e' (is_concerned e ref) n sessions).sent
        ≡ e'.sent ++ out)
      × Told e ref n sessions out
notify_each-Told e e' ref n [] = ([], (unfold notify_each in sym (append-nil e'.sent)), nobody)
notify_each-Told e e' ref n (s ∷ sessions) = elim (Bool-cases (is_concerned e ref s)) [
  | inl told ↦
      let (out, is_sent, later) = notify_each-Told e (notify e' s n) ref n sessions in
      (
        (s, n) ∷ out,
        sent-if e' (is_concerned e ref) n s sessions true told ∙ is_sent ∙ sent-notify e' s n out,
        tells ((is_connected_iff e s).0 (is_concerned-is_connected e ref s told))
            (is_concerned-Concerns e ref s told) later,
      )
  | inr untold ↦
      let (out, is_sent, later) = notify_each-Told e e' ref n sessions in
      (
        out,
        sent-if e' (is_concerned e ref) n s sessions false untold ∙ is_sent,
        passes
            (λ (there, why).
              cc (untold, Concerns-is_concerned e ref s ((is_connected_iff e s).1 there) why))
            later,
      )
]

-- An error is sent once to each open session that is connected and that it concerns, in the order in
-- which they opened, and to no other: one that is trusted, holds the component or subscribes to it,
-- and every one for an error of the engine itself.
pub raise_error-Told :
    (e : Engine) (ref error_id : Text) (error_type : ErrorType)
    → (out : List (Text × Notification)) × ((raise_error e ref error_id error_type).sent
        ≡ e.sent ++ out)
      × Told e ref (notify_error error_id error_type) e.sessions out
unfolding raise_error
raise_error-Told e ref error_id error_type =
    notify_each-Told e e ref (notify_error error_id error_type) e.sessions
