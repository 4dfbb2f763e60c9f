-- ===== src/Engine/Steps.antt =====
-- engine.py: the steps of sessions in any order, and the exclusive binds in every state they reach.
use openrois.Common.{
  ℕ, ◌≤◌, ◌≡◌, refl, Bool, true, false, Option, none, some, List, [], ◌∷◌, arith, length, any, Text,
  text_eq_iff, inl, inr, ◌⊎◌,
}
use openrois.Common.Dict
use openrois.Condition.Parse.{mem_text}
use openrois.Profiles.Status.{CompletedStatus, ErrorType}
use openrois.Profiles.Units.{ComponentProfile, CommandUnit, Item}
use openrois.Engine.State.{SourceId, Engine}
use openrois.Engine.Routes.{profile_of}
use openrois.Engine.Binds.{
  holders, is_actuation, is_trusted, holds, bind_request, bind_any, unbind, unbind_all,
}
use openrois.Engine.Commands.{complete, finish, skip}
use openrois.Engine.Execute.{execute}
use openrois.Engine.Requests.{start_unit, end_unit, parameter_set}
use openrois.Engine.Events.{add_subscription, unsubscribe, raise_error}
use openrois.Engine.Sessions.{
  open_session, connect, set_connected, spare_shared, release, begin_end, forget_session,
}
use openrois.Engine.Exclusive.{
  IsExclusive, bind_request-IsExclusive, unbind-IsExclusive, unbind_all-IsExclusive,
}
use openrois.Engine.BindAny.{bind_any-IsExclusive}
use openrois.Engine.Tasks.{start_unit-SameBinds, end_unit-SameBinds, parameter_set-SameBinds}
use openrois.Engine.Frames.{
  SameBinds, IsExclusive-SameBinds, execute-SameBinds, complete-SameBinds, finish-SameBinds,
  skip-SameBinds, unsubscribe-SameBinds, notify_each-SameBinds,
}

-- One step of the engine for its sessions: a request up to where it waits, what follows a wait, or a
-- message of a source. The sources stay as they are.
pub data Step (decodes : Text → Text → Bool) (e : Engine) : Engine → Type 0 where
  opens : (trusted : Bool) → Step decodes e (open_session e trusted).0
  connects : (s : Text) → Step decodes e (connect e s).0
  binds : (s ref : Text) → Step decodes e (bind_request e s ref).0
  binds_any : (s : Text) (selected : Option (List Text)) → Step decodes e (bind_any e s selected).0
  releases : (s ref : Text) → Step decodes e (release e s ref).0
  executes : (s : Text) (items : List Item) → Step decodes e (execute decodes e s items).0
  completes :
      (s c : Text) (at : ℕ) (status : CompletedStatus) → Step decodes e (complete e s c at status)
  finishes : (s c : Text) (status : CompletedStatus) → Step decodes e (finish e s c status)
  starts : (s : Text) (unit : CommandUnit) → Step decodes e (start_unit e s unit).0
  stops :
      (s : Text) (unit : CommandUnit) (at : ℕ) (status : CompletedStatus)
      → Step decodes e (end_unit e s unit at status)
  sets :
      (s ref : Text) (source : SourceId) (id : Text)
      → Step decodes e (parameter_set e s ref source id).0
  skips : (s : Text) (units : List CommandUnit) → Step decodes e (skip e s units)
  subscribes :
      (s : Text) (source : SourceId) (ref event_type condition id : Text)
      → Step decodes e (add_subscription e s source ref event_type condition id)
  unsubscribes : (s id : Text) → Step decodes e (unsubscribe e s id).0
  raises :
      (ref error_id : Text) (error_type : ErrorType)
      → Step decodes e (raise_error e ref error_id error_type)
  ends : (s : Text) → Step decodes e (begin_end e s)
  forgets : (s : Text) → Step decodes e (forget_session e s)

pub data Reach (decodes : Text → Text → Bool) (e : Engine) : Engine → Type 0 where
  here : Reach decodes e e
  next : {f g : Engine} → Reach decodes e f → Step decodes f g → Reach decodes e g

spare_shared-SameBinds :
    (e : Engine) (s : Text) (ref : Option Text) → SameBinds e (spare_shared e s ref)
unfolding spare_shared
spare_shared-SameBinds e s ref = record {
  same_binds = refl;
  same_local = refl;
  same_children = refl;
}

set_connected-SameBinds : (e : Engine) (s : Text) (b : Bool) → SameBinds e (set_connected e s b)
unfolding set_connected
set_connected-SameBinds e s b = ground arith

release-cases :
    (e : Engine) (s ref : Text)
    → ((release e s ref).0 ≡ e) ⊎ ((release e s ref).0 ≡ spare_shared (unbind e s ref) s (some ref))
unfolding release
release-cases e s ref = ground arith

release-IsExclusive : (e : Engine) (s ref : Text) → IsExclusive e → IsExclusive (release e s ref).0
release-IsExclusive e s ref x = elim (release-cases e s ref) [
  | inl same ↦ rw same x
  | inr left ↦ rw left (
      IsExclusive-SameBinds (spare_shared-SameBinds (unbind e s ref) s (some ref))
        (unbind-IsExclusive e s ref x))
]

Step-IsExclusive :
    {decodes : Text → Text → Bool} {e f : Engine} → Step decodes e f → IsExclusive e → IsExclusive f
Step-IsExclusive {e} (opens trusted) =
    IsExclusive-SameBinds
      (unfold open_session in record { same_binds = refl; same_local = refl; same_children = refl })
Step-IsExclusive {e} (connects s) =
    IsExclusive-SameBinds (unfold connect in set_connected-SameBinds e s true)
Step-IsExclusive {e} (binds s ref) = bind_request-IsExclusive e s ref
Step-IsExclusive {e} (binds_any s selected) = bind_any-IsExclusive e s selected
Step-IsExclusive {e} (releases s ref) = release-IsExclusive e s ref
Step-IsExclusive {decodes} {e} (executes s items) =
    IsExclusive-SameBinds (execute-SameBinds decodes e s items)
Step-IsExclusive {e} (completes s c at status) =
    IsExclusive-SameBinds (complete-SameBinds e s c at status)
Step-IsExclusive {e} (finishes s c status) = IsExclusive-SameBinds (finish-SameBinds e s c status)
Step-IsExclusive {e} (starts s unit) = IsExclusive-SameBinds (start_unit-SameBinds e s unit)
Step-IsExclusive {e} (stops s unit at status) =
    IsExclusive-SameBinds (end_unit-SameBinds e s unit at status)
Step-IsExclusive {e} (sets s ref source id) =
    IsExclusive-SameBinds (parameter_set-SameBinds e s ref source id)
Step-IsExclusive {e} (skips s units) = IsExclusive-SameBinds (skip-SameBinds e s units)
Step-IsExclusive {e} (subscribes s source ref event_type condition id) = IsExclusive-SameBinds (
    unfold add_subscription in
    record { same_binds = refl; same_local = refl; same_children = refl })
Step-IsExclusive {e} (unsubscribes s id) = IsExclusive-SameBinds (unsubscribe-SameBinds e s id)
Step-IsExclusive {e} (raises ref error_id error_type) =
    IsExclusive-SameBinds (unfold raise_error in notify_each-SameBinds e _ _ e.sessions)
Step-IsExclusive {e} (ends s) = λ x.
    unfold begin_end in
    IsExclusive-SameBinds (spare_shared-SameBinds (unbind_all (set_connected e s false) s) s none) (
      unbind_all-IsExclusive (set_connected e s false) s
        (IsExclusive-SameBinds (set_connected-SameBinds e s false) x))
Step-IsExclusive {e} (forgets s) =
    IsExclusive-SameBinds (
      unfold forget_session in
      record { same_binds = refl; same_local = refl; same_children = refl })

IsExclusive-fresh : (e : Engine) → e.binds ≡ [] → IsExclusive e
IsExclusive-fresh e h = record {
  one_holder = λ r p hp ha. unfold holders Dict.get in rw h (omega arith);
}

-- From an engine with no binds, whatever the sessions do and in whatever order the steps come, every
-- actuation component has one holder at most.
pub Reach-IsExclusive :
    (decodes : Text → Text → Bool) {e f : Engine} → e.binds ≡ [] → Reach decodes e f → IsExclusive f
Reach-IsExclusive decodes {e} fresh here = IsExclusive-fresh e fresh
Reach-IsExclusive decodes fresh (next r step) =
    Step-IsExclusive step (Reach-IsExclusive decodes fresh r)

one_member :
    (s t : Text) (xs : List Text)
    → length xs ≤ 1
    → mem_text s xs ≡ true
    → mem_text t xs ≡ true
    → s ≡ t
unfolding mem_text any
one_member s t [] h hs ht = cc
one_member s t (x ∷ []) h hs ht = ground (arith, text_eq_iff x s, text_eq_iff x t)
one_member s t (x ∷ y ∷ xs) h hs ht = absurd (omega arith)

-- In every state so reached, two clients that may both command an actuation component are one session.
pub sole_commander :
    (decodes : Text → Text → Bool) {e f : Engine} (s t ref : Text) (p : ComponentProfile)
    → e.binds ≡ []
    → Reach decodes e f
    → profile_of f ref ≡ some p
    → is_actuation p ≡ true
    → is_trusted f s ≡ false
    → is_trusted f t ≡ false
    → holds f s ref ≡ true
    → holds f t ref ≡ true
    → s ≡ t
unfolding holds
sole_commander decodes {f} s t ref p fresh r hp ha us ut hs ht =
    let x = Reach-IsExclusive decodes fresh r in
    one_member s t (holders f ref) (x.one_holder ref p hp ha) (ground arith) (ground arith)
