-- ===== src/Local/Kept.antt =====
-- local.py: the errors that are kept, in every state that the local components reach.
use openrois.Common.{ℕ, ◌≡◌, some, List, Text}
use openrois.Common.Dict
use openrois.Common.Dict.{Dict, get-put}
use openrois.Profiles.Status.{ComponentStatus, ErrorType}
use openrois.Profiles.Units.{Named}
use openrois.Local.State.{Hosted, Subscription, Local}
use openrois.Local.Statuses.{
  put_hosted, raise_component, clear_component, raise_resource, clear_resource, raise_engine,
  clear_engine,
}
use openrois.Local.Results.{keep_results}
use openrois.Local.Events.{send_event, event_detail, add_subscription, unsubscribe}

-- One step of the local components: a status that is raised or withdrawn, an event or a subscription,
-- results that are kept, or a change of a component other than its raised statuses.
pub data Step (l : Local) : Local → Type 0 where
  raises :
      (ref : Text) (key : ℕ) (s : ComponentStatus) (m : Text) (t : ErrorType) (now : ℕ)
      → Step l (raise_component l ref key s m t now)
  clears : (ref : Text) (key : ℕ) → Step l (clear_component l ref key)
  raises_resource :
      (r : ℕ) (s : ComponentStatus) (m : Text) (now : ℕ) → Step l (raise_resource l r s m now)
  clears_resource : (r : ℕ) → Step l (clear_resource l r)
  raises_engine : (s : ComponentStatus) (m : Text) (now : ℕ) → Step l (raise_engine l s m now)
  clears_engine : Step l (clear_engine l)
  sends :
      (event_type : Text) (results : List Named) (now : ℕ) (reached : Dict Subscription)
      → Step l (send_event l event_type results now reached)
  details : (event_id : Text) (now : ℕ) → Step l (event_detail l event_id now).0
  subscribes :
      (ref event_type : Text) (arguments : List Named) (deliver : ℕ)
      → Step l (add_subscription l ref event_type arguments deliver).0
  unsubscribes : (id : Text) → Step l (unsubscribe l id)
  keeps : (id : Text) (values : List Named) → Step l (keep_results l id values)
  works :
      (ref : Text) (h h' : Hosted)
      → Dict.get ref l.hosted ≡ some h
      → h'.raised ≡ h.raised
      → Step l (put_hosted l ref h')

pub data Reach (l : Local) : Local → Type 0 where
  here : Reach l l
  next : {k m : Local} → Reach l k → Step k m → Reach l m
