-- ===== src/Engine/Ending.antt =====
-- engine.py: the end of a session's subscriptions, alone and with other steps between its rounds.
use openrois.Common.{
  ℕ, ◌≡◌, refl, ◌∙◌, Bool, true, false, none, some, List, [], ◌∷◌, arith, if◌then◌else◌, Text,
  text_eq_iff,
}
use openrois.Common.Dict
use openrois.Common.Dict.{Dict, get-pop}
use openrois.Condition.Parse.{mem_text}
use openrois.Engine.State.{SourceId, child, Source, Subscription, Notification, Engine}
use openrois.Engine.Commands.{notify}
use openrois.Engine.Events.{announce_profile, notify_each, end_subscription}
use openrois.Engine.Sessions.{is_source, drop_source, find_child, remove_child}
use openrois.Engine.Routing.{mem_text-cons}

-- The keys of a dict are distinct.
abbrev pub IsDict {ℓ} : {V : Type ℓ} → Dict V → Type 0
IsDict [] = Unit {0}
IsDict ((k, v) ∷ d) = (mem_text k (Dict.keys d) ≡ false) × IsDict d

get-absent {ℓ} :
    {V : Type ℓ} (k : Text) (d : Dict V) → mem_text k (Dict.keys d) ≡ false → Dict.get k d ≡ none
unfolding Dict.get Dict.keys
get-absent k [] h = refl
get-absent k ((j, v) ∷ d) h = ground (arith, mem_text-cons k j (Dict.keys d), get-absent k d)

drop_source-absent :
    (k : ℕ) (i : Text) (d : Dict Subscription)
    → Dict.get i d ≡ none
    → Dict.get i (drop_source k d) ≡ none
unfolding Dict.get drop_source
drop_source-absent k i [] h = refl
drop_source-absent k i ((j, v) ∷ d) h = ground (arith, drop_source-absent k i d)

get-drop_source :
    (k : ℕ) (i : Text) (d : Dict Subscription) (s : Subscription)
    → IsDict d
    → Dict.get i d ≡ some s
    → Dict.get i (drop_source k d) ≡ (if is_source k s.source then none else some s)
unfolding Dict.get drop_source
get-drop_source k i [] s u h = cc
get-drop_source k i ((j, v) ∷ d) s (fresh, u) h = ground (
  arith,
  text_eq_iff j i,
  get-absent j d fresh,
  drop_source-absent k i d,
  get-drop_source k i d s u,
)

subscriptions-if :
    (e : Engine) (b : Bool) (s : Text) (n : Notification)
    → (if b then notify e s n else e).subscriptions ≡ e.subscriptions
unfolding notify
subscriptions-if e true s n = refl
subscriptions-if e false s n = refl

subscriptions-notify_each :
    (e : Engine) (test : Text → Bool) (n : Notification) (sessions : List Text)
    → (notify_each e test n sessions).subscriptions ≡ e.subscriptions
unfolding notify_each
subscriptions-notify_each e test n [] = refl
subscriptions-notify_each e test n (s ∷ sessions) =
    subscriptions-notify_each (if test s then notify e s n else e) test n sessions
    ∙ subscriptions-if e (test s) s n

-- the subscriptions that are left when a child is gone
remove_child-subscriptions :
    (e : Engine) (k : ℕ) (s : Source)
    → find_child k e.children ≡ some s
    → (remove_child e k).subscriptions ≡ drop_source k e.subscriptions
unfolding remove_child announce_profile
remove_child-subscriptions e k s h = rw (h, remove_child) (subscriptions-notify_each _ _ _ _)

is_source_self : (k : ℕ) (s : SourceId) → s ≡ child k → is_source k s ≡ true
is_source_self k s h = rw h (unfold is_source in ground arith)

-- While `_end_session` waits for the end of one subscription, the child that owns a later one may
-- go. Then the round for the later one raises a KeyError: the loop over the session's subscriptions
-- ends there, whichever subscription of that child comes next.
pub end_subscription-raises :
    (e : Engine) (k : ℕ) (i : Text) (s : Subscription) (source : Source)
    → IsDict e.subscriptions
    → Dict.get i e.subscriptions ≡ some s
    → s.source ≡ child k
    → find_child k e.children ≡ some source
    → end_subscription (remove_child e k) i ≡ none
unfolding end_subscription
end_subscription-raises e k i s source u h own there =
    let gone : Dict.get i (remove_child e k).subscriptions ≡ none =
      rw
        (
          remove_child-subscriptions e k source there,
          get-drop_source k i e.subscriptions s u h,
          is_source_self k s.source own,
        )
        refl in
    rw (gone, end_subscription) refl
