-- ===== src/Local/Publishing.antt =====
-- local.py: whom an event reaches, and for how long its detail is there.
use openrois.Common.{
  ℕ, suc, ◌+◌, ◌≡◌, refl, false, not, ◌||◌, none, List, [], ◌∷◌, ◌++◌, arith, if◌then◌else◌, ltb,
  any, Text, codes, text_eq,
}
use openrois.Common.Dict
use openrois.Common.Dict.{Dict}
use openrois.Profiles.Status.{ReturnCode}
use openrois.Profiles.Units.{Named}
use openrois.Local.State.{Hosted, Subscription, Local, id_of, new_id}
use openrois.Local.Statuses.{operable}
use openrois.Local.Events.{takes, takers, expired, notices, is_suspended, event_detail}

-- No event has one of the ids that are still to be given out.
abbrev pub IsNumbered : Local → Type 0
IsNumbered l =
    (k : ℕ) → Dict.get (id_of l.engine_id (codes "evt") (suc (l.next_id + k))) l.events ≡ none

expired-absent :
    (id : Text) (now : ℕ) (events : Dict (List Named × ℕ))
    → Dict.get id events ≡ none
    → any (λ j. text_eq j id) (expired now events) ≡ false
unfolding expired Dict.get any
expired-absent id now [] h = refl
expired-absent id now ((i, (results, expires)) ∷ events) h =
    ground (arith, expired-absent id now events, h)

-- the subscriptions that an event of a component reaches: none of one that is held back
abbrev pub reached : Local → Hosted → Text → Text → Dict Text → Dict Subscription
reached l h ref event_type concerning =
    if not (operable h) || is_suspended h.suspension
    then []
    else takers (takes ref event_type concerning) l.subscriptions

-- An event that reaches no subscription changes nothing. One that does is handed to each of them
-- once, in their order, and its detail is there until its time is over, and not after.
abbrev pub IsPublished : Local → Text → List Named → ℕ → Dict Subscription → Local → Type 0
IsPublished l event_type results now [] l' = l' ≡ l
IsPublished l event_type results now (s ∷ others) l' =
    (l'.delivered
      ≡ l.delivered
        ++ notices (new_id l (codes "evt")) event_type (now + l.event_lifetime) results
            (s ∷ others))
    × ((later : ℕ)
        → (event_detail l' (new_id l (codes "evt")) later).1 ≡ (
            if ltb (now + l.event_lifetime) later
            then (ReturnCode.bad_parameter, [])
            else (ReturnCode.ok, results)))
