-- ===== src/Local/Events.antt =====
-- local.py: subscriptions, and events on their way to them.
use openrois.Common.{
  ℕ, suc, ◌+◌, Bool, true, false, not, ◌&&◌, ◌||◌, Option, none, some, List, [], ◌∷◌, ◌++◌,
  if◌then◌else◌, all, ltb, Text, codes, text_eq,
}
use openrois.Common.Dict
use openrois.Common.Dict.{Dict}
use openrois.Profiles.Status.{ReturnCode}
use openrois.Profiles.Units.{Named}
use openrois.Local.State.{Subscription, EventNotice, Local, new_id}
use openrois.Local.Statuses.{operable}

-- `subscription.arguments.get(name, value) == value`
unfoldable pub agrees_with : Option Text → Text → Bool
agrees_with none value = true
agrees_with (some given) value = text_eq given value

-- `_concerns`
unfoldable pub concerns : Subscription → Dict Text → Bool
concerns s concerning =
    all (λ (name, value). agrees_with (Dict.get name s.arguments) value) concerning

unfoldable pub takes : Text → Text → Dict Text → Subscription → Bool
takes ref event_type concerning s =
    text_eq s.ref ref && text_eq s.event_type event_type && concerns s concerning

-- the subscriptions that an event reaches, in their order
unfoldable pub takers : (Subscription → Bool) → Dict Subscription → Dict Subscription
takers test [] = []
takers test ((subscribe_id, s) ∷ subscriptions) =
    if test s then (subscribe_id, s) ∷ takers test subscriptions else takers test subscriptions

-- `_prune_events`: the ids of the events that are over, and the events without them
unfoldable pub expired : ℕ → Dict (List Named × ℕ) → List Text
expired now [] = []
expired now ((event_id, (results, expires)) ∷ events) =
    if ltb expires now then event_id ∷ expired now events else expired now events

unfoldable pub pruned_events : ℕ → Dict (List Named × ℕ) → Dict (List Named × ℕ)
pruned_events now events = Dict.pop_all (expired now events) events

unfoldable pub notices : Text → Text → ℕ → List Named → Dict Subscription → List (ℕ × EventNotice)
notices event_id event_type expire results [] = []
notices event_id event_type expire results ((subscribe_id, s) ∷ subscriptions) =
    (
      s.deliver,
      record {
        event_id = event_id;
        event_type = event_type;
        subscribe_id = subscribe_id;
        expire = expire;
        results = results;
      },
    )
    ∷ notices event_id event_type expire results subscriptions

unfoldable pub is_suspended : Option ℕ → Bool
is_suspended none = false
is_suspended (some s) = true

-- `_publish` from where some subscription is reached
unfoldable pub send_event : Local → Text → List Named → ℕ → Dict Subscription → Local
send_event l event_type results now [] = l
send_event l event_type results now (first ∷ others) =
    let event_id = new_id l (codes "evt") in
    let expires = now + l.event_lifetime in
    record l {
      next_id = suc l.next_id;
      events = Dict.put event_id (results, expires) (pruned_events now l.events);
      delivered = l.delivered ++ notices event_id event_type expires results (first ∷ others);
    }

-- `_publish`
unfoldable pub publish : Local → Text → Text → List Named → Dict Text → ℕ → Local
publish l ref event_type results concerning now = elim (Dict.get ref l.hosted) [
  | none ↦ l
  | some h ↦
      if not (operable h) || is_suspended h.suspension
      then l
      else send_event l event_type results now
          (takers (takes ref event_type concerning) l.subscriptions)
]

-- `emit` on the event loop; from another thread, the event loop calls `_publish` later.
unfoldable pub emit : Local → Text → Text → List Named → Dict Text → ℕ → Local
emit l ref event_type results concerning now =
    if l.has_loop then publish l ref event_type results concerning now else l

unfoldable pub detail_reply : Option (List Named × ℕ) → ReturnCode × List Named
detail_reply none = (ReturnCode.bad_parameter, [])
detail_reply (some (results, expires)) = (ReturnCode.ok, results)

-- `event_detail`: with the table behind it, its return code and results
unfoldable pub event_detail : Local → Text → ℕ → Local × (ReturnCode × List Named)
event_detail l event_id now = (
  record l { events = pruned_events now l.events },
  detail_reply (Dict.get event_id (pruned_events now l.events)),
)

unfoldable pub given_values : List Named → Dict Text → Dict Text
given_values [] given = given
given_values (a ∷ arguments) given = given_values arguments (Dict.put a.name a.value given)

-- `subscribe`: an unknown ref is a KeyError, which is not distinguished from ERROR. `is_prepared` says
-- that `rois_subscribed` returned, between the test and what follows.
unfoldable pub may_subscribe : Local → Text → Bool
may_subscribe l ref = elim (Dict.get ref l.hosted) [ none ↦ false | some h ↦ operable h ]

unfoldable pub add_subscription : Local → Text → Text → List Named → ℕ → Local × Text
add_subscription l ref event_type arguments deliver =
    let subscribe_id = new_id l (codes "sub") in
    (
      record l {
        next_id = suc l.next_id;
        subscriptions =
            Dict.put subscribe_id
              (record {
                ref = ref;
                event_type = event_type;
                arguments = given_values arguments [];
                deliver = deliver;
              })
              l.subscriptions;
      },
      subscribe_id,
    )

unfoldable pub subscribe : Local → Text → Text → List Named → ℕ → Bool → Local × Option Text
subscribe l ref event_type arguments deliver is_prepared =
    if may_subscribe l ref && is_prepared
    then (let (l', subscribe_id) = add_subscription l ref event_type arguments deliver in
        (l', some subscribe_id))
    else (l, none)

-- `unsubscribe`
unfoldable pub unsubscribe : Local → Text → Local
unsubscribe l subscribe_id = record l { subscriptions = Dict.pop subscribe_id l.subscriptions }
