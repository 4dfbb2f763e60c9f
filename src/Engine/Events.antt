-- ===== src/Engine/Events.antt =====
-- engine.py: the subscriptions. `_subscribe`, `_unsubscribe`, the end of a session's subscriptions and
-- the sessions that an error concerns.
use openrois.Common.{
  ℕ, Bool, ◌&&◌, ◌||◌, Option, none, some, List, [], ◌∷◌, ◌++◌, if◌then◌else◌, any, Text, text_eq,
}
use openrois.Common.Dict
use openrois.Common.Dict.{Dict}
use openrois.Condition.Parse.{mem_text}
use openrois.Profiles.Status.{ErrorType}
use openrois.Engine.State.{
  SourceId, Source, Subscription, Notification, notify_error, notify_event, profile_changed, Engine,
}
use openrois.Engine.Routes.{engine_ids_are_free}
use openrois.Engine.Binds.{holders, is_empty, is_trusted}
use openrois.Engine.Commands.{notify, is_connected, is_served}

-- `entry.key == key`, of a subscription of the session
unfoldable pub is_repeated : Text → Text → Text → Subscription → Bool
is_repeated session_id event_type condition s =
    text_eq s.session_id session_id
    && text_eq s.event_type event_type
    && text_eq s.condition condition

unfoldable pub find_repeated : Text → Text → Text → Dict Subscription → Option Text
find_repeated session_id event_type condition [] = none
find_repeated session_id event_type condition ((subscribe_id, s) ∷ subscriptions) =
    if is_repeated session_id event_type condition s
    then some subscribe_id
    else find_repeated session_id event_type condition subscriptions

-- `_subscribe` up to the call of the source: the id of a subscription that is there already. A
-- trusted session always makes a new one.
unfoldable pub known_subscription : Engine → Text → Text → Text → Option Text
known_subscription e session_id event_type condition =
    if is_trusted e session_id
    then none
    else find_repeated session_id event_type condition e.subscriptions

-- `_subscribe` from the OK of the source on
unfoldable pub add_subscription : Engine → Text → SourceId → Text → Text → Text → Text → Engine
add_subscription e session_id source ref event_type condition subscribe_id = record e {
  subscriptions =
      Dict.put subscribe_id
        (record {
          session_id = session_id;
          source = source;
          ref = ref;
          event_type = event_type;
          condition = condition;
        })
        e.subscriptions;
}

-- `_unsubscribe` up to its answer: the source that is asked to end the subscription, if one is.
unfoldable pub unsubscribe : Engine → Text → Text → Engine × Option SourceId
unsubscribe e session_id subscribe_id = elim (Dict.get subscribe_id e.subscriptions) [
  | none ↦ (e, none)
  | some s ↦
      if text_eq s.session_id session_id
      then (record e { subscriptions = Dict.pop subscribe_id e.subscriptions }, some s.source)
      else (e, none)
]

-- `mine` of `_end_session`: the ids of the session's subscriptions
unfoldable pub subscriptions_of : Text → Dict Subscription → List Text
subscriptions_of session_id [] = []
subscriptions_of session_id ((subscribe_id, s) ∷ subscriptions) =
    if text_eq s.session_id session_id
    then subscribe_id ∷ subscriptions_of session_id subscriptions
    else subscriptions_of session_id subscriptions

-- One round of the loop over `mine`, up to where it waits for the source: `none` is the KeyError of
-- `pop` on an id that is not there.
unfoldable pub end_subscription : Engine → Text → Option (Engine × SourceId)
end_subscription e subscribe_id = elim (Dict.get subscribe_id e.subscriptions) [
  | none ↦ none
  | some s ↦ some (record e { subscriptions = Dict.pop subscribe_id e.subscriptions }, s.source)
]

-- The whole loop, when nothing else changes the subscriptions while it waits.
unfoldable pub end_subscriptions : Engine → List Text → Option Engine
end_subscriptions e [] = some e
end_subscriptions e (subscribe_id ∷ mine) = elim (end_subscription e subscribe_id) [
  | none ↦ none
  | some (e', source) ↦ end_subscriptions e' mine
]

-- `_deliverer`: an event of a subscription to the session that holds it
unfoldable pub deliver : Engine → Text → Text → Text → Engine
deliver e session_id event_id subscribe_id =
    if is_served e session_id then notify e session_id (notify_event event_id subscribe_id) else e

-- `session.id in subscribed`
unfoldable pub is_subscribed : Text → Text → Dict Subscription → Bool
is_subscribed session_id ref subscriptions =
    any (λ (i, s). text_eq s.ref ref && text_eq s.session_id session_id) subscriptions

-- the test of `_notify_error` of one session
unfoldable pub is_concerned : Engine → Text → Text → Bool
is_concerned e ref session_id =
    is_connected e session_id
    && (is_empty ref
        || is_trusted e session_id
        || mem_text session_id (holders e ref)
        || is_subscribed session_id ref e.subscriptions)

-- one notification to each session of a list that passes a test
unfoldable pub notify_each : Engine → (Text → Bool) → Notification → List Text → Engine
notify_each e test n [] = e
notify_each e test n (session_id ∷ sessions) =
    notify_each (if test session_id then notify e session_id n else e) test n sessions

-- `_notify_error`
unfoldable pub raise_error : Engine → Text → Text → ErrorType → Engine
raise_error e ref error_id error_type =
    notify_each e (is_concerned e ref) (notify_error error_id error_type) e.sessions

-- `profile_changed`
unfoldable pub announce_profile : Engine → Engine
announce_profile e = notify_each e (is_connected e) profile_changed e.sessions

-- `add_child`: `none` is the ValueError of `check_engine_ids`.
unfoldable pub add_child : Engine → ℕ → Source → Option Engine
add_child e k s =
    if engine_ids_are_free e none s.engine_ids
    then some (announce_profile (record e { children = e.children ++ (k, s) ∷ [] }))
    else none
