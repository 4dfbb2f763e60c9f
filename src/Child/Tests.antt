-- ===== src/Child/Tests.antt =====
-- child.py: the theorems at one child engine with an engine below it, and at one request.
use openrois.Common.{
  ◌≡◌, refl, Bool, true, none, List, [], ◌∷◌, All, Text, codes, text_eq, ok, any, keep, false, some,
  ◌++◌, length, ◌≤◌, arith,
}
use openrois.Common.Dict
use openrois.Common.Dict.{Dict}
use openrois.Condition.Parse.{mem_text}
use openrois.Profiles.Units.{ComponentProfile, EngineProfile, engine, nil, cons}
use openrois.Engine.Routes.{before_slash}
use openrois.Engine.Binds.{is_empty}
use openrois.Profiles.Status.{ReturnCode}
use openrois.Child.Pending.{
  Calls, new_calls, request_at, begin_request, handle_reply, seen, time_out, late_kept, begins,
  here, next,
}
use openrois.Child.Late.{handle_reply-once}
use openrois.Child.Reached.{Reach-late}
use openrois.Child.Discovery.{
  Discovered, engine_ids_of, engine_ids_below, is_valid_id, count, check_ids, is_owned, collect,
  apply_profile,
}
use openrois.Child.Owned.{IsOnce, IsOwned, apply_profile-IsOwned}

abbrev door : ComponentProfile
door = record {
  identifier = record { authority = []; code = codes "Door" };
  name = codes "Door";
  function = none;
  sub_component_profiles = [];
  command_profiles = [];
  query_profiles = [];
  event_profiles = [];
  parameter_profiles = [];
}

abbrev house : EngineProfile
house =
    engine (codes "house") (cons (engine (codes "hall") nil (codes "hall/door" ∷ [])) nil)
      (codes "hall/door" ∷ [])

abbrev sent : Dict ComponentProfile
sent = (codes "hall/door", door) ∷ []

abbrev is_any : List Text → Bool
is_any engine_ids = true

abbrev house_found : Discovered
house_found = record {
  profile = house;
  profiles = sent;
  engine_ids = codes "house" ∷ codes "hall" ∷ [];
}

house_applies : apply_profile is_any house sent ≡ ok house_found
unfolding apply_profile check_ids collect engine_ids_of engine_ids_below is_valid_id count is_owned
    keep any is_empty mem_text before_slash text_eq Dict.get Dict.put
house_applies = refl

apply_profile-IsOwned_example :
    All (IsOnce house_found.engine_ids) house_found.engine_ids
    × All (IsOwned house_found.engine_ids) (Dict.keys house_found.profiles)
apply_profile-IsOwned_example = apply_profile-IsOwned is_any house sent house_found house_applies

-- a request that waits
abbrev waiting : Calls
waiting = record {
  is_open = true;
  next_id = 3;
  pending = (3, record { is_done = false }) ∷ [];
  late = [];
  answers = [];
  late_hooks = [];
}

waits : request_at 3 waiting.pending ≡ some (record { is_done = false })
unfolding request_at
waits = refl

handle_reply-once_example :
    ((handle_reply waiting 3 false ReturnCode.ok).answers
      ≡ [] ++ (3, seen false ReturnCode.ok) ∷ [])
    × ((handle_reply (handle_reply waiting 3 false ReturnCode.ok) 3 true ReturnCode.timeout).answers
        ≡ (handle_reply waiting 3 false ReturnCode.ok).answers)
handle_reply-once_example =
    handle_reply-once waiting 3 false true ReturnCode.ok ReturnCode.timeout
      (record { is_done = false }) waits

-- one request begins, and its time is over; another one begins then
abbrev asked : Calls
asked = (begin_request new_calls).0

abbrev asked_again : Calls
asked_again = (begin_request (time_out asked 1 (some 1)).0).0

given_out : 1 ≤ asked.next_id
unfolding begin_request
given_out = omega arith

Reach-late_example :
    (length asked.late ≤ late_kept)
    × (length asked_again.late ≤ late_kept)
    × ((handle_reply asked_again 1 true ReturnCode.ok).answers ≡ asked_again.answers)
Reach-late_example =
    Reach-late asked asked_again 1 (some 1) true ReturnCode.ok (next here begins) given_out
      (next here begins)
