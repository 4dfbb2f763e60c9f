-- ===== src/Local/Hosting.antt =====
-- local.py: hosting components, and opening and closing what they use. Whether a call of `open` of a
-- resource succeeds is an argument, of the resource and of the calls before: a second call may end
-- otherwise. Whether a component connects is one too.
use openrois.Common.{
  ℕ, Bool, true, false, ◌&&◌, ◌||◌, Option, none, some, List, [], ◌∷◌, ◌++◌, if◌then◌else◌, ◌==◌,
  any, Text, codes,
}
use openrois.Common.Dict
use openrois.Common.Dict.{Dict}
use openrois.Condition.Parse.{mem_text}
use openrois.Engine.Binds.{is_empty}
use openrois.Profiles.Units.{Named, ParameterProfile, ComponentProfile}
use openrois.Local.State.{Lifecycle, Hosted, Local}
use openrois.Local.Statuses.{is_lifecycle_ready}
use openrois.Local.Suspensions.{lift}

abbrev pub rois_common_urn : Text
rois_common_urn = codes "urn:x-rois:def:Component:OMG::RoISCommon"

unfoldable pub or_empty : Option Text → Text
or_empty none = []
or_empty (some t) = t

-- the parameters of a profile with their default values
unfoldable pub default_parameters : List ParameterProfile → Dict Named → Dict Named
default_parameters [] parameters = parameters
default_parameters (p ∷ profiles) parameters = default_parameters profiles (
    Dict.put p.name
      (record { name = p.name; data_type_ref = p.data_type_ref; value = or_empty p.default_value })
      parameters)

unfoldable pub is_known_resource : ℕ → List ℕ → Bool
is_known_resource r resources = any (λ known. known == r) resources

unfoldable pub add_resources : List ℕ → List ℕ → List ℕ
add_resources known [] = known
add_resources known (r ∷ resources) =
    add_resources (if is_known_resource r known then known else known ++ r ∷ []) resources

unfoldable pub hosted_of : Text → Text → ComponentProfile → List ℕ → Hosted
hosted_of name ref profile resources = record {
  name = name;
  ref = ref;
  profile = record profile { name = name };
  parameters = default_parameters profile.parameter_profiles [];
  resources = resources;
  state = Lifecycle.uninitialized;
  raised = [];
  running = [];
  starts = [];
  start = none;
  aborted = [];
  takeover = [];
  rois_common = mem_text rois_common_urn profile.sub_component_profiles;
  started = false;
  suspensions = [];
  suspension = none;
}

unfoldable pub is_hosted : Option Hosted → Bool
is_hosted none = false
is_hosted (some h) = true

-- `add`: the ref, or `none` for its ValueError
unfoldable pub add : Local → Text → ComponentProfile → List ℕ → Option (Local × Text)
add l name profile resources =
    let ref = l.engine_id ++ (codes "/" ++ name) in
    if is_empty name || any (λ c. c == b'/') name || is_hosted (Dict.get ref l.hosted)
    then none
    else some (
      record l {
        hosted = Dict.put ref (hosted_of name ref profile resources) l.hosted;
        resources = add_resources l.resources resources;
      },
      ref,
    )

-- `failed` and `_opened` in `start`, and the resources on which it called `open`, oldest first
pub record Opening : Type 0 where
  pub opened : List ℕ
  pub failed : List ℕ
  pub tried : List ℕ

-- a call of `open`
unfoldable pub try_open : Opening → ℕ → Bool → Opening
try_open o r true = record o { opened = o.opened ++ r ∷ []; tried = o.tried ++ r ∷ [] }
try_open o r false = record o { failed = o.failed ++ r ∷ []; tried = o.tried ++ r ∷ [] }

module _ (opens : List ℕ → ℕ → Bool) where
  -- the loop over the resources of a component, and whether it is usable
  unfoldable pub open_resources : Opening → List ℕ → Bool → Opening × Bool
  open_resources o [] usable = (o, usable)
  open_resources o (r ∷ resources) usable =
      let is_failed = open_resources o resources false in
      let is_open = open_resources o resources usable in
      let opens_now = opens o.tried r in
      let tries = open_resources (try_open o r opens_now) resources (usable && opens_now) in
      if is_known_resource r o.failed
      then is_failed
      else if is_known_resource r o.opened
      then is_open
      else tries

unfoldable pub connected_state : Bool → Lifecycle
connected_state is_connected = if is_connected then Lifecycle.ready else Lifecycle.failed

module _ (opens : List ℕ → ℕ → Bool) (connects : Text → Bool) where
  -- the loop over the components
  unfoldable pub start_each : Opening → Dict Hosted → Opening × Dict Hosted
  start_each o [] = (o, [])
  start_each o ((ref, h) ∷ hosted) =
      let (o', usable) = open_resources opens o h.resources true in
      let (o'', others) = start_each o' hosted in
      (o'', (ref, record h { state = connected_state (usable && connects ref) }) ∷ others)

  -- `start`, with the resources that it tried to open
  unfoldable pub start : Local → Local × List ℕ
  start l =
      let (o, hosted) =
        start_each (record { opened = l.opened; failed = []; tried = [] }) l.hosted in
      (record l { has_loop = true; hosted = hosted; opened = o.opened }, o.tried)

-- `stop`, once the tasks it cancels are done: the refs that it disconnects and the resources that it
-- closes, in order
unfoldable pub stopped : Hosted → Hosted
stopped h = lift (record h { state = Lifecycle.uninitialized; started = false }) true

unfoldable pub stop_each : Dict Hosted → Dict Hosted
stop_each [] = []
stop_each ((ref, h) ∷ hosted) = (ref, stopped h) ∷ stop_each hosted

unfoldable pub connected_refs : Dict Hosted → List Text
connected_refs [] = []
connected_refs ((ref, h) ∷ hosted) =
    if is_lifecycle_ready h.state then ref ∷ connected_refs hosted else connected_refs hosted

unfoldable pub reversed : List ℕ → List ℕ
reversed [] = []
reversed (r ∷ resources) = reversed resources ++ r ∷ []

unfoldable pub stop : Local → Local × (List Text × List ℕ)
stop l = (
  record l { hosted = stop_each l.hosted; opened = []; subscriptions = [] },
  (connected_refs l.hosted, reversed l.opened),
)
