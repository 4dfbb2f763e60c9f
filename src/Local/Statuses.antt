-- ===== src/Local/Statuses.antt =====
-- local.py: the statuses that components, resources and the engine raise, and the errors they cause.
use openrois.Common.{
  ℕ, suc, Bool, true, false, not, ◌&&◌, Option, none, some, List, [], ◌∷◌, ◌++◌, if◌then◌else◌, any,
  ◌==◌, Text, codes,
}
use openrois.Common.Dict
use openrois.Common.Dict.{Dict}
use openrois.Common.Table.{Table, find, write, erase}
use openrois.Profiles.Status.{ComponentStatus, ReturnCode, ErrorType}
use openrois.Local.State.{Lifecycle, Raised, Error, Hosted, Local, new_id}

unfoldable pub is_error : ComponentStatus → Bool
is_error ComponentStatus.error = true
is_error _ = false

unfoldable pub is_warning : ComponentStatus → Bool
is_warning ComponentStatus.warning = true
is_warning _ = false

unfoldable pub same_status : ComponentStatus → ComponentStatus → Bool
same_status ComponentStatus.uninitialized ComponentStatus.uninitialized = true
same_status ComponentStatus.ready ComponentStatus.ready = true
same_status ComponentStatus.busy ComponentStatus.busy = true
same_status ComponentStatus.warning ComponentStatus.warning = true
same_status ComponentStatus.error ComponentStatus.error = true
same_status _ _ = false

-- `_RAISABLE` and `_check_raisable`: whether it raises no ValueError
unfoldable pub is_raisable : ComponentStatus → Bool
is_raisable ComponentStatus.warning = true
is_raisable ComponentStatus.error = true
is_raisable _ = false

-- `_strongest`
unfoldable pub has_error : Table Raised → Bool
has_error raised = any (λ (k, r). is_error r.status) raised

unfoldable pub has_warning : Table Raised → Bool
has_warning raised = any (λ (k, r). is_warning r.status) raised

unfoldable pub strongest : Table Raised → Option ComponentStatus
strongest raised =
    if has_error raised
    then some ComponentStatus.error
    else if has_warning raised
    then some ComponentStatus.warning
    else none

-- the lifecycle of a component that raised no status, and of one that failed
unfoldable pub lifecycle_status : Lifecycle → ComponentStatus
lifecycle_status Lifecycle.uninitialized = ComponentStatus.uninitialized
lifecycle_status Lifecycle.ready = ComponentStatus.ready
lifecycle_status Lifecycle.failed = ComponentStatus.error

unfoldable pub above_lifecycle : Lifecycle → Option ComponentStatus → ComponentStatus
above_lifecycle Lifecycle.failed raised = ComponentStatus.error
above_lifecycle state (some s) = s
above_lifecycle state none = lifecycle_status state

-- `status`
unfoldable pub status_of : Hosted → ComponentStatus
status_of h = above_lifecycle h.state (strongest h.raised)

unfoldable pub is_lifecycle_ready : Lifecycle → Bool
is_lifecycle_ready Lifecycle.ready = true
is_lifecycle_ready _ = false

-- `_operable`
unfoldable pub operable : Hosted → Bool
operable h = is_lifecycle_ready h.state && not (has_error h.raised)

unfoldable pub engine_status_of : Option Raised → ComponentStatus
engine_status_of none = ComponentStatus.ready
engine_status_of (some r) = r.status

-- `engine_status`
unfoldable pub engine_status : Local → ComponentStatus
engine_status l = engine_status_of l.engine_raised

unfoldable pub errors_of : Option Raised → List Text
errors_of none = []
errors_of (some r) = r.errors

-- `_raise` of a status that a source records, with the errors it caused before
unfoldable pub recorded : Hosted → ℕ → ComponentStatus → Text → List Text → Hosted
recorded h key status message errors = record h {
  raised = write key (record { status = status; message = message; errors = errors }) h.raised;
}

-- the report of an error, where `on_error` was given a callback
unfoldable pub report : Local → Text → Text → ErrorType → Local
report l ref error_id error_type =
    if l.has_on_error
    then record l { reported = l.reported ++ (ref, error_id, error_type) ∷ [] }
    else l

unfoldable pub keep_error : Local → Text → Error → Local
keep_error l error_id error = record l {
  errors = Dict.put error_id error l.errors;
  next_id = suc l.next_id;
}

unfoldable pub put_hosted : Local → Text → Hosted → Local
put_hosted l ref h = record l { hosted = Dict.put ref h l.hosted }

-- `_raise`
unfoldable pub raise_hosted :
    Local → Text → Hosted → ℕ → ComponentStatus → Text → ErrorType → ℕ → Local
raise_hosted l ref h key status message error_type now =
    let before = errors_of (find key h.raised) in
    let error_id = new_id l (codes "err") in
    if same_status (status_of (recorded h key status message before)) (status_of h)
    then put_hosted l ref (recorded h key status message before)
    else report
        (keep_error (put_hosted l ref (recorded h key status message (before ++ error_id ∷ [])))
          error_id (record { ref = ref; status = status; message = message; time = now }))
        ref error_id error_type

-- `raise_component_status`: an unknown ref is a KeyError, which leaves everything as it was.
unfoldable pub raise_component : Local → Text → ℕ → ComponentStatus → Text → ErrorType → ℕ → Local
raise_component l ref key status message error_type now = elim (Dict.get ref l.hosted) [
  | none ↦ l
  | some h ↦ raise_hosted l ref h key status message error_type now
]

-- `_clear`
unfoldable pub clear_hosted : Local → Text → Hosted → ℕ → Local
clear_hosted l ref h key = record l {
  hosted = Dict.put ref (record h { raised = erase key h.raised }) l.hosted;
  errors = Dict.pop_all (errors_of (find key h.raised)) l.errors;
}

-- `clear_component_status`
unfoldable pub clear_component : Local → Text → ℕ → Local
clear_component l ref key = elim (Dict.get ref l.hosted) [
  | none ↦ l
  | some h ↦ clear_hosted l ref h key
]

-- `_users_of`: the refs of the components that use a resource
unfoldable pub users_of : ℕ → Dict Hosted → List Text
users_of resource [] = []
users_of resource ((ref, h) ∷ hosted) =
    if any (λ r. r == resource) h.resources
    then ref ∷ users_of resource hosted
    else users_of resource hosted

unfoldable pub raise_each : Local → List Text → ℕ → ComponentStatus → Text → ℕ → Local
raise_each l [] resource status message now = l
raise_each l (ref ∷ refs) resource status message now =
    raise_each
      (raise_component l ref (suc resource) status message ErrorType.component_not_responding now)
      refs resource status message now

-- `raise_resource_status`
unfoldable pub raise_resource : Local → ℕ → ComponentStatus → Text → ℕ → Local
raise_resource l resource status message now =
    raise_each l (users_of resource l.hosted) resource status message now

unfoldable pub clear_each : Local → List Text → ℕ → Local
clear_each l [] resource = l
clear_each l (ref ∷ refs) resource = clear_each (clear_component l ref (suc resource)) refs resource

-- `clear_resource_status`
unfoldable pub clear_resource : Local → ℕ → Local
clear_resource l resource = clear_each l (users_of resource l.hosted) resource

-- `_raise_engine`
unfoldable pub is_raised : ComponentStatus → Option Raised → Bool
is_raised status none = false
is_raised status (some r) = same_status r.status status

unfoldable pub raise_engine : Local → ComponentStatus → Text → ℕ → Local
raise_engine l status message now =
    let before = errors_of l.engine_raised in
    let error_id = new_id l (codes "err") in
    if is_raised status l.engine_raised
    then record l {
      engine_raised = some (record { status = status; message = message; errors = before });
    }
    else report
        (keep_error
          (record l {
            engine_raised =
                some
                  (record { status = status; message = message; errors = before ++ error_id ∷ [] });
          })
          error_id (record { ref = []; status = status; message = message; time = now }))
        [] error_id ErrorType.engine_internal_error

-- `_clear_engine`
unfoldable pub clear_engine : Local → Local
clear_engine l = record l {
  engine_raised = none;
  errors = Dict.pop_all (errors_of l.engine_raised) l.errors;
}

unfoldable pub error_reply : Option Error → ReturnCode × Option Error
error_reply none = (ReturnCode.bad_parameter, none)
error_reply (some error) = (ReturnCode.ok, some error)

-- `error_detail`: its return code, and the error where that is OK
unfoldable pub error_detail : Local → Text → ReturnCode × Option Error
error_detail l error_id = error_reply (Dict.get error_id l.errors)
