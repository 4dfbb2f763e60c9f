-- ===== src/Local/Bindings.antt =====
-- local.py: what components and resources call on the engine, on its event loop, and the queries that
-- the engine passes on to a component. `none` is the ValueError of `_check_raisable`.
use openrois.Common.{
  ℕ, zero, not, Option, none, some, List, [], ◌∷◌, if◌then◌else◌, Text, codes, text_eq,
}
use openrois.Profiles.Status.{ComponentStatus, ReturnCode, ErrorType}
use openrois.Profiles.Units.{Named}
use openrois.Values.Types.{status_name}
use openrois.Local.State.{Hosted, Local}
use openrois.Local.Statuses.{
  is_raisable, status_of, operable, raise_component, clear_component, raise_resource,
  clear_resource, raise_engine,
}

-- `_Binding.raise_status` and `_Binding.clear_status`
unfoldable pub component_raises : Local → Text → ComponentStatus → Text → ℕ → Option Local
component_raises l ref status message now =
    if is_raisable status
    then some (raise_component l ref zero status message ErrorType.component_internal_error now)
    else none

unfoldable pub component_clears : Local → Text → Local
component_clears l ref = clear_component l ref zero

-- `_ResourceBinding.raise_status` and `_ResourceBinding.clear_status`
unfoldable pub resource_raises : Local → ℕ → ComponentStatus → Text → ℕ → Option Local
resource_raises l resource status message now =
    if is_raisable status then some (raise_resource l resource status message now) else none

unfoldable pub resource_clears : Local → ℕ → Local
resource_clears l resource = clear_resource l resource

-- `raise_engine_status`
unfoldable pub raise_engine_status : Local → ComponentStatus → Text → ℕ → Option Local
raise_engine_status l status message now =
    if is_raisable status then some (raise_engine l status message now) else none

unfoldable pub query_reply_of : Option (List Named) → ReturnCode × List Named
query_reply_of none = (ReturnCode.error, [])
query_reply_of (some results) = (ReturnCode.ok, results)

-- `query`, where `answered` has what `rois_query` returned, or `none` where it raised
unfoldable pub query : Hosted → Text → Option (List Named) → ReturnCode × List Named
query h query_type answered =
    if text_eq query_type (codes "component_status")
    then (
      ReturnCode.ok,
      record {
        name = codes "status";
        data_type_ref = codes "Component_Status";
        value = status_name (status_of h);
      }
          ∷ [],
    )
    else if not (operable h)
    then (ReturnCode.error, [])
    else query_reply_of answered
