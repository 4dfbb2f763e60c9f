-- ===== src/Local/Results.antt =====
-- local.py: the results of commands that have ended.
use openrois.Common.{ℕ, Option, none, some, List, [], ◌∷◌, ◌++◌, Text, drop_oldest}
use openrois.Common.Dict
use openrois.Common.Dict.{Dict}
use openrois.Profiles.Status.{ReturnCode}
use openrois.Profiles.Units.{Named}
use openrois.Local.State.{Local}

-- `_RESULTS_KEPT`
abbrev pub results_kept : ℕ
results_kept = 4096

-- `_keep`
unfoldable pub kept_results : Dict (List Named) → Text → List Named → Dict (List Named)
kept_results results command_id values =
    drop_oldest results_kept (Dict.pop command_id results ++ (command_id, values) ∷ [])

unfoldable pub keep_results : Local → Text → List Named → Local
keep_results l command_id values = record l { results = kept_results l.results command_id values }

unfoldable pub result_reply : Option (List Named) → ReturnCode × List Named
result_reply none = (ReturnCode.bad_parameter, [])
result_reply (some values) = (ReturnCode.ok, values)

-- `command_result`: its return code and results
unfoldable pub command_result : Local → Text → ReturnCode × List Named
command_result l command_id = result_reply (Dict.get command_id l.results)
