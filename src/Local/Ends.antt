-- ===== src/Local/Ends.antt =====
-- local.py: how a command begins and ends, each cut where its task waits. `hosted` is the object of the
-- component, and `results` the table of `LocalComponents`.
use openrois.Common.{
  ℕ, Bool, true, false, not, ◌&&◌, Option, none, some, List, [], ◌∷◌, ◌++◌, if◌then◌else◌,
  get_elem?, keep, Text, codes, text_eq,
}
use openrois.Common.Dict.{Dict}
use openrois.Condition.Parse.{mem_text}
use openrois.Profiles.Status.{CompletedStatus}
use openrois.Profiles.Units.{Named}
use openrois.Local.State.{Start, Hosted}
use openrois.Local.Results.{kept_results}

pub record Work : Type 0 where
  pub results : Dict (List Named)
  pub hosted : Hosted

-- a set of command ids: `add` and `discard`
unfoldable pub with_id : Text → List Text → List Text
with_id id ids = if mem_text id ids then ids else ids ++ id ∷ []

unfoldable pub without_id : Text → List Text → List Text
without_id id ids = keep (λ i. not (text_eq i id)) ids

unfoldable pub keep_nothing : Work → Text → Work
keep_nothing w id = record w { results = kept_results w.results id [] }

-- `_begin`
unfoldable pub begin : Work → Text → Work
begin w id = record w {
  results = kept_results w.results id [];
  hosted = record w.hosted { running = with_id id w.hosted.running };
}

-- The `status` of an exception, by the names of `CompletedStatus`: `none` is another text.
unfoldable pub completed_named : Text → Option CompletedStatus
completed_named t =
    if text_eq t (codes "OK")
    then some CompletedStatus.ok
    else if text_eq t (codes "ERROR")
    then some CompletedStatus.error
    else if text_eq t (codes "ABORT")
    then some CompletedStatus.abort
    else if text_eq t (codes "OUT_OF_RESOURCES")
    then some CompletedStatus.out_of_resources
    else if text_eq t (codes "TIMEOUT")
    then some CompletedStatus.timeout
    else none

unfoldable pub or_error : Option CompletedStatus → CompletedStatus
or_error none = CompletedStatus.error
or_error (some CompletedStatus.ok) = CompletedStatus.error
or_error (some s) = s

-- `_failure_status`, of an exception with a status that is a text, or without one
unfoldable pub failure_status : Option Text → CompletedStatus
failure_status none = CompletedStatus.error
failure_status (some t) = or_error (completed_named t)

-- How the wait for a handler ends: with its results, with an exception, with the cancellation of the
-- handler, or with that of the command itself, which goes on to the caller.
pub data Outcome : Type 0 where
  returned : List Named → Outcome
  failed : Option Text → Outcome
  cancelled aborted : Outcome

unfoldable pub outcome_status : Outcome → Option CompletedStatus
outcome_status (returned values) = some CompletedStatus.ok
outcome_status (failed status) = some (failure_status status)
outcome_status cancelled = some CompletedStatus.abort
outcome_status aborted = none

unfoldable pub abort_if : Bool → Option CompletedStatus → Option CompletedStatus
abort_if is_aborted none = none
abort_if is_aborted (some s) = if is_aborted then some CompletedStatus.abort else some s

unfoldable pub is_completed_ok : Option CompletedStatus → Bool
is_completed_ok (some CompletedStatus.ok) = true
is_completed_ok _ = false

unfoldable pub values_of : Outcome → List Named
values_of (returned values) = values
values_of _ = []

-- whether the start at an address has this command id
unfoldable pub is_named : Text → Option Start → Bool
is_named id none = false
is_named id (some s) = text_eq s.command_id id

unfoldable pub without_start : List Start → Text → Option ℕ → Option ℕ
without_start starts id none = none
without_start starts id (some a) = if is_named id (get_elem? starts a) then none else some a

unfoldable pub is_none : Option ℕ → Bool
is_none none = true
is_none (some a) = false

-- the `finally` of `_end`; `is_start` says whether the command is a start
unfoldable pub ended : Hosted → Text → Bool → Bool → Hosted
ended h id is_start is_ok =
    let start = without_start h.starts id h.start in
    record h {
      running = without_id id h.running;
      aborted = without_id id h.aborted;
      start = start;
      started = if is_start && not is_ok && is_none start then false else h.started;
    }

unfoldable pub end_status : Hosted → Text → Outcome → Option CompletedStatus
end_status h id outcome = abort_if (mem_text id h.aborted) (outcome_status outcome)

-- `_end` from the end of its wait on; the status is `none` where the cancellation goes on.
unfoldable pub end : Work → Text → Bool → Outcome → Work × Option CompletedStatus
end w id is_start outcome =
    let status = end_status w.hosted id outcome in
    (
      record {
        results =
            kept_results w.results id (if is_completed_ok status then values_of outcome else []);
        hosted = ended w.hosted id is_start (is_completed_ok status);
      },
      status,
    )
