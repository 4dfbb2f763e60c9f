-- ===== src/Local/Suspensions.antt =====
-- local.py: `_stop`, `_suspend` and `_resume`, each cut where its task waits.
use openrois.Common.{
  ℕ, zero, suc, Bool, true, false, not, ◌&&◌, Option, none, some, List, [], ◌∷◌, ◌++◌,
  if◌then◌else◌, length, Text,
}
use openrois.Profiles.Status.{CompletedStatus}
use openrois.Local.State.{Suspension, Hosted}
use openrois.Local.Ends.{Work, begin, Outcome, is_completed_ok, is_none, end}
use openrois.Local.Commands.{aborting, is_start_at}

-- `_lift`
unfoldable pub lifted : ℕ → Bool → List Suspension → List Suspension
lifted s is_aborted [] = []
lifted zero is_aborted (x ∷ suspensions) =
    record { released = true; aborted = is_aborted } ∷ suspensions
lifted (suc s) is_aborted (x ∷ suspensions) = x ∷ lifted s is_aborted suspensions

unfoldable pub lift_at : Hosted → Bool → Option ℕ → Hosted
lift_at h is_aborted none = h
lift_at h is_aborted (some s) = record h {
  suspensions = lifted s is_aborted h.suspensions;
  suspension = none;
}

unfoldable pub lift : Hosted → Bool → Hosted
lift h is_aborted = lift_at h is_aborted h.suspension

-- `_stop` up to its wait; the start it cancels ends in a step of its own
unfoldable pub begin_stop : Work → Text → Work
begin_stop w id =
    let h = lift (record w.hosted { started = false }) true in
    begin (record w { hosted = record h { aborted = aborting h h.start } }) id

-- `_suspend` up to its wait, and whether the suspension is its own
unfoldable pub begin_suspend : Work → Text → Work × Bool
begin_suspend w id =
    let h = w.hosted in
    if is_none h.suspension
    then (
      begin
          (record w {
            hosted = record h {
              suspensions = h.suspensions ++ record { released = false; aborted = false } ∷ [];
              suspension = some (length h.suspensions);
            };
          })
          id,
      true,
    )
    else (begin w id, false)

unfoldable pub lift_if : Bool → Work → Work
lift_if true w = record w { hosted = lift w.hosted false }
lift_if false w = w

-- `_suspend` from the end of its handler on, for the suspension `s`
unfoldable pub end_suspend : Work → Text → Outcome → Bool → ℕ → Work × Option CompletedStatus
end_suspend w id outcome fresh s =
    let (w', status) = end w id false outcome in
    (
      lift_if (not (is_completed_ok status) && fresh && is_start_at s w'.hosted.suspension) w',
      status,
    )

-- `_resume` from the end of its handler on
unfoldable pub end_resume : Work → Text → Outcome → Work × Option CompletedStatus
end_resume w id outcome =
    let (w', status) = end w id false outcome in (lift_if (is_completed_ok status) w', status)
