-- ===== src/Local/Aborted.antt =====
-- local.py: a start that is replaced or stopped stays one to be aborted until it ends.
use openrois.Common.{
  ℕ, ◌≡◌, refl, ap, ◌∙◌, Bool, true, false, Option, none, some, List, get_elem?, if◌then◌else◌,
  Text,
}
use openrois.Profiles.Status.{CompletedStatus}
use openrois.Local.State.{Start, Takeover}
use openrois.Local.Commands.{begin_start, without_current, time_out_start, take_turn}
use openrois.Local.Suspensions.{lift_at, lift, begin_stop}
use openrois.Local.Ends.{
  Work, keep_nothing, begin, Outcome, returned, failed, cancelled, aborted, outcome_status,
  abort_if, end_status, end,
}
use openrois.Local.Aborting.{
  IsAborting, start-lift_at, starts-lift_at, mem_text-aborting, Passes, Passes-IsAborting,
}

-- The status of a command that was aborted: ABORT however its handler ends, unless it is cancelled.
unfoldable pub aborted_status : Outcome → Option CompletedStatus
aborted_status aborted = none
aborted_status _ = some CompletedStatus.abort

-- How a start ends that is to be aborted: with ABORT behind its handler, with ABORT and no handler at
-- its turn, and with TIMEOUT where its time is over before its turn; a cancellation of the command
-- itself goes on to its caller.
pub record EndsAborted (w : Work) (c : ℕ) (id : Text) : Type 0 where
  pub behind_handler : (outcome : Outcome) → (end w id true outcome).1 ≡ aborted_status outcome
  pub at_turn :
      (queue : List Takeover)
      → ((take_turn w c id queue).1 ≡ some CompletedStatus.abort)
        × ((take_turn w c id queue).0.hosted.running ≡ w.hosted.running)
  pub before_turn :
      (is_cancelled : Bool)
      → (time_out_start w c id is_cancelled).1
        ≡ (if is_cancelled then none else some CompletedStatus.timeout)

abort_if-true :
    (outcome : Outcome) → abort_if true (outcome_status outcome) ≡ aborted_status outcome
unfolding abort_if outcome_status aborted_status
abort_if-true (returned values) = refl
abort_if-true (failed status) = refl
abort_if-true cancelled = refl
abort_if-true aborted = refl

IsAborting-EndsAborted :
    (w : Work) (c : ℕ) (id : Text) → IsAborting id w.hosted → EndsAborted w c id
unfolding end end_status take_turn time_out_start keep_nothing without_current
IsAborting-EndsAborted w c id h = record {
  behind_handler = λ outcome. rw h (abort_if-true outcome);
  at_turn = λ queue. rw h (refl, refl);
  before_turn = λ is_cancelled. refl;
}

-- The step at which a start is superseded: a stop arrives, or another start.
pub data Supersedes (w : Work) : Work → Type 0 where
  by_stop : (id : Text) → Supersedes w (begin_stop w id)
  by_start : (id : Text) → Supersedes w (begin_start w id)

Supersedes-IsAborting :
    {w u : Work} (c : ℕ) (s : Start)
    → w.hosted.start ≡ some c
    → get_elem? w.hosted.starts c ≡ some s
    → Supersedes w u
    → IsAborting s.command_id u.hosted
Supersedes-IsAborting {w} c s latest at (by_stop id) =
    unfold begin_stop begin lift in
    mem_text-aborting (lift_at (record w.hosted { started = false }) true w.hosted.suspension) c s
      (start-lift_at _ true w.hosted.suspension ∙ latest)
      (ap (λ starts. get_elem? starts c) (starts-lift_at _ true w.hosted.suspension) ∙ at)
Supersedes-IsAborting {w} c s latest at (by_start id) =
    unfold begin_start in mem_text-aborting w.hosted c s latest at

-- Where a stop or another start arrives, the latest start is one to be aborted until it ends, whatever
-- the commands of the component do till then: it ends with ABORT however its handler ends, with ABORT
-- and without a handler at its turn, with TIMEOUT where its time is over before its turn, and as
-- cancelled where its own command is cancelled.
pub superseded-EndsAborted :
    (is_start : Text → Bool) (w u v : Work) (c : ℕ) (s : Start)
    → w.hosted.start ≡ some c
    → get_elem? w.hosted.starts c ≡ some s
    → is_start s.command_id ≡ true
    → Supersedes w u
    → Passes is_start s.command_id u v
    → EndsAborted v c s.command_id
superseded-EndsAborted is_start w u v c s latest at named arrival later =
    IsAborting-EndsAborted v c s.command_id
      (Passes-IsAborting s.command_id named later (Supersedes-IsAborting c s latest at arrival))
