-- ===== src/Local/Commands.antt =====
-- local.py: the start commands of one component, each cut where its task waits.
use openrois.Common.{
  ℕ, zero, suc, Bool, true, false, Option, none, some, List, [], ◌∷◌, ◌++◌, if◌then◌else◌, ◌==◌,
  length, get_elem?, Text,
}
use openrois.Condition.Parse.{mem_text}
use openrois.Profiles.Status.{CompletedStatus}
use openrois.Local.State.{Start, Takeover, Hosted}
use openrois.Local.Ends.{Work, with_id, without_id, keep_nothing, begin}

-- `hosted.aborted.add(previous.command_id)`, where there is a start before
unfoldable pub aborting_start : List Text → Option Start → List Text
aborting_start ids none = ids
aborting_start ids (some s) = with_id s.command_id ids

unfoldable pub aborting : Hosted → Option ℕ → List Text
aborting h none = h.aborted
aborting h (some a) = aborting_start h.aborted (get_elem? h.starts a)

-- `_start` up to its wait for the takeover, which asks for the lock behind those that asked before.
unfoldable pub begin_start : Work → Text → Work
begin_start w id =
    let h = w.hosted in
    let current = length h.starts in
    record w {
      hosted = record h {
        starts = h.starts ++ record { command_id = id; task = none } ∷ [];
        start = some current;
        started = true;
        aborted = aborting h h.start;
        takeover =
            h.takeover ++ record { current = current; previous = h.start; is_awaited = true } ∷ [];
      };
    }

unfoldable pub is_start_at : ℕ → Option ℕ → Bool
is_start_at a none = false
is_start_at a (some b) = b == a

-- `hosted.start = None` and `hosted.started = False`, if `hosted.start` is the start at `a`
unfoldable pub without_current : Hosted → ℕ → Hosted
without_current h a = record h {
  start = if is_start_at a h.start then none else h.start;
  started = if is_start_at a h.start then false else h.started;
}

unfoldable pub unawaited : ℕ → List Takeover → List Takeover
unawaited a [] = []
unawaited a (t ∷ queue) =
    (if t.current == a then record t { is_awaited = false } else t) ∷ unawaited a queue

-- `_start` where its time is over, or its command is cancelled while it waits: the takeover goes on
-- without it. The status is `none` where the cancellation goes on to the caller.
unfoldable pub time_out_start : Work → ℕ → Text → Bool → Work × Option CompletedStatus
time_out_start w a id is_cancelled =
    let h = w.hosted in
    (
      keep_nothing
          (record w {
            hosted =
                without_current
                  (record h {
                    takeover = unawaited a h.takeover;
                    aborted = without_id id h.aborted;
                  })
                  a;
          })
          id,
      if is_cancelled then none else some CompletedStatus.timeout,
    )

unfoldable pub with_task : ℕ → Bool → List Start → List Start
with_task a done [] = []
with_task zero done (s ∷ starts) = record s { task = some done } ∷ starts
with_task (suc a) done (s ∷ starts) = s ∷ with_task a done starts

-- `_start` behind its takeover, with `queue` behind it: it ends with ABORT, or its handler begins.
unfoldable pub take_turn : Work → ℕ → Text → List Takeover → Work × Option CompletedStatus
take_turn w a id queue =
    let h = w.hosted in
    if mem_text id h.aborted
    then (
      keep_nothing
          (record w {
            hosted =
                without_current (record h { takeover = queue; aborted = without_id id h.aborted })
                  a;
          })
          id,
      some CompletedStatus.abort,
    )
    else (
      begin
          (record w { hosted = record h { takeover = queue; starts = with_task a false h.starts } })
          id,
      none,
    )

-- `_release_after`: a takeover that nobody waits for passes the lock on.
unfoldable pub pass_turn : Work → List Takeover → Work
pass_turn w queue = record w { hosted = record w.hosted { takeover = queue } }

-- the handler of a start is done
unfoldable pub finish_handler : Work → ℕ → Work
finish_handler w a = record w {
  hosted = record w.hosted { starts = with_task a true w.hosted.starts };
}
