-- ===== src/Local/Steps.antt =====
-- local.py: the steps of the commands of one component in any order, and the one start that runs.
use openrois.Common.{ℕ, ◌≡◌, ◌≢◌, Bool, true, false, none, some, List, ◌∷◌, get_elem?, Text}
use openrois.Local.State.{Start, Takeover, Hosted}
use openrois.Local.Commands.{begin_start, time_out_start, take_turn, pass_turn, finish_handler}
use openrois.Local.Suspensions.{begin_stop, begin_suspend, end_suspend, end_resume}
use openrois.Local.Ends.{Work, begin, Outcome, end}
use openrois.Local.Turns.{IsLive, InTurn}
use openrois.Local.Taking.{IsIdle}

-- One step of the commands of a component: a command up to where it waits, or from the end of that
-- wait on. `is_start` says of which ids the commands are starts: an id names one command.
pub data Step (is_start : Text → Bool) (w : Work) : Work → Type 0 where
  starts :
      (id : Text)
      → is_start id ≡ true
      → ((a : ℕ) (s : Start) → get_elem? w.hosted.starts a ≡ some s → s.command_id ≢ id)
      → Step is_start w (begin_start w id)
  times_out :
      (a : ℕ) (s : Start) (is_cancelled : Bool)
      → get_elem? w.hosted.starts a ≡ some s
      → s.task ≡ none
      → Step is_start w (time_out_start w a s.command_id is_cancelled).0
  -- the takeover of the first in the line is done, and its start waits for it,
  takes_turn :
      (t : Takeover) (queue : List Takeover) (s : Start)
      → w.hosted.takeover ≡ t ∷ queue
      → t.is_awaited ≡ true
      → IsIdle w.hosted.starts t.previous
      → get_elem? w.hosted.starts t.current ≡ some s
      → Step is_start w (take_turn w t.current s.command_id queue).0
  -- or does not any more
  passes_turn :
      (t : Takeover) (queue : List Takeover)
      → w.hosted.takeover ≡ t ∷ queue
      → t.is_awaited ≡ false
      → IsIdle w.hosted.starts t.previous
      → Step is_start w (pass_turn w queue)
  finishes : (a : ℕ) → IsLive w.hosted.starts a → Step is_start w (finish_handler w a)
  ends_start :
      (a : ℕ) (s : Start) (outcome : Outcome)
      → get_elem? w.hosted.starts a ≡ some s
      → s.task ≡ some true
      → Step is_start w (end w s.command_id true outcome).0
  -- the other commands
  runs : (id : Text) → is_start id ≡ false → Step is_start w (begin w id)
  stops : (id : Text) → is_start id ≡ false → Step is_start w (begin_stop w id)
  suspends : (id : Text) → is_start id ≡ false → Step is_start w (begin_suspend w id).0
  ends :
      (id : Text) (outcome : Outcome)
      → is_start id ≡ false
      → Step is_start w (end w id false outcome).0
  ends_suspend :
      (id : Text) (outcome : Outcome) (fresh : Bool) (s : ℕ)
      → is_start id ≡ false
      → Step is_start w (end_suspend w id outcome fresh s).0
  ends_resume :
      (id : Text) (outcome : Outcome)
      → is_start id ≡ false
      → Step is_start w (end_resume w id outcome).0

pub data Reach (is_start : Text → Bool) (w : Work) : Work → Type 0 where
  here : Reach is_start w w
  next : {u v : Work} → Reach is_start w u → Step is_start u v → Reach is_start w v

abbrev pub TakesTurns : Hosted → Type 0
TakesTurns h = InTurn h.starts h.takeover h.start

-- the ids of the starts are those of starts
abbrev pub AreStarts : (Text → Bool) → Hosted → Type 0
AreStarts is_start h =
    (a : ℕ) (s : Start) → get_elem? h.starts a ≡ some s → is_start s.command_id ≡ true

pub record IsOrderly (is_start : Text → Bool) (h : Hosted) : Type 0 where
  pub turns : TakesTurns h
  pub named : AreStarts is_start h
