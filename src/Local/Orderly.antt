-- ===== src/Local/Orderly.antt =====
-- local.py: every step keeps the commands of a component orderly.
use openrois.Common.{
  ℕ, ◌≡◌, ◌≢◌, refl, sym, ap, ◌∙◌, Bool, true, false, Option, none, some, List, [], ◌∷◌, arith,
  get_elem?, Text, text_eq, text_eq_iff, Bool-cases, inl, inr,
}
use openrois.Condition.Parse.{mem_text}
use openrois.Local.State.{Start, Takeover, Hosted}
use openrois.Local.Commands.{
  begin_start, without_current, time_out_start, with_task, take_turn, pass_turn, finish_handler,
}
use openrois.Local.Suspensions.{
  lift_at, lift, lift_if, begin_stop, begin_suspend, end_suspend, end_resume,
}
use openrois.Local.Ends.{
  Work, begin, Outcome, is_named, without_start, ended, is_completed_ok, end_status, end, is_none,
  keep_nothing,
}
use openrois.Local.Turns.{IsLive, InTurn, task_at}
use openrois.Local.Taking.{
  IsIdle, InTurn-append, InTurn-unawaited, InTurn-drop, InTurn-abort, start-append,
}
use openrois.Local.Turning.{InTurn-begin, InTurn-done, InTurn-end, task_at-some}
use mathlib.Core.Path.{subst}
use openrois.Local.InTurn.{names-with_task}
use openrois.Local.Steps.{
  Step, starts, times_out, takes_turn, passes_turn, finishes, ends_start, runs, stops, suspends,
  ends, ends_suspend, ends_resume, Reach, here, next, AreStarts, IsOrderly,
}

-- what `_lift` leaves as it is
lift_at-IsOrderly :
    (is_start : Text → Bool) (h : Hosted) (b : Bool) (s : Option ℕ)
    → IsOrderly is_start h
    → IsOrderly is_start (lift_at h b s)
unfolding lift_at
lift_at-IsOrderly is_start h b none o = o
lift_at-IsOrderly is_start h b (some s) o = record { turns = o.turns; named = o.named }

-- the end of a command that is no start
without_start-same :
    (is_start : Text → Bool) (h : Hosted) (id : Text)
    → AreStarts is_start h
    → is_start id ≡ false
    → without_start h.starts id h.start ≡ h.start
without_start-same is_start h id named no_start = by_start h.start
  where
    by_name : (a : ℕ) (o : Option Start) → get_elem? h.starts a ≡ o → is_named id o ≡ false
    by_name a none e = unfold is_named in refl
    by_name a (some s) e = elim (Bool-cases (text_eq s.command_id id)) [
      | inl same ↦ absurd (
          ground (arith, ap is_start ((text_eq_iff s.command_id id).0 same), named a s e, no_start))
      | inr other ↦ unfold is_named in other
    ]

    by_start : (o : Option ℕ) → without_start h.starts id o ≡ o
    by_start none = unfold without_start in refl
    by_start (some a) = unfold without_start in rw (by_name a (get_elem? h.starts a) refl) refl

ended-IsOrderly :
    (is_start : Text → Bool) (h : Hosted) (id : Text) (is_ok : Bool)
    → is_start id ≡ false
    → IsOrderly is_start h
    → IsOrderly is_start (ended h id false is_ok)
unfolding ended
ended-IsOrderly is_start h id is_ok no_start o = record {
  turns = rw (without_start-same is_start h id o.named no_start) o.turns;
  named = o.named;
}

begin_start-IsOrderly :
    (is_start : Text → Bool) (w : Work) (id : Text)
    → is_start id ≡ true
    → ((a : ℕ) (s : Start) → get_elem? w.hosted.starts a ≡ some s → s.command_id ≢ id)
    → IsOrderly is_start w.hosted
    → IsOrderly is_start (begin_start w id).hosted
unfolding begin_start
begin_start-IsOrderly is_start w id start_id fresh o = record {
  turns = InTurn-append w.hosted.starts w.hosted.takeover w.hosted.start id fresh o.turns;
  named = λ a s at. elim (start-append w.hosted.starts w.hosted.takeover w.hosted.start id a s at) [
    | inl (new, named) ↦ ap is_start named ∙ start_id
    | inr old ↦ o.named a s old
  ];
}

AreStarts-with_task :
    (is_start : Text → Bool) (c : ℕ) (done : Bool) (h : Hosted)
    → AreStarts is_start h
    → (a : ℕ) (s : Start) → get_elem? (with_task c done h.starts) a ≡ some s
    → is_start s.command_id ≡ true
AreStarts-with_task is_start c done h named a s at =
    let (t, was, same) = names-with_task c done h.starts a s at in
    ap is_start (sym same) ∙ named a t was

take_turn-IsOrderly :
    (is_start : Text → Bool) (w : Work) (t : Takeover) (queue : List Takeover) (id : Text)
    → w.hosted.takeover ≡ t ∷ queue
    → t.is_awaited ≡ true
    → IsIdle w.hosted.starts t.previous
    → IsOrderly is_start w.hosted
    → IsOrderly is_start (take_turn w t.current id queue).0.hosted
unfolding take_turn without_current keep_nothing begin
take_turn-IsOrderly is_start w t queue id first awaited idle o =
    let h = w.hosted in
    let turns = subst (λ q. InTurn h.starts q h.start) first o.turns in
    elim (Bool-cases (mem_text id h.aborted)) [
      | inl is_aborted ↦
          rw is_aborted
            (record { turns = InTurn-abort h.starts queue h.start t idle turns; named = o.named })
      | inr goes_on ↦ rw goes_on (record {
        turns = InTurn-begin h.starts queue h.start t awaited idle turns;
        named = AreStarts-with_task is_start t.current false h o.named;
      })
    ]

begin_suspend-IsOrderly :
    (is_start : Text → Bool) (w : Work) (id : Text)
    → IsOrderly is_start w.hosted
    → IsOrderly is_start (begin_suspend w id).0.hosted
unfolding begin_suspend begin
begin_suspend-IsOrderly is_start w id o = elim (Bool-cases (is_none w.hosted.suspension)) [
  | inl fresh ↦ rw fresh (record { turns = o.turns; named = o.named })
  | inr known ↦ rw known (record { turns = o.turns; named = o.named })
]

-- a command that lifts the suspension at its end, if a test says so
lift_if-IsOrderly :
    (is_start : Text → Bool) (test : Bool) (w : Work)
    → IsOrderly is_start w.hosted
    → IsOrderly is_start (lift_if test w).hosted
unfolding lift_if lift
lift_if-IsOrderly is_start true w o =
    lift_at-IsOrderly is_start w.hosted false w.hosted.suspension o
lift_if-IsOrderly is_start false w o = o

end-IsOrderly :
    (is_start : Text → Bool) (w : Work) (id : Text) (outcome : Outcome)
    → is_start id ≡ false
    → IsOrderly is_start w.hosted
    → IsOrderly is_start (end w id false outcome).0.hosted
unfolding end
end-IsOrderly is_start w id outcome no_start o =
    ended-IsOrderly is_start w.hosted id (is_completed_ok (end_status w.hosted id outcome)) no_start
      o

Step-IsOrderly :
    {is_start : Text → Bool} {w v : Work}
    → Step is_start w v
    → IsOrderly is_start w.hosted
    → IsOrderly is_start v.hosted
unfolding time_out_start without_current keep_nothing pass_turn finish_handler end ended begin
    begin_stop lift end_suspend end_resume
Step-IsOrderly {is_start} {w} (starts id start_id fresh) o =
    begin_start-IsOrderly is_start w id start_id fresh o
Step-IsOrderly {is_start} {w} (times_out a s is_cancelled at waits) o = record {
  turns =
      InTurn-unawaited w.hosted.starts w.hosted.takeover w.hosted.start a
        (task_at-some w.hosted.starts w.hosted.takeover w.hosted.start a s at ∙ waits) o.turns;
  named = o.named;
}
Step-IsOrderly {is_start} {w} (takes_turn t queue s first awaited idle at) o =
    take_turn-IsOrderly is_start w t queue s.command_id first awaited idle o
Step-IsOrderly {is_start} {w} (passes_turn t queue first unheard idle) o = record {
  turns =
      InTurn-drop w.hosted.starts queue w.hosted.start t idle
        (subst (λ q. InTurn w.hosted.starts q w.hosted.start) first o.turns);
  named = o.named;
}
Step-IsOrderly {is_start} {w} (finishes a running) o = record {
  turns = InTurn-done w.hosted.starts w.hosted.takeover w.hosted.start a running o.turns;
  named = AreStarts-with_task is_start a true w.hosted o.named;
}
Step-IsOrderly {is_start} {w} (ends_start a s outcome at done) o = record {
  turns = InTurn-end w.hosted.starts w.hosted.takeover w.hosted.start a s at done o.turns;
  named = o.named;
}
Step-IsOrderly {is_start} {w} (runs id no_start) o = record { turns = o.turns; named = o.named }
Step-IsOrderly {is_start} {w} (stops id no_start) o =
    let lifted =
      lift_at-IsOrderly is_start (record w.hosted { started = false }) true w.hosted.suspension
        (record { turns = o.turns; named = o.named }) in
    record { turns = lifted.turns; named = lifted.named }
Step-IsOrderly {is_start} {w} (suspends id no_start) o = begin_suspend-IsOrderly is_start w id o
Step-IsOrderly {is_start} {w} (ends id outcome no_start) o =
    end-IsOrderly is_start w id outcome no_start o
Step-IsOrderly {is_start} {w} (ends_suspend id outcome fresh s no_start) o =
    lift_if-IsOrderly is_start _ (end w id false outcome).0
      (end-IsOrderly is_start w id outcome no_start o)
Step-IsOrderly {is_start} {w} (ends_resume id outcome no_start) o =
    lift_if-IsOrderly is_start _ (end w id false outcome).0
      (end-IsOrderly is_start w id outcome no_start o)

Reach-IsOrderly :
    {is_start : Text → Bool} {w v : Work}
    → Reach is_start w v
    → IsOrderly is_start w.hosted
    → IsOrderly is_start v.hosted
Reach-IsOrderly here o = o
Reach-IsOrderly (next reached step) o = Step-IsOrderly step (Reach-IsOrderly reached o)

none-IsLive : (a : ℕ) → ¬ (IsLive [] a)
unfolding task_at
none-IsLive a running = ground arith

-- A component that has taken no command is orderly.
none-IsOrderly :
    (is_start : Text → Bool) (h : Hosted) → h.starts ≡ [] → h.takeover ≡ [] → IsOrderly is_start h
none-IsOrderly is_start h no_starts no_queue = record {
  turns = record {
    live = λ a running. absurd (none-IsLive a (subst (λ xs. IsLive xs a) no_starts running));
    line = rw no_queue tt;
    names = λ a b s t at_a at_b same. absurd (ground (arith, no_starts, at_a));
  };
  named = λ a s at. absurd (ground (arith, no_starts, at));
}

-- Whatever commands a component takes, in any order and with any time passing between their steps, the
-- handlers of two starts never run at the same time.
pub Reach-one_start :
    (is_start : Text → Bool) (w v : Work)
    → w.hosted.starts ≡ []
    → w.hosted.takeover ≡ []
    → Reach is_start w v
    → (a b : ℕ) → IsLive v.hosted.starts a
    → IsLive v.hosted.starts b
    → a ≡ b
Reach-one_start is_start w v no_starts no_queue reached a b runs_a runs_b =
    let orderly = Reach-IsOrderly reached (none-IsOrderly is_start w.hosted no_starts no_queue) in
    cc (orderly.turns.live a runs_a, orderly.turns.live b runs_b)
