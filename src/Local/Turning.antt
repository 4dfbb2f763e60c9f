-- ===== src/Local/Turning.antt =====
-- local.py: a handler that begins behind its takeover, and one that is done, keep the starts in turn.
use openrois.Common.{
  ℕ, ◌≡◌, refl, sym, ap, ◌∙◌, Bool, true, false, Option, none, some, List, ◌∷◌, arith,
  if◌then◌else◌, ◌==◌, ==_iff, get_elem?, All, text_eq, text_eq_iff, Bool-cases, inl, inr,
}
use openrois.Local.State.{Start, Takeover}
use openrois.Local.Commands.{with_task}
use openrois.Local.Ends.{is_named, without_start}
use openrois.Local.Turns.{
  task_at, IsLive, owner, AreInLine, HaveNames, InTurn, All-map, AreInLine-starts, AreInLine-start,
  not_begun-All, owner-start,
}
use openrois.Local.InTurn.{length-with_task, task_at-with_task, task_at-done, names-with_task}
use openrois.Local.Taking.{IsIdle, tasks-other, live-other, later-other}

not_equal : (a b : ℕ) → b == a ≡ false → a == b ≡ false
not_equal a b other = ground arith

module _ (starts : List Start) (queue : List Takeover) (start : Option ℕ) where
  names-after : (c : ℕ) (done : Bool) → HaveNames starts → HaveNames (with_task c done starts)
  names-after c done names a b s t at_a at_b same =
      let (s', was_a, name_a) = names-with_task c done starts a s at_a in
      let (t', was_b, name_b) = names-with_task c done starts b t at_b in
      names a b s' t' was_a was_b (name_a ∙ same ∙ sym name_b)

  IsLive-with_task :
      (c : ℕ) (done : Bool) (a : ℕ)
      → a == c ≡ false
      → IsLive (with_task c done starts) a
      → IsLive starts a
  IsLive-with_task c done a other running =
      sym (task_at-with_task c done starts a (ground (arith, other))) ∙ running

  line-after :
      (c : ℕ) (done : Bool)
      → All (λ (u : Takeover). u.is_awaited ≡ true → u.current == c ≡ false) queue
      → AreInLine starts queue start
      → AreInLine (with_task c done starts) queue start
  line-after c done others line =
      AreInLine-starts starts (with_task c done starts) queue start (length-with_task c done starts)
        (All-map
          (λ u other w waits.
            task_at-with_task c done starts u.current (ground (arith, other w)) ∙ waits)
          queue others)
        line

  -- or its handler begins: it is the owner then.
  pub InTurn-begin :
      (t : Takeover)
      → t.is_awaited ≡ true
      → IsIdle starts t.previous
      → InTurn starts (t ∷ queue) start
      → InTurn (with_task t.current false starts) queue start
  unfolding owner
  InTurn-begin t awaited idle turn = record {
    live = λ a running. elim (Bool-cases (a == t.current)) [
      | inl same ↦ turn.line.0.halted_next awaited ∙ ap some (sym ((==_iff a t.current).0 same))
      | inr other ↦
          let before = IsLive-with_task t.current false a other running in
          absurd (idle a (turn.live a before) before)
    ];
    line =
        line-after t.current false
          (All-map (λ u less w. later-other starts queue start t.current u less) queue
            turn.line.0.is_earlier)
          turn.line.1;
    names = names-after t.current false turn.names;
  }

  -- A handler that is done leaves the others as they are.
  pub InTurn-done :
      (a : ℕ)
      → IsLive starts a
      → InTurn starts queue start
      → InTurn (with_task a true starts) queue start
  InTurn-done c running turn = record {
    live = λ a after. elim (Bool-cases (a == c)) [
      | inl same ↦ absurd (
          task_at-done c starts (
            ap (λ i. task_at (get_elem? (with_task c true starts) i)) (sym ((==_iff a c).0 same))
            ∙ after))
      | inr other ↦ turn.live a (IsLive-with_task c true a other after)
    ];
    line =
        line-after c true
          (All-map
            (λ u waits w.
              not_equal u.current c (live-other starts queue start u.current c (waits w) running))
            queue (not_begun-All starts queue start turn.line))
          turn.line;
    names = names-after c true turn.names;
  }

  -- The end of a start whose handler is done takes only that start from the latest.
  without_start-other :
      (c b : ℕ) (s : Start)
      → HaveNames starts
      → get_elem? starts c ≡ some s
      → b == c ≡ false
      → start ≡ some b
      → without_start starts s.command_id start ≡ some b
  unfolding without_start is_named
  without_start-other c b s names at other latest = rw latest (by_name (get_elem? starts b) refl)
    where
      by_name :
          (o : Option Start)
          → get_elem? starts b ≡ o
          → (if is_named s.command_id o then none else some b) ≡ some b
      by_name none e = refl
      by_name (some t) e = elim (Bool-cases (text_eq t.command_id s.command_id)) [
        | inl same ↦ absurd (
            ground
              (arith, names b c t s e at ((text_eq_iff t.command_id s.command_id).0 same), other))
        | inr differs ↦ rw differs refl
      ]

  pub task_at-some :
      (c : ℕ) (s : Start) → get_elem? starts c ≡ some s → task_at (get_elem? starts c) ≡ s.task
  unfolding task_at
  task_at-some c s at = rw at refl

  pub InTurn-end :
      (c : ℕ) (s : Start)
      → get_elem? starts c ≡ some s
      → s.task ≡ some true
      → InTurn starts queue start
      → InTurn starts queue (without_start starts s.command_id start)
  InTurn-end c s at done turn = record {
    live = λ a running.
        owner-start queue start (without_start starts s.command_id start) a
          (without_start-other c a s turn.names at (
            tasks-other starts queue start a c (some false) (some true) running
              (task_at-some c s at ∙ done) (λ e. ground arith)))
          (turn.live a running);
    line =
        AreInLine-start starts queue start (without_start starts s.command_id start)
          (All-map
            (λ u waits w. without_start-other c u.current s turn.names at (
              tasks-other starts queue start u.current c none (some true) (waits w)
                (task_at-some c s at ∙ done) (λ e. cc e)))
            queue (not_begun-All starts queue start turn.line))
          turn.line;
    names = turn.names;
  }
