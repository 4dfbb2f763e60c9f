-- ===== src/Local/Taking.antt =====
-- local.py: the steps of the starts keep them in turn.
use openrois.Common.{
  ℕ, ◌<◌, ◌≡◌, ◌≢◌, ◌⊎◌, refl, sym, ap, ◌∙◌, Bool, true, false, Option, none, some, List, [], ◌∷◌,
  ◌++◌, arith, if◌then◌else◌, ◌==◌, ==_iff, length, get_elem?, All, Text, Bool-cases, inl, inr,
}
use openrois.Local.State.{Start, Takeover}
use openrois.Local.Commands.{is_start_at, unawaited}
use openrois.Local.Turns.{
  task_at, IsLive, owner, InTurn, get_elem?-append, new_start, task_at-append, All-map,
  AreInLine-start, owner-unawaited, owner-start,
}
use openrois.Local.InTurn.{AreInLine-unawaited, takeover_of, AreInLine-append, owner-append}

-- the handler that a takeover halts does not run any more
abbrev pub IsIdle : List Start → Option ℕ → Type 0
IsIdle starts previous = (a : ℕ) → previous ≡ some a → IsLive starts a → ⊥

awaited-other :
    (c : ℕ) (queue : List Takeover)
    → All (λ (u : Takeover). u.is_awaited ≡ true → u.current == c ≡ false) (unawaited c queue)
unfolding unawaited
awaited-other c [] = tt
awaited-other c (t ∷ queue) = elim (Bool-cases (t.current == c)) [
  | inl same ↦ rw same (λ w. absurd (ground arith), awaited-other c queue)
  | inr other ↦ rw other (λ w. other, awaited-other c queue)
]

module _ (starts : List Start) (queue : List Takeover) (start : Option ℕ) where
  -- the start at an address was there, or it is the new one
  pub start-append :
      (id : Text) (a : ℕ) (s : Start)
      → get_elem? (starts ++ new_start id ∷ []) a ≡ some s
      → ((a ≡ length starts) × (s.command_id ≡ id)) ⊎ (get_elem? starts a ≡ some s)
  start-append id a s e = elim (Bool-cases (a == length starts)) [
    | inl new ↦ inl (
      (==_iff a (length starts)).0 new,
      ground (arith, get_elem?-append starts (new_start id) a, e, new),
    )
    | inr old ↦ inr (ground (arith, get_elem?-append starts (new_start id) a, e, old))
  ]

  pub InTurn-append :
      (id : Text)
      → ((a : ℕ) (s : Start) → get_elem? starts a ≡ some s → s.command_id ≢ id)
      → InTurn starts queue start
      → InTurn
          (starts ++ new_start id ∷ [])
          (queue ++ takeover_of (length starts) start ∷ [])
          (some (length starts))
  InTurn-append id fresh turn = record {
    live = λ a running.
        owner-append queue (length starts) start (some (length starts))
        ∙ turn.live a (ground (arith, task_at-append starts id a, running));
    line = AreInLine-append starts id queue start turn.line;
    names = λ a b s t at_a at_b same. elim (start-append id a s at_a) [
      | inl (a_new, a_id) ↦ elim (start-append id b t at_b) [
        | inl (b_new, b_id) ↦ a_new ∙ sym b_new
        | inr b_old ↦ absurd (fresh b t b_old (sym same ∙ a_id))
      ]
      | inr a_old ↦ elim (start-append id b t at_b) [
        | inl (b_new, b_id) ↦ absurd (fresh a s a_old (same ∙ b_id))
        | inr b_old ↦ turn.names a b s t a_old b_old same
      ]
    ];
  }

  -- the latest start, without the one at an address
  without_current-other :
      (c a : ℕ)
      → a == c ≡ false
      → start ≡ some a
      → (if is_start_at c start then none else start) ≡ some a
  unfolding is_start_at
  without_current-other c a other latest = rw latest (rw other refl)

  -- starts whose handlers differ are not the same
  pub tasks-other :
      (a c : ℕ) (x y : Option Bool)
      → task_at (get_elem? starts a) ≡ x
      → task_at (get_elem? starts c) ≡ y
      → x ≢ y
      → a == c ≡ false
  tasks-other a c x y at_a at_c differ = elim (Bool-cases (a == c)) [
    | inl same ↦
        absurd
          (differ (sym at_a ∙ ap (λ i. task_at (get_elem? starts i)) ((==_iff a c).0 same) ∙ at_c))
    | inr other ↦ other
  ]

  pub live-other :
      (c a : ℕ) → task_at (get_elem? starts c) ≡ none → IsLive starts a → a == c ≡ false
  live-other c a waits running = tasks-other a c (some false) none running waits (λ e. cc e)

  -- A start that stops waiting is not the latest any more, and its takeover has no caller.
  pub InTurn-unawaited :
      (c : ℕ)
      → task_at (get_elem? starts c) ≡ none
      → InTurn starts queue start
      → InTurn starts (unawaited c queue) (if is_start_at c start then none else start)
  InTurn-unawaited c waits turn = record {
    live = λ a running.
        owner-unawaited c queue (if is_start_at c start then none else start)
        ∙ owner-start queue start (if is_start_at c start then none else start) a
            (without_current-other c a (live-other c a waits running)) (turn.live a running);
    line =
        AreInLine-start starts (unawaited c queue) start
          (if is_start_at c start then none else start)
          (All-map (λ u other w. without_current-other c u.current (other w)) (unawaited c queue)
            (awaited-other c queue))
          (AreInLine-unawaited starts c queue start turn.line);
    names = turn.names;
  }

  pub InTurn-drop :
      (t : Takeover)
      → IsIdle starts t.previous
      → InTurn starts (t ∷ queue) start
      → InTurn starts queue start
  unfolding owner
  InTurn-drop t idle turn = record {
    live = λ a running. absurd (idle a (turn.live a running) running);
    line = turn.line.1;
    names = turn.names;
  }

  pub later-other : (n : ℕ) (u : Takeover) → n < u.current → u.current == n ≡ false
  later-other n u less = ground arith

  -- Behind its takeover, a start ends with ABORT,
  pub InTurn-abort :
      (t : Takeover)
      → IsIdle starts t.previous
      → InTurn starts (t ∷ queue) start
      → InTurn starts queue (if is_start_at t.current start then none else start)
  unfolding owner
  InTurn-abort t idle turn = record {
    live = λ a running. absurd (idle a (turn.live a running) running);
    line =
        AreInLine-start starts queue start (if is_start_at t.current start then none else start)
          (All-map
            (λ u less w. without_current-other t.current u.current (later-other t.current u less))
            queue turn.line.0.is_earlier)
          turn.line.1;
    names = turn.names;
  }
