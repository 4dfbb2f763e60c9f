-- ===== src/Local/InTurn.antt =====
-- local.py: each step of a command keeps the starts in turn.
use openrois.Common.{
  ℕ, zero, suc, ◌<◌, ◌≡◌, ◌≢◌, refl, ap, ◌∙◌, Bool, true, false, Option, none, some, List, [], ◌∷◌,
  ◌++◌, arith, ◌==◌, length, length-append, get_elem?, All, Text, Bool-cases, inl, inr,
}
use openrois.Local.State.{Start, Takeover}
use openrois.Local.Commands.{unawaited, with_task}
use openrois.Local.Turns.{task_at, owner, AreInLine, new_start, task_at-append, owner-unawaited}

-- a start that stops waiting leaves its takeover in the line
earlier-unawaited :
    (n c : ℕ) (queue : List Takeover)
    → All (λ (u : Takeover). n < u.current) queue
    → All (λ (u : Takeover). n < u.current) (unawaited c queue)
unfolding unawaited
earlier-unawaited n c [] h = tt
earlier-unawaited n c (t ∷ queue) (k, ks) = elim (Bool-cases (t.current == c)) [
  | inl same ↦ rw same (k, earlier-unawaited n c queue ks)
  | inr other ↦ rw other (k, earlier-unawaited n c queue ks)
]

pub AreInLine-unawaited :
    (starts : List Start) (c : ℕ) (queue : List Takeover) (start : Option ℕ)
    → AreInLine starts queue start
    → AreInLine starts (unawaited c queue) start
unfolding unawaited
AreInLine-unawaited starts c [] start line = tt
AreInLine-unawaited starts c (t ∷ queue) start (next, line) = elim (Bool-cases (t.current == c)) [
  | inl same ↦ rw same (
    record {
      halted_next = λ w. absurd (ground arith);
      not_begun = λ w. absurd (ground arith);
      is_known = next.is_known;
      is_earlier = earlier-unawaited t.current c queue next.is_earlier;
    },
    AreInLine-unawaited starts c queue start line,
  )
  | inr other ↦ rw other (
    record {
      halted_next = λ w. owner-unawaited c queue start ∙ next.halted_next w;
      not_begun = next.not_begun;
      is_known = next.is_known;
      is_earlier = earlier-unawaited t.current c queue next.is_earlier;
    },
    AreInLine-unawaited starts c queue start line,
  )
]

-- the takeover at the end of the line
abbrev pub takeover_of : ℕ → Option ℕ → Takeover
takeover_of n start = record { current = n; previous = start; is_awaited = true }

earlier-append :
    (n m : ℕ) (start : Option ℕ) (queue : List Takeover)
    → n < m
    → All (λ (u : Takeover). n < u.current) queue
    → All (λ (u : Takeover). n < u.current) (queue ++ takeover_of m start ∷ [])
earlier-append n m start [] less h = (less, tt)
earlier-append n m start (t ∷ queue) less (k, ks) = (k, earlier-append n m start queue less ks)

pub owner-append :
    (queue : List Takeover) (n : ℕ) (start next : Option ℕ)
    → owner (queue ++ takeover_of n start ∷ []) next ≡ owner queue start
unfolding owner
owner-append [] n start next = refl
owner-append (t ∷ queue) n start next = refl

pub AreInLine-append :
    (starts : List Start) (id : Text) (queue : List Takeover) (start : Option ℕ)
    → AreInLine starts queue start
    → AreInLine
        (starts ++ new_start id ∷ [])
        (queue ++ takeover_of (length starts) start ∷ [])
        (some (length starts))
unfolding owner
AreInLine-append starts id [] start line = (
  record {
    halted_next = λ w. refl;
    not_begun = λ w. ground (arith, task_at-append starts id (length starts));
    is_known = omega (arith, length-append starts (new_start id ∷ []));
    is_earlier = tt;
  },
  tt,
)
AreInLine-append starts id (t ∷ queue) start (next, line) = (
  record {
    halted_next =
        λ w. owner-append queue (length starts) start (some (length starts)) ∙ next.halted_next w;
    not_begun =
        λ w. ground (arith, task_at-append starts id t.current, next.not_begun w, next.is_known);
    is_known = omega (arith, length-append starts (new_start id ∷ []), next.is_known);
    is_earlier = earlier-append t.current (length starts) start queue next.is_known next.is_earlier;
  },
  AreInLine-append starts id queue start line,
)

-- what a handler's begin or end changes
pub length-with_task :
    (a : ℕ) (done : Bool) (starts : List Start) → length (with_task a done starts) ≡ length starts
unfolding with_task
length-with_task a done [] = refl
length-with_task zero done (s ∷ starts) = refl
length-with_task (suc a) done (s ∷ starts) = ap suc (length-with_task a done starts)

pub task_at-with_task :
    (a : ℕ) (done : Bool) (starts : List Start) (b : ℕ)
    → a == b ≡ false
    → task_at (get_elem? (with_task a done starts) b) ≡ task_at (get_elem? starts b)
unfolding with_task
task_at-with_task a done [] b other = refl
task_at-with_task zero done (s ∷ starts) zero other = absurd (ground arith)
task_at-with_task zero done (s ∷ starts) (suc b) other = refl
task_at-with_task (suc a) done (s ∷ starts) zero other = refl
task_at-with_task (suc a) done (s ∷ starts) (suc b) other =
    task_at-with_task a done starts b (ground arith)

pub task_at-done :
    (a : ℕ) (starts : List Start) → task_at (get_elem? (with_task a true starts) a) ≢ some false
unfolding with_task task_at
task_at-done a [] h = absurd (ground arith)
task_at-done zero (s ∷ starts) h = absurd (ground arith)
task_at-done (suc a) (s ∷ starts) h = task_at-done a starts h

id_at : Option Start → Text
id_at none = []
id_at (some s) = s.command_id

pub names-with_task :
    (a : ℕ) (done : Bool) (starts : List Start) (b : ℕ) (s : Start)
    → get_elem? (with_task a done starts) b ≡ some s
    → (t : Start) × (get_elem? starts b ≡ some t) × (t.command_id ≡ s.command_id)
unfolding with_task id_at
names-with_task a done [] b s e = absurd (ground arith)
names-with_task zero done (x ∷ starts) zero s e = (x, refl, ap id_at e)
names-with_task zero done (x ∷ starts) (suc b) s e = (s, e, refl)
names-with_task (suc a) done (x ∷ starts) zero s e = (s, e, refl)
names-with_task (suc a) done (x ∷ starts) (suc b) s e = names-with_task a done starts b s e
