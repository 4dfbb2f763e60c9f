-- ===== src/Local/Turns.antt =====
-- local.py: starts take turns. What holds of the starts, the queue for the lock and the latest start.
use openrois.Common.{
  ℕ, zero, suc, ◌<◌, ◌≡◌, refl, ◌∙◌, Bool, true, false, Option, none, some, List, [], ◌∷◌, ◌++◌,
  arith, if◌then◌else◌, ◌==◌, length, get_elem?, All, Text, Bool-cases, inl, inr,
}
use openrois.Local.State.{Start, Takeover}
use openrois.Local.Commands.{unawaited}

-- the handler of a start, once it runs: whether it is done
unfoldable pub task_at : Option Start → Option Bool
task_at none = none
task_at (some s) = s.task

abbrev pub IsLive : List Start → ℕ → Type 0
IsLive starts a = task_at (get_elem? starts a) ≡ some false

-- The start whose handler may run: the one that the first takeover halts, or the latest one.
unfoldable pub owner : List Takeover → Option ℕ → Option ℕ
owner [] start = start
owner (t ∷ queue) start = t.previous

-- Behind a takeover that is awaited stands one that halts its start, or its start is the latest; its
-- handler has not begun. Later takeovers are for later starts.
pub record IsNext (starts : List Start) (t : Takeover) (queue : List Takeover) (start : Option ℕ)
    : Type 0 where
  pub halted_next : t.is_awaited ≡ true → owner queue start ≡ some t.current
  pub not_begun : t.is_awaited ≡ true → task_at (get_elem? starts t.current) ≡ none
  pub is_known : t.current < length starts
  pub is_earlier : All (λ (u : Takeover). t.current < u.current) queue

abbrev pub AreInLine : List Start → List Takeover → Option ℕ → Type 0
AreInLine starts [] start = Unit
AreInLine starts (t ∷ queue) start = IsNext starts t queue start × AreInLine starts queue start

-- no two starts have one id
abbrev pub HaveNames : List Start → Type 0
HaveNames starts =
    (a b : ℕ) (s t : Start)
    → get_elem? starts a ≡ some s
    → get_elem? starts b ≡ some t
    → s.command_id ≡ t.command_id
    → a ≡ b

pub record InTurn (starts : List Start) (queue : List Takeover) (start : Option ℕ) : Type 0 where
  -- a handler that runs is that of the owner
  pub live : (a : ℕ) → IsLive starts a → owner queue start ≡ some a
  pub line : AreInLine starts queue start
  pub names : HaveNames starts

pub get_elem?-append :
    {A : Type 0} (xs : List A) (x : A) (i : ℕ)
    → get_elem? (xs ++ x ∷ []) i ≡ (if i == length xs then some x else get_elem? xs i)
get_elem?-append [] x zero = refl
get_elem?-append [] x (suc i) = ground arith
get_elem?-append (y ∷ xs) x zero = ground arith
get_elem?-append (y ∷ xs) x (suc i) = get_elem?-append xs x i ∙ ground arith

-- a new start, which no handler runs for
abbrev pub new_start : Text → Start
new_start id = record { command_id = id; task = none }

pub task_at-append :
    (starts : List Start) (id : Text) (a : ℕ)
    → task_at (get_elem? (starts ++ new_start id ∷ []) a)
      ≡ (if a == length starts then none else task_at (get_elem? starts a))
unfolding task_at
task_at-append starts id a = ground (arith, get_elem?-append starts (new_start id) a)

pub get_elem?-length :
    {A : Type 0} (xs : List A) (i : ℕ) {x : A} → get_elem? xs i ≡ some x → i < length xs
get_elem?-length [] i e = absurd (ground arith)
get_elem?-length (y ∷ xs) zero e = omega arith
get_elem?-length (y ∷ xs) (suc i) e = omega (arith, get_elem?-length xs i e)

pub All-of : {A : Type 0} {P : A → Type 0} → ((x : A) → P x) → (xs : List A) → All P xs
All-of h [] = tt
All-of h (x ∷ xs) = (h x, All-of h xs)

pub All-map :
    {A : Type 0} {P Q : A → Type 0} → ((x : A) → P x → Q x) → (xs : List A) → All P xs → All Q xs
All-map h [] hs = tt
All-map h (x ∷ xs) (p, ps) = (h x p, All-map h xs ps)

-- The line stays where the handlers of its starts stay not begun.
pub AreInLine-starts :
    (starts starts' : List Start) (queue : List Takeover) (start : Option ℕ)
    → length starts' ≡ length starts
    → All
        (λ (u : Takeover).
          u.is_awaited ≡ true
          → task_at (get_elem? starts u.current) ≡ none
          → task_at (get_elem? starts' u.current) ≡ none)
        queue
    → AreInLine starts queue start
    → AreInLine starts' queue start
AreInLine-starts starts starts' [] start same keeps line = tt
AreInLine-starts starts starts' (t ∷ queue) start same (stays, keeps) (next, line) = (
  record {
    halted_next = next.halted_next;
    not_begun = λ w. stays w (next.not_begun w);
    is_known = omega (arith, same, next.is_known);
    is_earlier = next.is_earlier;
  },
  AreInLine-starts starts starts' queue start same keeps line,
)

pub owner-start :
    (queue : List Takeover) (start start' : Option ℕ) (a : ℕ)
    → (start ≡ some a → start' ≡ some a)
    → owner queue start ≡ some a
    → owner queue start' ≡ some a
unfolding owner
owner-start [] start start' a stays h = stays h
owner-start (u ∷ queue) start start' a stays h = h

-- It stays where the latest start stays, if it is that of a takeover that is awaited.
pub AreInLine-start :
    (starts : List Start) (queue : List Takeover) (start start' : Option ℕ)
    → All
        (λ (u : Takeover). u.is_awaited ≡ true → start ≡ some u.current → start' ≡ some u.current)
        queue
    → AreInLine starts queue start
    → AreInLine starts queue start'
AreInLine-start starts [] start start' keeps line = tt
AreInLine-start starts (t ∷ queue) start start' (stays, keeps) (next, line) = (
  record {
    halted_next = λ w. owner-start queue start start' t.current (stays w) (next.halted_next w);
    not_begun = next.not_begun;
    is_known = next.is_known;
    is_earlier = next.is_earlier;
  },
  AreInLine-start starts queue start start' keeps line,
)

-- no handler of a start in the line has begun
pub not_begun-All :
    (starts : List Start) (queue : List Takeover) (start : Option ℕ)
    → AreInLine starts queue start
    → All
        (λ (u : Takeover). u.is_awaited ≡ true → task_at (get_elem? starts u.current) ≡ none)
        queue
not_begun-All starts [] start line = tt
not_begun-All starts (t ∷ queue) start (next, line) =
    (next.not_begun, not_begun-All starts queue start line)

pub owner-unawaited :
    (c : ℕ) (queue : List Takeover) (start : Option ℕ)
    → owner (unawaited c queue) start ≡ owner queue start
unfolding owner unawaited
owner-unawaited c [] start = refl
owner-unawaited c (t ∷ queue) start = elim (Bool-cases (t.current == c)) [
  | inl same ↦ rw same refl
  | inr other ↦ rw other refl
]
