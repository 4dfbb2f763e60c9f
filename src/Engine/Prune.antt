-- ===== src/Engine/Prune.antt =====
-- engine.py: what `_prune_commands` forgets.
use openrois.Common.{
  ℕ, zero, suc, ◌+◌, ◌-◌, ◌≤◌, ◌≡◌, refl, ◌⊎◌, inl, inr, none, some, [], ◌∷◌, arith, if◌then◌else◌,
  length, Text, Bool-cases,
}
use openrois.Common.Dict
use openrois.Common.Dict.{Dict}
use openrois.Engine.State.{Engine}
use openrois.Engine.Commands.{commands_kept, is_some, status_at, prune_rounds, prune}

-- the entries of a command table whose commands have ended
unfoldable pub count_finished : Engine → Dict ℕ → ℕ
count_finished e [] = 0
count_finished e ((c, at) ∷ commands) =
    let later = count_finished e commands in if is_some (status_at e at) then suc later else later

prune_rounds-length :
    (e : Engine) (k : ℕ) (d : Dict ℕ)
    → (length (prune_rounds e k d) + k ≡ length d) ⊎ (count_finished e (prune_rounds e k d) ≡ 0)
unfolding prune_rounds count_finished
prune_rounds-length e zero d = inl (omega arith)
prune_rounds-length e (suc k) [] = inr refl
prune_rounds-length e (suc k) ((c, at) ∷ d) = elim (Bool-cases (is_some (status_at e at))) [
  | inl ended ↦ ground (arith, prune_rounds-length e k d)
  | inr running ↦ ground (arith, prune_rounds-length e (suc k) d)
]

prune_rounds-running :
    (e : Engine) (k : ℕ) (d : Dict ℕ) (c : Text) (at : ℕ)
    → Dict.get c d ≡ some at
    → status_at e at ≡ none
    → Dict.get c (prune_rounds e k d) ≡ some at
unfolding prune_rounds Dict.get is_some
prune_rounds-running e zero d c at h open_still = h
prune_rounds-running e (suc k) [] c at h open_still = cc
prune_rounds-running e (suc k) ((i, j) ∷ d) c at h open_still =
    ground (arith, prune_rounds-running e k d c at, prune_rounds-running e (suc k) d c at)

count_finished-commands :
    (e : Engine) (kept d : Dict ℕ)
    → count_finished (record e { commands = kept }) d ≡ count_finished e d
unfolding count_finished status_at
count_finished-commands e kept [] = refl
count_finished-commands e kept ((c, at) ∷ d) = ground (arith, count_finished-commands e kept d)

-- Pruning leaves the table with at most the number of commands that it keeps, or with no command
-- that has ended.
pub prune-bound :
    (e : Engine)
    → (length (prune e).commands ≤ commands_kept)
      ⊎ (count_finished (prune e) (prune e).commands ≡ 0)
unfolding prune
prune-bound e =
    let excess = length e.commands - commands_kept in
    elim (prune_rounds-length e excess e.commands) [
      | inl few ↦ inl (omega arith)
      | inr none_left ↦
          inr (rw (count_finished-commands e (prune_rounds e excess e.commands)) none_left)
    ]

-- Pruning never forgets a command that has not ended.
pub prune-running :
    (e : Engine) (c : Text) (at : ℕ)
    → Dict.get c e.commands ≡ some at
    → status_at e at ≡ none
    → Dict.get c (prune e).commands ≡ some at
unfolding prune
prune-running e c at h open_still =
    prune_rounds-running e (length e.commands - commands_kept) e.commands c at h open_still
