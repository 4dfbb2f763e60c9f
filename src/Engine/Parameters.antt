-- ===== src/Engine/Parameters.antt =====
-- engine.py: `_set_parameter`, and the commands that run.
use openrois.Common.{
  ℕ, zero, suc, ◌≡◌, refl, true, false, none, some, List, [], ◌∷◌, ◌++◌, arith, get_elem?, Text,
  text_eq, text_eq_iff, Bool-cases, inl, inr,
}
use openrois.Common.Dict
use openrois.Common.Dict.{Dict, get-put}
use openrois.Engine.State.{SourceId, Command, Engine}
use openrois.Engine.Commands.{is_some, status_at}
use openrois.Engine.Prune.{prune-running}
use openrois.Engine.Requests.{is_free_id, new_object, parameter_set}

get_elem?-append {ℓ} :
    {A : Type ℓ} (xs ys : List A) (i : ℕ) (x : A)
    → get_elem? xs i ≡ some x
    → get_elem? (xs ++ ys) i ≡ some x
get_elem?-append [] ys i x h = cc
get_elem?-append (z ∷ xs) ys zero x h = h
get_elem?-append (z ∷ xs) ys (suc i) x h = get_elem?-append xs ys i x h

status_at-new_object :
    (e : Engine) (s ref : Text) (source : SourceId) (commands : Dict ℕ) (at : ℕ) (command : Command)
    → get_elem? e.objects at ≡ some command
    → status_at (record (new_object e s ref source) { commands = commands }) at ≡ command.status
unfolding status_at new_object
status_at-new_object e s ref source commands at command h =
    rw (get_elem?-append e.objects _ at command h, status_at) refl

-- the id of a running command is not free
free-other :
    (e : Engine) (c command_id : Text) (at : ℕ) (command : Command)
    → Dict.get c e.commands ≡ some at
    → get_elem? e.objects at ≡ some command
    → command.status ≡ none
    → is_free_id e command_id ≡ true
    → text_eq command_id c ≡ false
unfolding is_free_id status_at is_some
free-other e c command_id at command h k running free = ground (arith, text_eq_iff command_id c)

-- Whatever command id a source returns for a `set_parameter`, every running command of the table
-- keeps its entry.
pub parameter_set-running :
    (e : Engine) (s ref : Text) (source : SourceId) (command_id c : Text) (at : ℕ)
    (command : Command)
    → Dict.get c e.commands ≡ some at
    → get_elem? e.objects at ≡ some command
    → command.status ≡ none
    → Dict.get c (parameter_set e s ref source command_id).0.commands ≡ some at
unfolding parameter_set
parameter_set-running e s ref source command_id c at command h k running =
    elim (Bool-cases (is_free_id e command_id)) [
      | inl free ↦ rw free (
          prune-running _ c at
            (rw (get-put, free-other e c command_id at command h k running free) h)
            (rw (status_at-new_object e s ref source _ at command k) running))
      | inr taken ↦ rw taken (unfold new_object in h)
    ]
