-- ===== src/Engine/Completion.antt =====
-- engine.py: a command ends once, and its end never changes.
use openrois.Common.{
  ℕ, zero, suc, ◌≡◌, refl, ap, none, some, List, [], ◌∷◌, ◌++◌, arith, if◌then◌else◌, get_elem?,
  set, Text, append-nil,
}
use openrois.Profiles.Status.{CompletedStatus}
use openrois.Engine.State.{Command, Notification, completed, Engine}
use openrois.Engine.Commands.{
  notify, is_served, is_connected, store, complete_object, complete, status_at,
}

module _ {ℓ} {A : Type ℓ} where
  pub get_elem?-set_self :
      (xs : List A) (i : ℕ) (x v : A) → get_elem? xs i ≡ some x → get_elem? (set xs i v) i ≡ some v
  get_elem?-set_self [] i x v h = cc
  get_elem?-set_self (y ∷ xs) zero x v h = refl
  get_elem?-set_self (y ∷ xs) (suc i) x v h = get_elem?-set_self xs i x v h

status_at-store :
    (e : Engine) (at : ℕ) (c d : Command)
    → get_elem? e.objects at ≡ some c
    → status_at (store e at d) at ≡ d.status
unfolding status_at store
status_at-store e at c d h = rw (get_elem?-set_self e.objects at c d h, status_at) refl

complete_ended :
    (e : Engine) (s c : Text) (at : ℕ) (status ended : CompletedStatus)
    → status_at e at ≡ some ended
    → complete e s c at status ≡ e
unfolding complete complete_object status_at
complete_ended e s c at status ended h = ground arith

status_at-notify :
    (e : Engine) (s : Text) (n : Notification) (at : ℕ)
    → status_at (notify e s n) at ≡ status_at e at
unfolding status_at notify
status_at-notify e s n at = refl

-- the object after a completion
complete_open :
    (e : Engine) (s c : Text) (at : ℕ) (status : CompletedStatus) (command : Command)
    → get_elem? e.objects at ≡ some command
    → status_at (complete_object e s c at status command none) at ≡ some status
unfolding complete_object
complete_open e s c at status command h = ground (
  arith,
  status_at-store e at command (record command { status = some status }),
  status_at-notify (store e at (record command { status = some status })) s (completed c status) at,
)

complete_open-sent :
    (e : Engine) (s c : Text) (at : ℕ) (status : CompletedStatus) (command : Command)
    → (complete_object e s c at status command none).sent
      ≡ e.sent ++ (if is_served e s then (s, completed c status) ∷ [] else [])
unfolding complete_object notify store is_served is_connected
complete_open-sent e s c at status command = ground (arith, append-nil e.sent)

-- `complete` at an object that has not ended
complete-eq :
    (e : Engine) (s c : Text) (at : ℕ) (status : CompletedStatus) (command : Command)
    → get_elem? e.objects at ≡ some command
    → command.status ≡ none
    → complete e s c at status ≡ complete_object e s c at status command none
unfolding complete
complete-eq e s c at status command h k =
    rw (h, complete) (ap (complete_object e s c at status command) k)

-- A command object that has not ended completes once: it takes the first status, the session of the
-- call is notified once if it is served, and any later completion of the object, with any status, for
-- any session and under any id, changes nothing and notifies nobody.
pub complete_once :
    (e : Engine) (s c : Text) (at : ℕ) (first : CompletedStatus) (command : Command)
    → get_elem? e.objects at ≡ some command
    → command.status ≡ none
    → (status_at (complete e s c at first) at ≡ some first)
      × ((complete e s c at first).sent
          ≡ e.sent ++ (if is_served e s then (s, completed c first) ∷ [] else []))
      × ((s' c' : Text) (second : CompletedStatus)
          → complete (complete e s c at first) s' c' at second ≡ complete e s c at first)
complete_once e s c at first command h k = rw (complete-eq e s c at first command h k) (
  complete_open e s c at first command h,
  complete_open-sent e s c at first command,
  λ s' c' second. complete_ended _ s' c' at second first (complete_open e s c at first command h),
)
