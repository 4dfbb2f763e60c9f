-- ===== src/Local/Superseded.antt =====
-- local.py: what a stop or a resume does to the commands that are held.
use openrois.Common.{
  ℕ, zero, suc, ◌≡◌, refl, ap, ◌∙◌, Bool, true, false, Option, none, some, List, [], ◌∷◌, arith,
  get_elem?, Text,
}
use openrois.Condition.Parse.{mem_text}
use openrois.Profiles.Status.{CompletedStatus}
use openrois.Profiles.Units.{Named}
use openrois.Local.State.{Suspension, Hosted}
use openrois.Local.Statuses.{operable}
use openrois.Local.Suspensions.{lifted, lift_at, lift, begin_stop, lift_if, end_resume}
use openrois.Local.Ends.{
  Work, begin, returned, outcome_status, abort_if, end_status, end, ended, is_completed_ok,
}
use openrois.Local.Run.{ends, released, hold, is_lift_aborted, after_wait}

get_elem?-lifted :
    (s : ℕ) (b : Bool) (suspensions : List Suspension) (x : Suspension)
    → get_elem? suspensions s ≡ some x
    → get_elem? (lifted s b suspensions) s ≡ some (record { released = true; aborted = b })
unfolding lifted
get_elem?-lifted s b [] x e = absurd (ground arith)
get_elem?-lifted zero b (y ∷ suspensions) x e = refl
get_elem?-lifted (suc s) b (y ∷ suspensions) x e = get_elem?-lifted s b suspensions x e

is_lift_aborted-lift_at :
    (h : Hosted) (b : Bool) (s : ℕ) (x : Suspension)
    → get_elem? h.suspensions s ≡ some x
    → is_lift_aborted (get_elem? (lift_at h b (some s)).suspensions s) ≡ b
unfolding lift_at
is_lift_aborted-lift_at h b s x at =
    ap is_lift_aborted (get_elem?-lifted s b h.suspensions x at) ∙ (unfold is_lift_aborted in refl)

is_lift_aborted-lift :
    (h : Hosted) (b : Bool) (s : ℕ) (x : Suspension)
    → h.suspension ≡ some s
    → get_elem? h.suspensions s ≡ some x
    → is_lift_aborted (get_elem? (lift h b).suspensions s) ≡ b
unfolding lift
is_lift_aborted-lift h b s x suspended at =
    ap (λ o. is_lift_aborted (get_elem? (lift_at h b o).suspensions s)) suspended
    ∙ is_lift_aborted-lift_at h b s x at

suspension-lift : (h : Hosted) (b : Bool) → (lift h b).suspension ≡ none
suspension-lift h b = unfold lift in lifts h.suspension refl
  where
    lifts : (o : Option ℕ) → h.suspension ≡ o → (lift_at h b o).suspension ≡ none
    lifts none e = unfold lift_at in e
    lifts (some s) e = unfold lift_at in refl

-- what a wait ends with, by whether its suspension was lifted by a stop, and the suspension in force
after_wait-aborted :
    (h : Hosted) (command_type : Text) (s : ℕ)
    → is_lift_aborted (get_elem? h.suspensions s) ≡ true
    → after_wait h command_type s false ≡ ends CompletedStatus.abort
unfolding after_wait
after_wait-aborted h command_type s e = rw e refl

after_wait-released :
    (h : Hosted) (command_type : Text) (s : ℕ)
    → is_lift_aborted (get_elem? h.suspensions s) ≡ false
    → h.suspension ≡ none
    → after_wait h command_type s false ≡ released h command_type
unfolding after_wait hold released operable
after_wait-released h command_type s e k = rw e (rw (hold, k) refl)

end_status-returned :
    (h : Hosted) (id : Text) (values : List Named)
    → mem_text id h.aborted ≡ false
    → is_completed_ok (end_status h id (returned values)) ≡ true
unfolding end_status outcome_status abort_if is_completed_ok
end_status-returned h id values free = rw free refl

hosted-lift_if : (b : Bool) (w : Work) → b ≡ true → (lift_if b w).hosted ≡ lift w.hosted false
unfolding lift_if
hosted-lift_if true w e = refl
hosted-lift_if false w e = absurd (ground arith)

hosted-end_resume :
    (w : Work) (id : Text) (values : List Named)
    → mem_text id w.hosted.aborted ≡ false
    → (end_resume w id (returned values)).0.hosted
      ≡ lift (end w id false (returned values)).0.hosted false
unfolding end_resume
hosted-end_resume w id values free =
    hosted-lift_if _ (end w id false (returned values)).0
      (unfold end in end_status-returned w.hosted id values free)

-- Where the suspension that a command waits for is lifted, the wait is over: behind a stop the command
-- ends with ABORT, and behind a resume that succeeded it goes on as a command that is not held.
pub held-ends :
    (w : Work) (id command_type : Text) (s : ℕ) (x : Suspension) (values : List Named)
    → w.hosted.suspension ≡ some s
    → get_elem? w.hosted.suspensions s ≡ some x
    → mem_text id w.hosted.aborted ≡ false
    → (after_wait (begin_stop w id).hosted command_type s false ≡ ends CompletedStatus.abort)
      × (after_wait (end_resume w id (returned values)).0.hosted command_type s false
          ≡ released (end_resume w id (returned values)).0.hosted command_type)
held-ends w id command_type s x values suspended at free = (
  after_wait-aborted (begin_stop w id).hosted command_type s (
      unfold begin_stop begin in
      is_lift_aborted-lift (record w.hosted { started = false }) true s x suspended at),
  (let h = (end w id false (returned values)).0.hosted in
      rw (hosted-end_resume w id values free) (
        after_wait-released (lift h false) command_type s
          (unfold end ended in is_lift_aborted-lift h false s x suspended at)
          (suspension-lift h false))),
)
