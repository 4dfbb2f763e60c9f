-- ===== src/Child/Reached.antt =====
-- child.py: what holds of the requests of a connection in every state that they reach.
use openrois.Common.{
  ℕ, suc, ◌≤◌, ◌≡◌, ◌≢◌, refl, Bool-cases, inl, inr, Bool, Option, none, some, [], ◌∷◌, ◌++◌, arith,
  length, drop_oldest-bound,
}
use openrois.Profiles.Status.{ReturnCode}
use openrois.Child.Pending.{
  new_calls, late_kept, Requests, request_at, without_request, Wait, Calls, begin_request,
  mark_done, cancel_future, remember_late, time_out, fail_send, leave, late_reply, reply_to,
  handle_reply, detach, Step, begins, cancels, times_out, fails, leaves, replies, detaches, Reach,
  here, next,
}
use openrois.Child.Late.{request_at-without_request, answers-absent}

length-without_request :
    {V : Type 0} (i : ℕ) (d : Requests V) → length (without_request i d) ≤ length d
unfolding without_request
length-without_request i [] = omega arith
length-without_request i ((j, v) ∷ d) = ground (arith, length-without_request i d)

remember_late-bound :
    (late : Requests ℕ) (i : ℕ) (on_late : Option ℕ)
    → length late ≤ late_kept
    → length (remember_late late i on_late) ≤ late_kept
unfolding remember_late
remember_late-bound late i none h = h
remember_late-bound late i (some hook) h = drop_oldest-bound late_kept _

-- The request is no longer in `_pending`, and its id was given out.
record IsOver (i : ℕ) (c : Calls) : Type 0 where
  is_absent : request_at i c.pending ≡ none
  is_given : i ≤ c.next_id

absent-without_request :
    {V : Type 0} (i j : ℕ) (d : Requests V)
    → request_at i d ≡ none
    → request_at i (without_request j d) ≡ none
unfolding request_at without_request
absent-without_request i j [] h = refl
absent-without_request i j ((k, v) ∷ d) h = ground (arith, h, absent-without_request i j d)

absent-mark_done :
    (i j : ℕ) (d : Requests Wait) → request_at i d ≡ none → request_at i (mark_done j d) ≡ none
unfolding request_at mark_done
absent-mark_done i j [] h = refl
absent-mark_done i j ((k, w) ∷ d) h = ground (arith, h, absent-mark_done i j d)

absent-append :
    {V : Type 0} (i j : ℕ) (v : V) (d : Requests V)
    → i ≢ j
    → request_at i d ≡ none
    → request_at i (d ++ (j, v) ∷ []) ≡ none
unfolding request_at
absent-append i j v [] other h = ground (arith, other)
absent-append i j v ((k, w) ∷ d) other h = ground (arith, h, absent-append i j v d other)

abbrev IsSmall : Calls → Type 0
IsSmall c = length c.late ≤ late_kept

handle_reply-IsSmall :
    (c : Calls) (i : ℕ) (accepts : Bool) (code : ReturnCode)
    → IsSmall c
    → IsSmall (handle_reply c i accepts code)
unfolding handle_reply
handle_reply-IsSmall c i accepts code h = of_wait (request_at i c.pending)
  where
    of_late : (found : Option ℕ) → IsSmall (late_reply c i code found)
    of_late none = unfold late_reply in h
    of_late (some hook) = unfold late_reply in omega (arith, h, length-without_request i c.late)

    of_wait : (found : Option Wait) → IsSmall (reply_to c i accepts code found)
    of_wait none = unfold reply_to in of_late (request_at i c.late)
    of_wait (some w) = unfold reply_to in h

begin_request-IsSmall : (c : Calls) → IsSmall c → IsSmall (begin_request c).0
unfolding begin_request
begin_request-IsSmall c h = elim (Bool-cases c.is_open) [
  | inl open_now ↦ rw open_now h
  | inr gone ↦ rw gone h
]

Step-IsSmall : {c d : Calls} → Step c d → IsSmall c → IsSmall d
unfolding cancel_future time_out fail_send detach
Step-IsSmall {c = c} begins h = begin_request-IsSmall c h
Step-IsSmall (cancels i) h = h
Step-IsSmall {c = c} (times_out i on_late) h = remember_late-bound c.late i on_late h
Step-IsSmall (fails i) h = h
Step-IsSmall {c = c} (leaves i on_late none) h =
    unfold leave in remember_late-bound c.late i on_late h
Step-IsSmall (leaves i on_late (some code)) h = unfold leave in h
Step-IsSmall {c = c} (replies i accepts code) h = handle_reply-IsSmall c i accepts code h
Step-IsSmall detaches h = omega arith

Reach-IsSmall : {c d : Calls} → Reach c d → IsSmall c → IsSmall d
Reach-IsSmall here h = h
Reach-IsSmall (next before step) h = Step-IsSmall step (Reach-IsSmall before h)

handle_reply-IsOver :
    (i : ℕ) (c : Calls) (j : ℕ) (accepts : Bool) (code : ReturnCode)
    → IsOver i c
    → IsOver i (handle_reply c j accepts code)
unfolding handle_reply
handle_reply-IsOver i c j accepts code h = of_wait (request_at j c.pending)
  where
    of_late : (found : Option ℕ) → IsOver i (late_reply c j code found)
    of_late none = unfold late_reply in h
    of_late (some hook) =
        unfold late_reply in record { is_absent = h.is_absent; is_given = h.is_given }

    of_wait : (found : Option Wait) → IsOver i (reply_to c j accepts code found)
    of_wait none = unfold reply_to in of_late (request_at j c.late)
    of_wait (some w) =
        unfold reply_to in
        record {
          is_absent = absent-without_request i j c.pending h.is_absent;
          is_given = h.is_given;
        }

begin_request-IsOver : (i : ℕ) (c : Calls) → IsOver i c → IsOver i (begin_request c).0
unfolding begin_request
begin_request-IsOver i c h = elim (Bool-cases c.is_open) [
  | inl open_now ↦ rw open_now (record {
    is_absent =
        absent-append i (suc c.next_id) _ c.pending (λ e. absurd (omega (arith, e, h.is_given)))
          h.is_absent;
    is_given = omega (arith, h.is_given);
  })
  | inr gone ↦ rw gone (record { is_absent = h.is_absent; is_given = h.is_given })
]

Step-IsOver : (i : ℕ) {c d : Calls} → Step c d → IsOver i c → IsOver i d
unfolding cancel_future time_out fail_send detach
Step-IsOver i {c = c} begins h = begin_request-IsOver i c h
Step-IsOver i {c = c} (cancels j) h = record {
  is_absent = absent-mark_done i j c.pending h.is_absent;
  is_given = h.is_given;
}
Step-IsOver i {c = c} (times_out j on_late) h = record {
  is_absent = absent-without_request i j c.pending h.is_absent;
  is_given = h.is_given;
}
Step-IsOver i {c = c} (fails j) h = record {
  is_absent = absent-without_request i j c.pending h.is_absent;
  is_given = h.is_given;
}
Step-IsOver i {c = c} (leaves j on_late none) h =
    unfold leave in
    record { is_absent = absent-without_request i j c.pending h.is_absent; is_given = h.is_given }
Step-IsOver i {c = c} (leaves j on_late (some code)) h =
    unfold leave in
    record { is_absent = absent-without_request i j c.pending h.is_absent; is_given = h.is_given }
Step-IsOver i {c = c} (replies j accepts code) h = handle_reply-IsOver i c j accepts code h
Step-IsOver i detaches h = record { is_absent = unfold request_at in refl; is_given = h.is_given }

Reach-IsOver : (i : ℕ) {c d : Calls} → Reach c d → IsOver i c → IsOver i d
Reach-IsOver i here h = h
Reach-IsOver i (next before step) h = Step-IsOver i step (Reach-IsOver i before h)

time_out-IsOver :
    (c : Calls) (i : ℕ) (on_late : Option ℕ) → i ≤ c.next_id → IsOver i (time_out c i on_late).0
unfolding time_out
time_out-IsOver c i on_late given = record {
  is_absent = request_at-without_request i c.pending;
  is_given = given;
}

-- In every state that the requests of a new connection reach, `c` and `d` here, at most the number kept
-- are remembered for a late reply. From where the time of a request was over on, no reply to it answers
-- anything, in any state that is reached.
pub Reach-late :
    (c d : Calls) (i : ℕ) (on_late : Option ℕ) (accepts : Bool) (code : ReturnCode)
    → Reach new_calls c
    → i ≤ c.next_id
    → Reach (time_out c i on_late).0 d
    → (length c.late ≤ late_kept)
      × (length d.late ≤ late_kept)
      × ((handle_reply d i accepts code).answers ≡ d.answers)
Reach-late c d i on_late accepts code before given after =
    let small = Reach-IsSmall before (omega arith) in
    let over = Reach-IsOver i after (time_out-IsOver c i on_late given) in
    (
      small,
      Reach-IsSmall after (Step-IsSmall (times_out i on_late) small),
      answers-absent d i accepts code over.is_absent,
    )
