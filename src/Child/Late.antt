-- ===== src/Child/Late.antt =====
-- child.py: a request is answered once, whatever comes after.
use openrois.Common.{ℕ, ◌≡◌, refl, if◌then◌else◌, Bool, Option, none, some, [], ◌∷◌, ◌++◌, arith}
use openrois.Profiles.Status.{ReturnCode}
use openrois.Child.Pending.{
  Requests, request_at, without_request, Wait, Calls, seen, late_reply, reply_to, handle_reply,
}

pub request_at-without_request :
    {V : Type 0} (i : ℕ) (d : Requests V) → request_at i (without_request i d) ≡ none
unfolding request_at without_request
request_at-without_request i [] = refl
request_at-without_request i ((j, v) ∷ d) = ground (arith, request_at-without_request i d)

answers-late_reply :
    (c : Calls) (i : ℕ) (code : ReturnCode) (found : Option ℕ)
    → (late_reply c i code found).answers ≡ c.answers
unfolding late_reply
answers-late_reply c i code none = refl
answers-late_reply c i code (some hook) = refl

pub answers-absent :
    (c : Calls) (i : ℕ) (accepts : Bool) (code : ReturnCode)
    → request_at i c.pending ≡ none
    → (handle_reply c i accepts code).answers ≡ c.answers
unfolding handle_reply
answers-absent c i accepts code h =
    rw h (unfold reply_to in answers-late_reply c i code (request_at i c.late))

-- A request that waits is answered by its first reply, where an OK reply that its hook refuses counts
-- as ERROR; where its future is done already, the reply answers nothing. A second reply to it, whatever
-- it says, answers nothing.
pub handle_reply-once :
    (c : Calls) (i : ℕ) (accepts again : Bool) (code second : ReturnCode) (w : Wait)
    → request_at i c.pending ≡ some w
    → ((handle_reply c i accepts code).answers
        ≡ (if w.is_done then c.answers else c.answers ++ (i, seen accepts code) ∷ []))
      × ((handle_reply (handle_reply c i accepts code) i again second).answers
          ≡ (handle_reply c i accepts code).answers)
handle_reply-once c i accepts again code second w h = (
  unfold handle_reply reply_to in rw h refl,
  answers-absent (handle_reply c i accepts code) i again second
      (unfold handle_reply reply_to in rw h (request_at-without_request i c.pending)),
)
