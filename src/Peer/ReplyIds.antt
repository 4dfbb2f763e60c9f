-- ===== src/Peer/ReplyIds.antt =====
-- jsonrpc.py: which messages get a reply, and the id that it has.
use openrois.Common.{
  ◌≡◌, refl, Bool, true, false, Option, none, some, arith, Text, codes, Bool-cases, inl, inr,
}
use openrois.Peer.Json.{Json, null, boolean, number, string, array, object, Members, member_of}
use openrois.Peer.Answer.{
  Reply, result, failure, or_null, id_of, is_request, is_notification, method_of, Answer, silent,
  replies, handles, answer_valid, answer_request, answer_object, answer_json, answer_payload,
  answer, Loaded, reads, raises, answer_handled,
}

abbrev pub reply_id : Reply → Json
reply_id (result id body) = id
reply_id (failure id code) = id

-- Nothing is raised, a message is silent only as a notification, and every reply has the id of the message, or null
-- where that is no valid one.
abbrev pub Corresponds : {P : Type 0} → Bool → Json → Answer P → Type 0
Corresponds note id silent = note ≡ true
Corresponds note id raises = ⊥
Corresponds note id (replies reply) = (note ≡ false) × (reply_id reply ≡ id)
Corresponds note id (handles request_id method params) =
    (note ≡ false) × ((outcome : Option Json) → reply_id (answer_handled request_id outcome) ≡ id)

module _ {P : Type 0} (is_method : Text → Bool) (validate : Text → Json → Option P) where
  answer_valid-Corresponds :
      (request_id : Json) (method : Text) (params : Option P)
      → Corresponds false request_id (answer_valid is_method validate request_id method params)
  unfolding answer_valid answer_handled
  answer_valid-Corresponds request_id method none = (refl, refl)
  answer_valid-Corresponds request_id method (some params) = (refl, handled)
    where
      handled : (outcome : Option Json) → reply_id (answer_handled request_id outcome) ≡ request_id
      handled none = refl
      handled (some body) = refl

  answer_request-Corresponds :
      (request_id : Json) (members : Members)
      → Corresponds false request_id (answer_request is_method validate request_id members)
  unfolding answer_request
  answer_request-Corresponds request_id members =
      elim (Bool-cases (is_method (method_of (member_of (codes "method") members)))) [
        | inl h ↦ rw h (answer_valid-Corresponds request_id _ _)
        | inr h ↦ rw h (refl, refl)
      ]

  -- the id of a request is a valid one
  id_of-request :
      (members : Members)
      → is_request (object members) ≡ true
      → or_null (member_of (codes "id") members) ≡ id_of (object members)
  unfolding is_request id_of
  id_of-request members h = ground arith

  answer_object-Corresponds :
      (members : Members)
      → Corresponds
          (is_notification (object members))
          (id_of (object members))
          (answer_object is_method validate members)
  unfolding answer_object
  answer_object-Corresponds members = elim (Bool-cases (is_notification (object members))) [
    | inl h ↦ rw h refl
    | inr h ↦ elim (Bool-cases (is_request (object members))) [
      | inl k ↦ rw (h, k) (rw (← id_of-request members k) (answer_request-Corresponds _ members))
      | inr k ↦ rw (h, k) (refl, refl)
    ]
  ]

  -- A message that `json.loads` reads gets no reply exactly when it is an object with a method and without an
  -- id. Every other one gets one reply, whatever the engine does, with the id of the message, or null
  -- where it has none that is valid.
  pub answer-Corresponds :
      (loads : Text → Loaded) (raw : Text) (payload : Json)
      → loads raw ≡ reads payload
      → Corresponds (is_notification payload) (id_of payload) (answer is_method validate loads raw)
  unfolding answer answer_payload answer_json is_notification id_of
  answer-Corresponds loads raw payload h = rw h (of_payload payload)
    where
      of_payload :
          (p : Json) → Corresponds (is_notification p) (id_of p) (answer_json is_method validate p)
      of_payload (object members) = answer_object-Corresponds members
      of_payload null = (refl, refl)
      of_payload (boolean b) = (refl, refl)
      of_payload (number n) = (refl, refl)
      of_payload (string s) = (refl, refl)
      of_payload (array items) = (refl, refl)
