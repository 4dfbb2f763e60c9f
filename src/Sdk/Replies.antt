-- ===== src/Sdk/Replies.antt =====
-- transport.py and jsonrpc.py: a reply of an engine is taken as a reply to its request.
use openrois.Common.{
  ℕ, zero, suc, ◌<◌, ◌≡◌, refl, ap, ◌∙◌, true, false, some, arith, all, any, Text, text_eq,
  text_eq_iff, codes, append-injective_left, Bool-cases, inl, inr,
}
use openrois.Common.Numerals.{decimal, decimal-injective}
use openrois.Condition.Parse.{mem_text}
use openrois.Peer.Json.{Json, number, string, member_of}
use openrois.Peer.Answer.{
  ErrorCode, parse_error, invalid_request, method_not_found, invalid_params, internal_error, result,
  failure, is_id, is_there, is_string, is_version, or_null,
}
use openrois.Sdk.Transport.{reply}
use openrois.Sdk.Receive.{
  request_text, request_named, reply_to_request, reply_of, has_only, has_fields, is_integer,
  is_error_object, classify_object, classify, code_text, reply_json,
}

request_text-injective : (m n : ℕ) → request_text m ≡ request_text n → m ≡ n
unfolding request_text
request_text-injective m n e =
    decimal-injective m n (append-injective_left (codes "req-") (decimal m) (decimal n) e)

request_named-request_text :
    (n next_id : ℕ) → n < next_id → request_named (request_text n) next_id ≡ some n
unfolding request_named
request_named-request_text n zero less = absurd (omega arith)
request_named-request_text n (suc k) less =
    elim (Bool-cases (text_eq (request_text k) (request_text n))) [
      | inl same ↦ rw same (
          ap some
            (request_text-injective k n ((text_eq_iff (request_text k) (request_text n)).0 same)))
      | inr other ↦ rw other (
          request_named-request_text n k
            (ground (arith, other, text_eq_iff (request_text k) (request_text n), ap request_text)))
    ]

is_integer-code : (code : ErrorCode) → is_integer (some (number (code_text code))) ≡ true
unfolding is_integer code_text all
is_integer-code parse_error = refl
is_integer-code invalid_request = refl
is_integer-code method_not_found = refl
is_integer-code invalid_params = refl
is_integer-code internal_error = refl

-- What the engine answers to a request of the client, its result or an error, the client takes as
-- the reply to that request, and as nothing else.
pub classify-reply_json :
    (n next_id : ℕ) (message : Text) (body : Json) (code : ErrorCode)
    → n < next_id
    → (classify next_id (some (reply_json message (result (string (request_text n)) body)))
        ≡ reply n false)
      × (classify next_id (some (reply_json message (failure (string (request_text n)) code)))
          ≡ reply n true)
unfolding classify classify_object reply_json reply_of or_null is_id is_version is_there is_string
    is_error_object has_fields has_only member_of mem_text text_eq any all
classify-reply_json n next_id message body code less = (
  ap (λ o. reply_to_request o false) (request_named-request_text n next_id less)
      ∙ (unfold reply_to_request in refl),
  rw (is_integer-code code) (
      ap (λ o. reply_to_request o true) (request_named-request_text n next_id less)
      ∙ (unfold reply_to_request in refl)),
)
