-- ===== src/Sdk/Receive.antt =====
-- transport.py: `_receive`, which takes a message for a reply, a notification or neither by its fields;
-- and the text of a reply as jsonrpc.py writes it. `none` is what `json.loads` refuses.
use openrois.Common.{
  ℕ, zero, suc, Bool, true, false, ◌&&◌, ◌||◌, Option, none, some, List, [], ◌∷◌, ◌++◌,
  if◌then◌else◌, all, leb, ◌==◌, length, Text, text_eq, codes,
}
use openrois.Common.Numerals.{decimal}
use openrois.Condition.Parse.{mem_text}
use openrois.Peer.Json.{Json, number, string, array, object, Members, no_fields, field, member_of}
use openrois.Peer.Answer.{
  ErrorCode, parse_error, invalid_request, method_not_found, invalid_params, internal_error, Reply,
  result, failure, is_id, is_there, is_string, is_version, or_null,
}
use openrois.Sdk.Transport.{Transport, Message, reply, stray_reply, notification, unusable, receive}

-- f"req-{n}"
unfoldable pub request_text : ℕ → Text
request_text n = codes "req-" ++ decimal n

-- The request below a number with this id: `_pending` and `_abandoned` have no other ids.
unfoldable pub request_named : Text → ℕ → Option ℕ
request_named id zero = none
request_named id (suc n) =
    let earlier = request_named id n in if text_eq (request_text n) id then some n else earlier

unfoldable pub reply_to_request : Option ℕ → Bool → Message
reply_to_request none is_fault = stray_reply
reply_to_request (some n) is_fault = reply n is_fault

unfoldable pub reply_of : ℕ → Json → Bool → Message
reply_of next_id (string id) is_fault = reply_to_request (request_named id next_id) is_fault
reply_of next_id id is_fault = stray_reply

-- `fields <= names`, and `fields == names`
unfoldable pub has_only : List Text → Members → Bool
has_only names no_fields = true
has_only names (field k v members) = mem_text k names && has_only names members

unfoldable pub has_fields : List Text → Members → Bool
has_fields names members =
    has_only names members && all (λ name. is_there (member_of name members)) names

-- `type(value) is int`, of a number as it is written
unfoldable pub is_integer : Option Json → Bool
is_integer (some (number text)) = all (λ c. (leb b'0' c && leb c b'9') || c == b'-') text
is_integer _ = false

-- `_is_error_object`
unfoldable pub is_error_object : Option Json → Bool
is_error_object (some (object members)) =
    has_only (codes "code" ∷ codes "message" ∷ codes "data" ∷ []) members
    && is_integer (member_of (codes "code") members)
    && is_string (member_of (codes "message") members)
is_error_object _ = false

unfoldable pub is_params : Option Json → Bool
is_params none = true
is_params (some (object members)) = true
is_params (some (array items)) = true
is_params _ = false

unfoldable pub is_long_string : Option Json → Bool
is_long_string (some (string text)) = leb 3 (length text)
is_long_string _ = false

unfoldable pub classify_object : ℕ → Members → Message
classify_object next_id members =
    let id = member_of (codes "id") members in
    let versioned = is_version (member_of (codes "jsonrpc") members) in
    if versioned
      && is_id id
      && has_fields (codes "jsonrpc" ∷ codes "id" ∷ codes "result" ∷ []) members
    then reply_of next_id (or_null id) false
    else if versioned
        && is_id id
        && has_fields (codes "jsonrpc" ∷ codes "id" ∷ codes "error" ∷ []) members
        && is_error_object (member_of (codes "error") members)
    then reply_of next_id (or_null id) true
    else if versioned
        && has_only (codes "jsonrpc" ∷ codes "method" ∷ codes "params" ∷ []) members
        && is_long_string (member_of (codes "method") members)
        && is_params (member_of (codes "params") members)
    then notification
    else unusable

-- the message that `_receive` takes a text for
unfoldable pub classify : ℕ → Option Json → Message
classify next_id (some (object members)) = classify_object next_id members
classify next_id _ = unusable

unfoldable pub receive_text : Transport → Option Json → Transport
receive_text t message = receive t (classify t.next_id message)

-- `JsonRpcErrorCode`
unfoldable pub code_text : ErrorCode → Text
code_text parse_error = codes "-32700"
code_text invalid_request = codes "-32600"
code_text method_not_found = codes "-32601"
code_text invalid_params = codes "-32602"
code_text internal_error = codes "-32603"

-- `_error` without data, and the reply with a result, as JSON
unfoldable pub reply_json : Text → Reply → Json
reply_json message (result id body) = object (
    field (codes "jsonrpc") (string (codes "2.0"))
      (field (codes "id") id (field (codes "result") body no_fields)))
reply_json message (failure id code) = object (
    field (codes "jsonrpc") (string (codes "2.0")) (
      field (codes "id") id (
        field (codes "error")
          (object (
            field (codes "code") (number (code_text code))
              (field (codes "message") (string message) no_fields)))
          no_fields)))
