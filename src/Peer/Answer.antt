-- ===== src/Peer/Answer.antt =====
-- jsonrpc.py: `answer`, cut where it waits for the engine. `loads` stands for `json.loads`, `is_method`
-- for the lookup in the catalog, and `validate` for the validation of the params by its model.
use openrois.Common.{
  Bool, true, false, ◌&&◌, Option, none, some, if◌then◌else◌, Text, text_eq, codes,
}
use openrois.Peer.Json.{
  Json, null, boolean, number, string, array, object, Members, no_fields, member_of,
}

-- `JsonRpcErrorCode`
pub data ErrorCode : Type 0 where
  parse_error invalid_request method_not_found invalid_params internal_error : ErrorCode

-- A reply: the id, and the result or the code of the error.
pub data Reply : Type 0 where
  result : Json → Json → Reply
  failure : Json → ErrorCode → Reply

-- `_is_id`
unfoldable pub is_id : Option Json → Bool
is_id none = true
is_id (some null) = true
is_id (some (number n)) = true
is_id (some (string s)) = true
is_id (some (boolean b)) = false
is_id (some (array items)) = false
is_id (some (object members)) = false

-- the value of `payload.get("id")`, where a missing one is null
unfoldable pub or_null : Option Json → Json
or_null none = null
or_null (some v) = v

-- `_id_of`
unfoldable pub id_of : Json → Json
id_of (object members) =
    if is_id (member_of (codes "id") members)
    then or_null (member_of (codes "id") members)
    else null
id_of payload = null

unfoldable pub is_there : Option Json → Bool
is_there none = false
is_there (some v) = true

unfoldable pub is_string : Option Json → Bool
is_string (some (string s)) = true
is_string _ = false

unfoldable pub is_version : Option Json → Bool
is_version (some (string s)) = text_eq s (codes "2.0")
is_version _ = false

-- `_is_request`
unfoldable pub is_request : Json → Bool
is_request (object members) =
    is_version (member_of (codes "jsonrpc") members)
    && is_string (member_of (codes "method") members)
    && is_there (member_of (codes "id") members)
    && is_id (member_of (codes "id") members)
is_request payload = false

-- a method and no id
unfoldable pub is_notification : Json → Bool
is_notification (object members) =
    is_there (member_of (codes "method") members)
    && (if is_there (member_of (codes "id") members) then false else true)
is_notification payload = false

unfoldable pub method_of : Option Json → Text
method_of (some (string s)) = s
method_of _ = codes ""

-- `{}` for params that are missing or null
unfoldable pub params_of : Option Json → Json
params_of none = object no_fields
params_of (some null) = object no_fields
params_of (some v) = v

-- What `json.loads` does with a message: it reads it, it raises one of the exceptions that `answer`
-- catches, or it raises the ValueError for an integer with too many digits, which `answer` does not.
pub data Loaded : Type 0 where
  reads : Json → Loaded
  unreadable overlong : Loaded

-- What `answer` does up to its wait: no reply, an exception, a reply, or a request that the engine
-- handles. `serve_session` logs the exception, and the message has no reply.
pub data Answer (P : Type 0) : Type 0 where
  silent raises : Answer P
  replies : Reply → Answer P
  handles : Json → Text → P → Answer P

module _ {P : Type 0} (is_method : Text → Bool) (validate : Text → Json → Option P) where
  unfoldable pub answer_valid : Json → Text → Option P → Answer P
  answer_valid request_id method none = replies (failure request_id invalid_params)
  answer_valid request_id method (some params) = handles request_id method params

  unfoldable pub answer_request : Json → Members → Answer P
  answer_request request_id members =
      let method = method_of (member_of (codes "method") members) in
      if is_method method
      then answer_valid request_id method
          (validate method (params_of (member_of (codes "params") members)))
      else replies (failure request_id method_not_found)

  unfoldable pub answer_object : Members → Answer P
  answer_object members =
      if is_notification (object members)
      then silent
      else if is_request (object members)
      then answer_request (or_null (member_of (codes "id") members)) members
      else replies (failure (id_of (object members)) invalid_request)

  unfoldable pub answer_json : Json → Answer P
  answer_json (object members) = answer_object members
  answer_json payload = replies (failure (id_of payload) invalid_request)

  unfoldable pub answer_payload : Loaded → Answer P
  answer_payload (reads payload) = answer_json payload
  answer_payload unreadable = replies (failure null parse_error)
  answer_payload overlong = raises

  -- `answer`, up to the call of `engine.handle`
  unfoldable pub answer : (Text → Loaded) → Text → Answer P
  answer loads raw = answer_payload (loads raw)

-- `answer` from the end of `engine.handle` on: `none` is an exception that it raised
unfoldable pub answer_handled : Json → Option Json → Reply
answer_handled request_id none = failure request_id internal_error
answer_handled request_id (some body) = result request_id body
