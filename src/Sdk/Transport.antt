-- ===== src/Sdk/Transport.antt =====
-- transport.py: `WebSocketTransport`. A request is the number in its id, and a future is whether it is
-- done; what futures are settled with and what listeners are told is in lists, oldest first.
use openrois.Common.{
  ℕ, suc, Bool, true, false, not, ◌&&◌, ◌||◌, Option, none, some, List, [], ◌∷◌, ◌++◌,
  if◌then◌else◌, ◌==◌, leb, any, drop_oldest, Text,
}
use openrois.Common.Table.{Table, find, erase}

-- `TransportState`
pub data TransportState : Type 0 where
  disconnected connecting connected closing : TransportState

-- what a future is settled with: a result, the error of a reply, or the end of the connection
pub data Answer : Type 0 where
  result error_reply lost : Answer

-- what listeners are told
pub data Event : Type 0 where
  opened notified fault : Event
  closed : ℕ → Text → Event

pub record Transport : Type 0 where
  pub state : TransportState
  pub close_request : Option (ℕ × Text)
  -- `_pending`: whether the future of each request is done, which its caller brings about by leaving
  pub pending : Table Bool
  pub abandoned : List ℕ
  pub next_id : ℕ
  pub answers : List (ℕ × Answer)
  pub events : List Event

-- `MAX_ABANDONED_REQUESTS`
abbrev pub max_abandoned : ℕ
max_abandoned = 1024

unfoldable pub is_connected : TransportState → Bool
is_connected TransportState.connected = true
is_connected _ = false

unfoldable pub is_disconnected : TransportState → Bool
is_disconnected TransportState.disconnected = true
is_disconnected _ = false

unfoldable pub is_closing : TransportState → Bool
is_closing TransportState.closing = true
is_closing _ = false

unfoldable pub emit : Transport → Event → Transport
emit t event = record t { events = t.events ++ event ∷ [] }

-- `connect` up to its wait, behind its test; `none` is its RoISConnectionError
unfoldable pub start_connect : Transport → Transport
start_connect t = record t { state = TransportState.connecting }

unfoldable pub begin_connect : Transport → Option Transport
begin_connect t = if is_disconnected t.state then some (start_connect t) else none

-- `connect` from the end of the handshake on, which opened a socket or not
unfoldable pub end_connect : Transport → Bool → Transport
end_connect t is_open =
    if is_open && not (is_closing t.state)
    then emit (record t { state = TransportState.connected }) opened
    else record t { state = TransportState.disconnected }

-- `_abort_connect`
unfoldable pub abort_connect : Transport → Transport
abort_connect t = record t { state = TransportState.closing }

-- `send` up to its wait, behind its test; `none` is its TransportError
unfoldable pub register : Transport → Transport
register t = record t { next_id = suc t.next_id; pending = t.pending ++ (t.next_id, false) ∷ [] }

unfoldable pub begin_send : Transport → Option (Transport × ℕ)
begin_send t = if is_connected t.state then some (register t, t.next_id) else none

-- the caller of a request leaves, which cancels its future
unfoldable pub done_at : ℕ → Table Bool → Table Bool
done_at id [] = []
done_at id ((i, is_done) ∷ pending) = (i, is_done || i == id) ∷ done_at id pending

unfoldable pub leave : Transport → ℕ → Transport
leave t id = record t { pending = done_at id t.pending }

unfoldable pub is_pending : Option Bool → Bool
is_pending none = false
is_pending (some is_done) = true

-- `send` from the end of its wait on, and whether a cancellation ended it
unfoldable pub end_send : Transport → ℕ → Bool → Transport
end_send t id is_cancelled = record t {
  abandoned =
      if is_cancelled && is_pending (find id t.pending)
      then drop_oldest max_abandoned (t.abandoned ++ id ∷ [])
      else t.abandoned;
  pending = erase id t.pending;
}

-- the answers of `_fail_pending`
unfoldable pub all_lost : Table Bool → List (ℕ × Answer)
all_lost [] = []
all_lost ((i, is_done) ∷ pending) =
    if is_done then all_lost pending else (i, lost) ∷ all_lost pending

-- `_fail_pending`
unfoldable pub fail_pending : Transport → Transport
fail_pending t = record t { pending = []; answers = t.answers ++ all_lost t.pending }

-- the tests of `close` on its code and the length of its reason
unfoldable pub is_close : ℕ → ℕ → Bool
is_close code reason_bytes =
    (code == 1000 || (leb 3000 code && leb code 4999)) && leb reason_bytes 123

-- `_start_close`
unfoldable pub start_close : Transport → ℕ → Text → Transport
start_close t code reason =
    if is_connected t.state
    then fail_pending
        (record t { state = TransportState.closing; close_request = some (code, reason) })
    else t

unfoldable pub outcome_of : Option (ℕ × Text) → ℕ × Text → ℕ × Text
outcome_of none outcome = outcome
outcome_of (some asked) outcome = asked

-- `_finish`
unfoldable pub finish : Transport → ℕ × Text → Transport
finish t outcome =
    let (code, reason) = outcome_of t.close_request outcome in
    emit
      (record (fail_pending (record t { close_request = none })) {
        state = TransportState.disconnected;
      })
      (closed code reason)

unfoldable pub answer_with : Bool → Answer
answer_with is_fault = if is_fault then error_reply else result

-- `_settle_request` of a reply with the id of this request
unfoldable pub settle : Transport → ℕ → Bool → Option Bool → Transport
settle t id is_fault none = if any (λ i. i == id) t.abandoned then t else emit t fault
settle t id is_fault (some true) = record t { pending = erase id t.pending }
settle t id is_fault (some false) = record t {
  pending = erase id t.pending;
  answers = t.answers ++ (id, answer_with is_fault) ∷ [];
}

unfoldable pub settle_request : Transport → ℕ → Bool → Transport
settle_request t id is_fault = settle t id is_fault (find id t.pending)

-- What `_receive` takes a message for: a reply to a request, a reply with another id, a notification,
-- or none of these.
pub data Message : Type 0 where
  reply : ℕ → Bool → Message
  stray_reply notification unusable : Message

unfoldable pub dispatch : Transport → Message → Transport
dispatch t (reply id is_fault) = settle_request t id is_fault
dispatch t stray_reply = emit t fault
dispatch t notification = emit t notified
dispatch t unusable = emit t fault

-- a message in `_read`
unfoldable pub receive : Transport → Message → Transport
receive t message = if is_connected t.state then dispatch t message else t
