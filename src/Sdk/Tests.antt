-- ===== src/Sdk/Tests.antt =====
-- transport.py: a connection with one request that is answered.
use openrois.Common.{
  ◌≤◌, ◌≡◌, ◌⊎◌, refl, true, false, none, some, [], ◌∷◌, ◌++◌, any, drop_oldest, arith,
}
use openrois.Common.Table.{find, erase}
use openrois.Sdk.Transport.{
  TransportState, Transport, reply, fault, is_connected, is_disconnected, is_closing, emit,
  start_connect, end_connect, register, settle, settle_request, dispatch, receive, leave, done_at,
  end_send, is_pending,
}
use openrois.Peer.Json.{null, string}
use openrois.Peer.Answer.{result, failure, internal_error}
use openrois.Sdk.Receive.{request_text, classify, reply_json}
use openrois.Sdk.Replies.{classify-reply_json}
use openrois.Sdk.Settled
use openrois.Sdk.Settled.{Reach-settled}
use openrois.Sdk.Times.{times}

abbrev new_transport : Transport
new_transport = record {
  state = TransportState.disconnected;
  close_request = none;
  pending = [];
  abandoned = [];
  next_id = 1;
  answers = [];
  events = [];
}

abbrev asking : Transport
asking = register (end_connect (start_connect new_transport) true)

abbrev answered : Transport
answered = receive asking (reply 1 false)

answered-Reach : Settled.Reach new_transport answered
unfolding is_disconnected is_connected start_connect end_connect is_closing emit
answered-Reach =
    Settled.next
      (Settled.next
        (Settled.next (Settled.next Settled.here (Settled.begins_connect refl))
          (Settled.ends_connect true refl))
        (Settled.sends refl))
      (Settled.receives (reply 1 false))

Reach-settled_example :
    (times 1 answered.answers ≤ 1)
    × ((is_connected answered.state ≡ true) ⊎ (answered.pending ≡ []))
Reach-settled_example = Reach-settled new_transport answered 1 refl refl answered-Reach

-- A second reply to the request is a fault, and one to a request whose caller was cancelled is not.
repeated : (receive answered (reply 1 false)).events ≡ answered.events ++ fault ∷ []
unfolding receive dispatch settle_request settle emit is_connected start_connect end_connect
    is_closing register find erase any
repeated = refl

after_cancel : (receive (end_send (leave asking 1) 1 true) (reply 1 false)).events ≡ asking.events
unfolding receive dispatch settle_request settle emit is_connected start_connect end_connect
    is_closing register find erase any end_send leave done_at is_pending drop_oldest
after_cancel = refl

classify-reply_json_example :
    (classify 2 (some (reply_json [] (result (string (request_text 1)) null))) ≡ reply 1 false)
    × (classify 2 (some (reply_json [] (failure (string (request_text 1)) internal_error)))
        ≡ reply 1 true)
classify-reply_json_example = classify-reply_json 1 2 [] null internal_error (omega arith)
