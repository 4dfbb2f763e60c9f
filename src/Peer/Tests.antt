-- ===== src/Peer/Tests.antt =====
-- jsonrpc.py: the theorems at one request and at one run of an outbox.
use openrois.Common.{◌≡◌, refl, Bool, true, Option, some, [], ◌∷◌, ◌++◌, Text, codes}
use openrois.Peer.Json.{Json, number, string, object, no_fields, field}
use openrois.Peer.Answer.{
  Loaded, reads, overlong, raises, answer_payload, answer, is_notification, id_of,
}
use openrois.Peer.Outbox.{new_outbox, put_message, write, close}
use openrois.Peer.ReplyIds.{Corresponds, answer-Corresponds}
use openrois.Peer.Order.{Run, opened, puts, writes, closes, sent-in_order}

abbrev request : Json
request = object (
    field (codes "jsonrpc") (string (codes "2.0")) (
      field (codes "id") (number (codes "7"))
        (field (codes "method") (string (codes "rois.system.connect")) no_fields)))

abbrev loads_request : Text → Loaded
loads_request raw = reads request

abbrev is_any : Text → Bool
is_any method = true

abbrev takes_all : Text → Json → Option Json
takes_all method params = some params

answer-Corresponds_example :
    Corresponds
      (is_notification request)
      (id_of request)
      (answer is_any takes_all loads_request (codes "{}"))
answer-Corresponds_example =
    answer-Corresponds is_any takes_all loads_request (codes "{}") request refl

abbrev two_puts :
    Run
      (codes "a" ∷ codes "b" ∷ [])
      (close (write (put_message (put_message new_outbox (codes "a")) (codes "b"))))
two_puts = closes (writes (puts (codes "b") (puts (codes "a") opened)))

sent-in_order_example :
    (close (write (put_message (put_message new_outbox (codes "a")) (codes "b")))).sent
      ++ (close (write (put_message (put_message new_outbox (codes "a")) (codes "b")))).queue
    ≡ codes "a" ∷ codes "b" ∷ []
sent-in_order_example = sent-in_order two_puts

-- a message with an integer of too many digits is not answered
overlong_unanswered : answer is_any takes_all (λ raw. overlong) (codes "{}") ≡ raises
unfolding answer answer_payload
overlong_unanswered = refl
