-- ===== src/Peer/Order.antt =====
-- jsonrpc.py: messages go out in the order in which they were put.
use openrois.Common.{
  ◌≡◌, refl, sym, ap, ◌∙◌, Bool, true, false, List, [], ◌∷◌, ◌++◌, append_assoc, if◌then◌else◌,
  Text,
}
use openrois.Peer.Outbox.{Outbox, new_outbox, put_message, write_round, write, close}

-- The states of an outbox, with the messages that were put on the way to it.
pub data Run : List Text → Outbox → Type 0 where
  opened : Run [] new_outbox
  puts : {ms : List Text} {o : Outbox} (m : Text) → Run ms o → Run (ms ++ m ∷ []) (put_message o m)
  writes : {ms : List Text} {o : Outbox} → Run ms o → Run ms (write o)
  closes : {ms : List Text} {o : Outbox} → Run ms o → Run ms (close o)

write_round-order :
    (o : Outbox) (q : List Text)
    → o.queue ≡ q
    → (write_round o q).sent ++ (write_round o q).queue ≡ o.sent ++ o.queue
unfolding write_round
write_round-order o [] h = refl
write_round-order o (m ∷ rest) h = of_writing o.writing
  where
    of_writing :
        (b : Bool)
        → (if b then record o { queue = rest; sent = o.sent ++ m ∷ [] } else o).sent
            ++ (if b then record o { queue = rest; sent = o.sent ++ m ∷ [] } else o).queue
          ≡ o.sent ++ o.queue
    of_writing true = append_assoc o.sent (m ∷ []) rest ∙ ap (λ t. o.sent ++ t) (sym h)
    of_writing false = refl

-- Whatever the order of puts, rounds of the writer and a close, what was sent and then what is queued
-- are the messages that were put, in their order, each once.
pub sent-in_order : {ms : List Text} {o : Outbox} → Run ms o → o.sent ++ o.queue ≡ ms
unfolding put_message write close
sent-in_order opened = refl
sent-in_order (puts {ms} {o} m r) =
    sym (append_assoc o.sent o.queue (m ∷ [])) ∙ ap (λ t. t ++ m ∷ []) (sent-in_order r)
sent-in_order (writes {ms} {o} r) = write_round-order o o.queue refl ∙ sent-in_order r
sent-in_order (closes {ms} {o} r) = sent-in_order r
