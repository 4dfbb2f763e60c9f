-- ===== src/Peer/Outbox.antt =====
-- jsonrpc.py: `Outbox`, the queue of a connection and its writer.
use openrois.Common.{Bool, true, false, List, [], ◌∷◌, ◌++◌, if◌then◌else◌, Text}

-- `_queue`, whether `_writer` runs, and what was given to `_send`, oldest first
pub record Outbox : Type 0 where
  pub queue : List Text
  pub writing : Bool
  pub sent : List Text

-- `__init__`
abbrev pub new_outbox : Outbox
new_outbox = record { queue = []; writing = true; sent = [] }

-- `put`
unfoldable pub put_message : Outbox → Text → Outbox
put_message o message = record o { queue = o.queue ++ message ∷ [] }

-- One round of `_write`. An exception of `_send` is logged, and the message counts as given to it.
unfoldable pub write_round : Outbox → List Text → Outbox
write_round o [] = o
write_round o (message ∷ rest) =
    if o.writing then record o { queue = rest; sent = o.sent ++ message ∷ [] } else o

unfoldable pub write : Outbox → Outbox
write o = write_round o o.queue

-- `close`
unfoldable pub close : Outbox → Outbox
close o = record o { writing = false }
