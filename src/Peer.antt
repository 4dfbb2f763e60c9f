-- ===== src/Peer.antt =====
-- engine/src/openrois/engine/jsonrpc.py: the JSON-RPC peer of a connection.
pub mod Json
pub mod Answer
pub mod Outbox
pub mod ReplyIds
pub mod Order
mod Tests
