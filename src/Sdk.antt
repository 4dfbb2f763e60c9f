-- ===== src/Sdk.antt =====
-- sdk/python, transport.py: the connection of a client to an engine.
pub mod Transport
pub mod Receive
mod Replies
pub mod Times
pub mod Settled
mod Tests
