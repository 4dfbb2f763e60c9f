-- ===== src/Child.antt =====
-- engine/src/openrois/engine/child.py: the profile of a child engine, and the requests to it.
pub mod Discovery
pub mod Owned
pub mod Pending
pub mod Late
pub mod Reached
mod Tests
