-- ===== src/Engine.antt =====
-- engine/src/openrois/engine/engine.py and session.py: the HRI engine. A handler that waits for a
-- source is cut where it waits: the part up to the call, and the part that goes on with the reply,
-- each a step of its own, so that other steps may come between the two.
pub mod State
pub mod Routes
pub mod Binds
pub mod Commands
pub mod Execute
pub mod Events
pub mod Sessions
pub mod Exclusive
pub mod BindAny
pub mod Frames
pub mod Tasks
pub mod Steps
pub mod Completion
pub mod Prune
pub mod Errors
pub mod Routing
pub mod Ending
pub mod CommandIds
pub mod Busy
pub mod Holding
pub mod Selection
pub mod Pick
pub mod Requests
pub mod Sequences
mod Running
pub mod Selecting
pub mod Picking
pub mod Parameters
pub mod Samples
mod Tests
mod SelectionTests
mod SequenceTests
