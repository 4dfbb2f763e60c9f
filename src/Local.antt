-- ===== src/Local.antt =====
-- engine/local.py: the components that an engine hosts in its process.
pub mod State
pub mod Statuses
pub mod Results
pub mod Events
pub mod Ends
pub mod Commands
pub mod Suspensions
pub mod Run
pub mod Hosting
pub mod Parameters
pub mod Bindings
mod Stored
mod Opening
mod Starting
mod Aborting
mod Aborted
mod Superseded
mod Listed
mod Errors
pub mod Kept
mod Recent
mod Publishing
mod Turns
mod InTurn
mod Taking
mod Turning
pub mod Steps
mod Orderly
mod Tests
