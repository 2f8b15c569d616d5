-- ===== src/Handlers.antt =====
-- The handlers of the messages, each over the same world.
pub mod Push
pub mod Sdwan
pub mod Query
pub mod Nat
pub mod Login
pub mod Report
pub mod Stable
pub mod Sound
pub mod Round
pub mod Safe
pub mod Relay
pub mod Dispatch
mod Tests
