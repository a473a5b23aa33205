-- ===== src/Examples.antt =====
-- Runs of the model on concrete inputs, and each theorem with hypotheses at one of them.
pub mod Tries
pub mod Tables
pub mod Queue
pub mod Handlers
pub mod Servers
pub mod Opened
pub mod Created
pub mod Deleted
pub mod Copied
pub mod Storage
pub mod Transfers
pub mod Rounds
pub mod Typed
