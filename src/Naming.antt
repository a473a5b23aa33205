-- ===== src/Naming.antt =====
-- Naming_server.c, by handler.
pub mod State
pub mod Ports
pub mod Create
pub mod Open
pub mod Copies
pub mod Delete
pub mod Listing
pub mod Copy
pub mod CopyDir
pub mod Dispatch
pub mod Kept
pub mod System
pub mod Redundancy
pub mod Threads
