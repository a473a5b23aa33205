-- ===== src/Tries.antt =====
-- Tries.c and Tries.h: the trie that maps a path to the indices of the storage servers that hold
-- it. The children of this module hold the operations, and below each of them its proofs; Marked and
-- Register hold what Naming_server.c does on the trie.
pub mod Ports
pub mod Node
pub mod Insert
pub mod Search
pub mod Delete
pub mod Entry
pub mod Listing
pub mod Valid
pub mod Marked
pub mod Register
