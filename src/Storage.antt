-- ===== src/Storage.antt =====
-- The storage server: its files (Disk), SS_functions.c (Paths), and Storage_server.c: its state
-- (Machine), the transfer of files (Transfer), the list of its files (Listing) and the commands that
-- it serves (Runner).
pub mod Disk
pub mod Listing
pub mod Machine
pub mod Paths
pub mod Runner
pub mod Transfer
