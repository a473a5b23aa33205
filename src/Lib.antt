-- ===== src/Lib.antt =====
-- A network file system: a naming server (Naming_server.c) that keeps a trie from paths to the
-- storage servers that hold them and answers the commands of clients, with a cache in front of the
-- trie; storage servers (Storage_server.c, SS_functions.c) that keep the files; clients (Client.c).
-- This library models the naming server with its data structures, the storage server, and of a client
-- what it makes of a line that is typed, and how it reads and writes a file.
--
-- Base: helpers, the C int as an integer that does not wrap, strings as lists of bytes, strtok.
-- Tries: the trie of Tries.c, a module for each operation. A TriesPtr is NULL or a node; the array
--   of 128 children is a function. `none` is undefined behaviour: NULL dereferenced, or an index
--   out of range. Tries.Marked and Tries.Register hold what Naming_server.c does on the trie.
-- Hashtable: hashtable.c, a list of rows.
-- Lru: LRU.c on a heap of nodes, in the monad of Lru.Heap, where a fault is a NULL or freed pointer.
-- Queue: queue.c on a heap of its elements; Queue.Fifo relates it to a list.
-- Naming: Naming_server.c. Naming.State has the globals that the handlers use and a monad whose
--   outcomes are a return, undefined behaviour, and a wait without end. A handler runs alone: a
--   semaphore is its value; a wait at 0 is stuck, and so is a recv to which nothing ever comes.
--   Naming.Ports is find_a_free_port_for_client and find_storage_server_port, Naming.Create is Createfunctionality, Naming.Open is
--   Readfunctionality, Writefunctionality and Infofunctionality, Naming.Copies the place of the
--   copies of a server, as Readfunctionality reads them and as redundant_copy makes them,
--   Naming.Delete is Deletefilefunctionality and Deletedirfunctionality,
--   Naming.Listing is JustLS and Lsfunctionality, Naming.Copy is copyfunctionality, Naming.CopyDir
--   is copydirfunctionality. The threads are rounds, one pass of the loop of each: Naming.Dispatch
--   is command_proccessor and clientcommandtemporary, Naming.Threads is client_master_starter,
--   server_master_starter and empty_func, Naming.Redundancy is redundant_copy. Naming.Kept has what
--   no handler changes. Naming.System is the server as a whole: any sequence of rounds of its threads.
-- Storage: the storage server. Storage.Disk is what its functions use of the file system: a list of
--   folders and files by their place, the last name first, and a current directory. Storage.Paths
--   is SS_functions.c; Storage.Machine has the state of Storage_server.c and a monad whose
--   outcomes are a return, the end of the process, undefined behaviour, and a wait without end;
--   Storage.Transfer is what sends and receives files, Storage.Listing listFilesRecursively and
--   MainCount, Storage.Runner a round of NM_runner and of C_runner.
-- Client: the line and the refused copies in main of Client.c. The bytes of args that are not written
--   are zero there, as they are after the first command. Client.Session is read_function,
--   write_function and info_function, as the list of what the client sends and shows.
-- Examples: runs on concrete inputs.
--
-- The naming server and the storage server meet in Storage.Transfer.Copied, where the chunks that one
-- storage server sends and the number of them that the naming server counts are what another stores;
-- a client and a storage server meet in Client.Session.Shown.
--
-- The network, rand(), whether fopen opens a file and what malloc leaves in a command are parameters
-- (Network): what each call returns, by its number, and which calls of recv never
-- return. What is sent or logged is recorded in the state.
-- A storage server has its own (World): what the system refuses, what each recv brings and which of
-- them never return, what a fwrite stores and whether fflush and fclose report an error, and what the
-- program rm does. A client has what it meets in a Session: the answers that come or never come, and
-- the line that is typed, if there is one before the end of the input.
--
-- Bounds and fuel: the loops of LRU.c run for at most one round more than there are addresses. The
-- loop of Deletedirfunctionality runs for at most one round more than the count of its folder. An int
-- has at most ten digits, and its conversion to float drops at most seven bits. listFilesRecursively
-- has a fuel of 4096: every folder that it enters takes room in its buffer of 4096 bytes.
-- Counts do not overflow, and a path with what is added to it stays within its buffer of 512 bytes.
-- The strings that the hash table hashes hold bytes below 128, where a char of C is not negative.
--
-- Not modelled: the answers that main of Client.c shows, sockets and start-up, get_port_name and the
-- connection to the naming server, the signal handlers, threads that run within a round of another
-- one, terminal output and time stamps. init_LL_Trie and init_LL_Trie_Head (Tries.c) have no return
-- statement; the model takes the list that they build.
pub mod Base
pub mod Client
pub mod Examples
pub mod Hashtable
pub mod Lru
pub mod Naming
pub mod Queue
pub mod Storage
pub mod Tries
