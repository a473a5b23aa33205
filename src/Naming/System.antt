-- ===== src/Naming/System.antt =====
-- The naming server as a whole: the rounds of its threads, one after the other, in any order.
pub mod Kept
pub mod Blocked
pub mod Joined
pub mod Locks
pub mod Valid
use network_file_system_in_c.Base.{Option, none, some, ℕ, ℤ, ◌≡◌}
use network_file_system_in_c.Naming.Dispatch.{client_round}
use network_file_system_in_c.Naming.Redundancy.{redundant_round}
use network_file_system_in_c.Naming.State.{
  Command, Network, Outcome, Server, done, stuck, undefined,
}
use network_file_system_in_c.Naming.Threads.{
  Fate, Registration, carries_on, client_master_round, empty_round, process_ends,
  server_master_round,
}

-- The state that a round leaves to the other threads: also one that waits for ever leaves it.
unfoldable pub left_by : {A : Type 0} → Outcome A → Option Server
left_by (done a s) = some s
left_by (undefined s) = none
left_by (stuck s) = some s

-- A round after which the process has ended leaves none.
unfoldable pub going_on : Outcome Fate → Option Server
going_on (done carries_on s) = some s
going_on (done process_ends s) = none
going_on (undefined s) = none
going_on (stuck s) = some s

-- A round of one of the threads, with what the system calls bring to it.
pub data Step (net : Network) (s s' : Server) : Type 0 where
  -- clientcommandtemporary of the client at an index
  serves :
      (index : ℕ) (r : ℤ) (c : Command)
      → left_by (client_round net index r c s) ≡ some s'
      → Step net s s'
  -- client_master_starter
  joins :
      (called sent joined : ℤ)
      → going_on (client_master_round called sent joined s) ≡ some s'
      → Step net s s'
  -- server_master_starter
  registers :
      (called : ℤ) (ss_nm : Registration) (first second : ℤ)
      → left_by (server_master_round called ss_nm first second s) ≡ some s'
      → Step net s s'
  -- empty_func of the storage server at an index
  leaves : (index : ℕ) (r : ℤ) → left_by (empty_round index r s) ≡ some s' → Step net s s'
  -- redundant_copy of the storage server at an index
  mirrors : (index : ℕ) → left_by (redundant_round net index s) ≡ some s' → Step net s s'

pub data Reach (net : Network) (s : Server) : Server → Type 0 where
  here : Reach net s s
  next : {t u : Server} → Reach net s t → Step net t u → Reach net s u
