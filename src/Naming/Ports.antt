-- ===== src/Naming/Ports.antt =====
-- find_a_free_port_for_client and find_storage_server_port.
pub mod Free
use network_file_system_in_c.Base.{
  Bool, Option, if◌then◌else◌, is_neg, minus_one, none, not, pos, some, suc, true, zero, ℕ, ℤ, ◌%◌,
  ◌+◌,
}
use network_file_system_in_c.Lru.{update}
use network_file_system_in_c.Naming.State.{M, Network, Server, client_ports, done, server_ports}

-- The first index from `i` on, of the `k` that are left, with the flag.
unfoldable pub first_index : (ℕ → Bool) → ℕ → ℕ → Option ℕ
first_index flag zero i = none
first_index flag (suc k) i =
    let later = first_index flag k (suc i) in if flag i then some i else later

-- -1 where there is none.
abbrev pub index_of : Option ℕ → ℤ
index_of none = minus_one
index_of (some i) = pos i

-- What find_a_free_port_for_client returns; or send_data_to_client has ended the process.
pub data Taken : Type 0 where
  free_port : ℤ → Taken
  exits : Taken

-- The port that is found is marked as taken and sent to the client, with the result of that send: a
-- send that fails is followed by exit(1). `client_lock` is held only while the search goes on. The port number
-- stands for its decimal text.
unfoldable pub take_port : Server → ℤ → Option ℕ → Taken × Option ℕ × Server
take_port s sent none = (free_port minus_one, none, s)
take_port s sent (some i) = (
  if is_neg sent then exits else free_port (pos i),
  some (i + 5100),
  record s { client_available = update s.client_available i true },
)

unfoldable pub find_a_free_port_for_client : Server → ℤ → Taken × Option ℕ × Server
find_a_free_port_for_client s sent =
    take_port s sent (first_index (λ i. not (s.client_available i)) client_ports 0)

module _ (net : Network) where
  -- rand() % SERVER_PORT is tried first, then the servers in order.
  unfoldable pub find_storage_server_port : M ℤ
  find_storage_server_port s =
      let num = net.random s.rands % server_ports in
      done
        (if s.server_available num
          then pos num
          else index_of (first_index s.server_available server_ports 0))
        (record s { rands = suc s.rands })
