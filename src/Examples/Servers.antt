-- ===== src/Examples/Servers.antt =====
-- The choice of a port, of a storage server and of a copy, on a concrete server.
use network_file_system_in_c.Base.{[], codes, negsuc, pos, some, suc, ℤ, ◌≡◌, ◌⊎◌}
use network_file_system_in_c.Examples.Handlers.{fresh_server, network_of}
use network_file_system_in_c.Naming.Copies.{folder_on}
use network_file_system_in_c.Naming.Open.{read_from}
use network_file_system_in_c.Naming.Open.Fallback.{read_from_lem, some_up}
use network_file_system_in_c.Naming.Ports.{find_a_free_port_for_client, find_storage_server_port}
use network_file_system_in_c.Naming.Ports.Free.{
  IsChosen, PortGiven, find_a_free_port_for_client_lem, find_storage_server_port_lem,
}
use network_file_system_in_c.Naming.State.{done}

read_from_example :
    let t = (read_from 0 fresh_server.server_available).0 in
    let folder = (read_from 0 fresh_server.server_available).1 in
    ((t ≡ 0) × (folder ≡ codes "main") ⊎ folder_on t 0 ≡ some folder)
    × (fresh_server.server_available t ≡ some_up 0 fresh_server.server_available)
read_from_example = read_from_lem 0 fresh_server.server_available

find_a_free_port_for_client_example :
    PortGiven fresh_server (negsuc 0) (find_a_free_port_for_client fresh_server (negsuc 0))
find_a_free_port_for_client_example = find_a_free_port_for_client_lem fresh_server (negsuc 0)

find_storage_server_port_example :
    (i : ℤ) × (find_storage_server_port (network_of (pos 1) (pos 1) []) fresh_server
      ≡ done i (record fresh_server { rands = suc fresh_server.rands }))
    × IsChosen fresh_server.server_available 0 i
find_storage_server_port_example =
    find_storage_server_port_lem (network_of (pos 1) (pos 1) []) fresh_server
