-- ===== src/Examples/Rounds.antt =====
-- The naming server as a whole, from a start with nothing in its trie.
use network_file_system_in_c.Base.{
  All, IsAscii, Str, [], ap, codes, inr, pos, refl, suc, tokens, tokens_from, true, ℕ, ℤ, ◌++◌, ◌∷◌,
  ◌≡◌,
}
use network_file_system_in_c.Examples.Handlers.{create_a, fresh_server, lt_of_ltb, network_of}
use network_file_system_in_c.Lru.{update}
use network_file_system_in_c.Naming.CopyDir.{Fetched, copy_entry_from, proceed}
use network_file_system_in_c.Naming.CopyDir.Emptied.{copy_entry_from-emptied, make_command}
use network_file_system_in_c.Naming.Create.{fits_256, with_slashes}
use network_file_system_in_c.Naming.Create.Prefixes.{prefixes}
use network_file_system_in_c.Naming.Dispatch.{command_processor}
use network_file_system_in_c.Naming.Kept.Rounds.{Processed, command_processor_lem}
use network_file_system_in_c.Naming.Ports.{
  find_a_free_port_for_client, find_storage_server_port, first_index, take_port,
}
use network_file_system_in_c.Naming.Redundancy.{redundant_round}
use network_file_system_in_c.Naming.State.{Command, Network, Server, command, done, stuck, ◌>>◌}
use network_file_system_in_c.Naming.State.Steps.{held}
use network_file_system_in_c.Naming.System.{Reach, going_on, here, joins, left_by, next, registers}
use network_file_system_in_c.Naming.System.Blocked.{client_blocked, client_master_round-refused}
use network_file_system_in_c.Naming.System.Joined.{server_master_round_lem}
use network_file_system_in_c.Naming.System.Locks.{GivenBack, redundant_round_lem}
use network_file_system_in_c.Naming.System.Valid.{Reach-IsValid}
use network_file_system_in_c.Naming.Threads.{
  Registration, carries_on, client_accepted, client_called, client_master_round, find_port,
  post_client_lock, post_master_client, server_master_round, wait_client_lock, wait_master_client,
}
use network_file_system_in_c.Tries.Node.{TriesHead}
use network_file_system_in_c.Tries.Register.Found.{IsRegistered}
use network_file_system_in_c.Tries.Valid.{IsValid, init_tries-IsValid}

abbrev quiet : Network
quiet = network_of (pos 1) (pos 1) []

abbrev two_paths : Registration
two_paths = record { port = 5201; ip = codes "127.0.0.1"; result = 97 ∷ 10 ∷ 98 ∷ 10 ∷ [] }

two_paths-IsAscii : All IsAscii (tokens 10 two_paths.result)
unfolding tokens tokens_from
two_paths-IsAscii = ((lt_of_ltb 97 128 refl, tt), ((lt_of_ltb 98 128 refl, tt), tt))

-- The first client has come.
abbrev with_client : Server
with_client = record fresh_server { client_available = update fresh_server.client_available 1 true }

client_came : client_master_round (pos 1) (pos 1) (pos 1) fresh_server ≡ done carries_on with_client
unfolding client_master_round wait_master_client find_port wait_client_lock post_client_lock
    client_called client_accepted post_master_client find_a_free_port_for_client take_port
    first_index
client_came = refl

server_master_round_example :
    (t : TriesHead) × (server_master_round (pos 1) two_paths (pos 1) (pos 1) with_client
      ≡ done tt (record with_client {
        server_ip = update with_client.server_ip 1 two_paths.ip;
        thp = t;
        server_available = update with_client.server_available 1 true;
      }))
    × IsValid t
    × All (IsRegistered (pos 1) t) (tokens 10 two_paths.result)
    × ((q : ℤ) (v : Str) → IsRegistered q with_client.thp v → IsRegistered q t v)
server_master_round_example =
    server_master_round_lem (pos 1) (pos 1) (pos 1) two_paths 1 with_client refl refl refl
      (lt_of_ltb 1 6 refl) refl (lt_of_ltb 0 1 refl) (lt_of_ltb 0 1 refl) init_tries-IsValid
      two_paths-IsAscii

server_came :
    (s' : Server) × (server_master_round (pos 1) two_paths (pos 1) (pos 1) with_client ≡ done tt s')
server_came =
    let came =
      server_master_round_lem (pos 1) (pos 1) (pos 1) two_paths 1 with_client refl refl refl
        (lt_of_ltb 1 6 refl) refl (lt_of_ltb 0 1 refl) (lt_of_ltb 0 1 refl) init_tries-IsValid
        two_paths-IsAscii in
    (_, came.1)

-- A client comes, and then a storage server with two paths.
a_run : (s : Server) × Reach quiet fresh_server s
unfolding left_by going_on
a_run = (
  _,
  next (next here (joins (pos 1) (pos 1) (pos 1) (ap going_on client_came)))
      (registers (pos 1) two_paths (pos 1) (pos 1) (ap left_by server_came.1)),
)

Reach-IsValid_example : IsValid a_run.0.thp
Reach-IsValid_example = Reach-IsValid quiet a_run.1 init_tries-IsValid

command_processor_example :
    Processed quiet 1 fresh_server (command_processor quiet create_a 1 fresh_server)
command_processor_example =
    command_processor_lem quiet create_a 1 fresh_server (lt_of_ltb 1 6 refl) (lt_of_ltb 0 1 refl)

redundant_round_example : GivenBack quiet 1 fresh_server (redundant_round quiet 1 fresh_server)
redundant_round_example =
    redundant_round_lem quiet 1 fresh_server (lt_of_ltb 1 6 refl) refl (lt_of_ltb 0 1 refl)
      (λ j h. lt_of_ltb 0 1 refl)

-- A server with a client on each of its six ports.
abbrev full_server : Server
full_server = record fresh_server { client_available = λ i. true }

client_master_round-refused_example :
    (client_master_round (pos 1) (pos 1) (pos 1) >> client_master_round (pos 1) (pos 1) (pos 1))
      full_server
    ≡ stuck (client_blocked full_server)
client_master_round-refused_example =
    client_master_round-refused (pos 1) (pos 1) (pos 1) (pos 1) (pos 1) (pos 1) full_server refl
      (inr (refl, lt_of_ltb 0 1 refl, λ j h. refl))

-- A file without a text is copied to server 1, which says yes.
abbrev agreeing : Network
agreeing = network_of (pos 1) (pos 1) (codes "YES")

abbrev copy_folder : Command
copy_folder = record { operation = codes "copydir"; path1 = 97 ∷ []; path2 = 98 ∷ []; port = 5101 }

abbrev no_text : Fetched
no_text = record { size_f = pos 0; checker = 0; text = [] }

-- "b/a"
abbrev new_path : Str
new_path = 98 ∷ 47 ∷ 97 ∷ []

server_1_chosen :
    find_storage_server_port agreeing fresh_server
    ≡ done (pos 1) (record fresh_server { rands = suc fresh_server.rands })
unfolding find_storage_server_port first_index
server_1_chosen = refl

new_path-IsAscii : All IsAscii (prefixes (tokens 47 new_path) [])
unfolding tokens tokens_from
new_path-IsAscii = (
  (lt_of_ltb 98 128 refl, tt),
  ((lt_of_ltb 98 128 refl, (lt_of_ltb 47 128 refl, (lt_of_ltb 97 128 refl, tt))), tt),
)

new_path_fits : fits_256 (with_slashes (tokens 47 new_path)) ≡ true
unfolding tokens tokens_from with_slashes
new_path_fits = refl

copy_entry_from-emptied_example :
    (s' : Server) × (copy_entry_from agreeing copy_folder new_path (pos 0) no_text fresh_server
      ≡ done proceed s')
    × (s'.sent ≡ [] ++ command 1 (make_command copy_folder (codes "createfile") new_path) ∷ [])
    × ((j : ℕ) → s'.block_server j ≡ held fresh_server.block_server 1 2 j)
    × All (IsRegistered (pos 1) s'.thp) (prefixes (tokens 47 new_path) [])
    × ((v : Str) → IsRegistered (pos 1) fresh_server.thp v → IsRegistered (pos 1) s'.thp v)
copy_entry_from-emptied_example =
    copy_entry_from-emptied agreeing copy_folder new_path (pos 0) no_text 1 fresh_server refl refl
      server_1_chosen (lt_of_ltb 1 6 refl) (lt_of_ltb 0 1 refl) (refl, refl, refl, refl)
      (lt_of_ltb 3 256 refl) new_path_fits init_tries-IsValid new_path-IsAscii
