-- ===== src/Examples/Opened.antt =====
-- Read, write and ls on a concrete server.
use network_file_system_in_c.Base.{
  All, List, Str, [], codes, inl, length, map, negsuc, pos, refl, some, ℕ, ◌++◌, ◌∷◌, ◌≡◌, ◌≤◌,
}
use network_file_system_in_c.Examples.Handlers.{
  a_missed, create_a, create_a-CanServe, create_a-IsClient, fresh_server, network_of, read_a,
}
use network_file_system_in_c.Naming.Listing.{send_listing, unlines}
use network_file_system_in_c.Naming.Listing.Sent.{concat, packet_of, send_listing_lem}
use network_file_system_in_c.Naming.Open.{read_functionality, serve}
use network_file_system_in_c.Naming.Open.Absent.{IsAbsent, LooksBelow, read_functionality-absent}
use network_file_system_in_c.Naming.Open.Held.{serve_lem}
use network_file_system_in_c.Naming.State.{Server, done, place}
use network_file_system_in_c.Naming.State.Steps.{held}
use network_file_system_in_c.Tries.Listing.{print_tries_file}
use network_file_system_in_c.Tries.Node.{child, init_trie_node, init_tries}
use network_file_system_in_c.Tries.Ports.{init_list}
use network_file_system_in_c.Tries.Search.{descend, found_words, search_words}

serve_example :
    (s' : Server) × (serve (network_of (negsuc 0) (pos 1) []) create_a 1 [] fresh_server
      ≡ done tt s')
    × (s'.sent ≡ [] ++ place 5101 (codes "127.0.0.1") [] (pos 1) ∷ [])
    × ((j : ℕ) → s'.block_server j ≡ held fresh_server.block_server 1 0 j)
serve_example =
    serve_lem (network_of (negsuc 0) (pos 1) []) create_a 1 [] fresh_server create_a-CanServe

a_nowhere : search_words init_tries read_a.path1 init_list ≡ some init_list
unfolding search_words descend found_words init_tries init_trie_node init_list child
a_nowhere = refl

empty_IsAbsent : IsAbsent init_list
unfolding init_list
empty_IsAbsent = inl refl

read_functionality-absent_example :
    LooksBelow
      (network_of (pos 1) (pos 1) [])
      read_a
      fresh_server
      (read_functionality (network_of (pos 1) (pos 1) []) read_a fresh_server)
read_functionality-absent_example =
    read_functionality-absent (network_of (pos 1) (pos 1) []) read_a fresh_server fresh_server.cache
      init_list create_a-IsClient a_missed a_nowhere empty_IsAbsent

send_listing_example :
    (ps : List Str) × (s' : Server) × (send_listing
        (network_of (pos 1) (pos 1) [])
        read_a
        (codes "ls")
        init_tries.head
        []
        fresh_server
      ≡ done tt s')
    × (s'.sent ≡ [] ++ map (packet_of 5101 (length ps)) ps)
    × All (λ p. length p ≤ 512) ps
    × (concat ps ≡ unlines (print_tries_file init_tries.head [] []))
send_listing_example =
    send_listing_lem (network_of (pos 1) (pos 1) []) read_a (codes "ls") [] init_tries.head
      fresh_server create_a-IsClient refl
