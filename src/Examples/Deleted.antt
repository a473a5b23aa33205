-- ===== src/Examples/Deleted.antt =====
-- A deletion on a concrete server.
use network_file_system_in_c.Base.{[], codes, if◌then◌else◌, pos, refl, ℕ, ◌++◌, ◌∷◌, ◌≡◌}
use network_file_system_in_c.Examples.Handlers.{
  create_a-IsClient, fresh_server, lt_of_ltb, network_of,
}
use network_file_system_in_c.Examples.Tries.{
  a_is_counted, a_trie, ab_IsAscii, ab_inserted, ab_is_new, ab_path, ab_trie,
}
use network_file_system_in_c.Lru.{init_lru_cache, remove_for_delete, walk}
use network_file_system_in_c.Lru.Heap.{ok}
use network_file_system_in_c.Naming.Delete.{delete_on}
use network_file_system_in_c.Naming.Delete.Undone.{answer_to, delete_on-insert_tries3}
use network_file_system_in_c.Naming.State.{Command, Server, command, done, stuck}
use network_file_system_in_c.Naming.State.Steps.{CanServe, held}

abbrev delete_ab : Command
delete_ab = record { operation = codes "deletefile"; path1 = ab_path; path2 = []; port = 5101 }

-- A server on which "ab" has been created last.
abbrev ab_server : Server
ab_server = record fresh_server { thp = ab_trie }

ab_uncached : remove_for_delete ab_path ab_server.cache ≡ ok (0, ab_server.cache)
unfolding remove_for_delete walk init_lru_cache
ab_uncached = refl

delete_ab-CanServe : CanServe delete_ab 0 ab_server
delete_ab-CanServe = (lt_of_ltb 0 6 refl, lt_of_ltb 0 1 refl, create_a-IsClient)

delete_on-insert_tries3_example :
    let hangs = (network_of (pos 1) (pos 1) []).blocks 0 in
    let told = if hangs then [] else answer_to 5101 (pos 1) in
    (s' : Server) × (delete_on (network_of (pos 1) (pos 1) []) delete_ab 0 ab_server
      ≡ (if hangs then stuck s' else done tt s'))
    × (s'.thp ≡ a_trie)
    × (s'.cache ≡ ab_server.cache)
    × (s'.sent ≡ [] ++ command 0 delete_ab ∷ told)
    × ((j : ℕ)
        → s'.block_server j
          ≡ (if hangs then held ab_server.block_server 0 0 j else ab_server.block_server j))
delete_on-insert_tries3_example =
    delete_on-insert_tries3 (network_of (pos 1) (pos 1) []) delete_ab 0 ab_server a_trie (pos 0)
      (pos 0) (pos 0) 0 ab_server.cache delete_ab-CanServe ab_IsAscii ab_is_new a_is_counted
      ab_inserted ab_uncached
