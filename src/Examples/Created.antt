-- ===== src/Examples/Created.antt =====
-- Create on a concrete server.
use network_file_system_in_c.Base.{[], codes, inr, negsuc, pos, refl, ℕ, ◌++◌, ◌∷◌, ◌≡◌}
use network_file_system_in_c.Examples.Handlers.{
  create_a, create_a-CanServe, fresh_server, network_of,
}
use network_file_system_in_c.Lru.{
  LruCache, add_to_cache, create_cache_node, init_lru_cache, load, put, put_new, set_next, set_prev,
}
use network_file_system_in_c.Lru.Heap.{ok}
use network_file_system_in_c.Naming.Create.{create_on}
use network_file_system_in_c.Naming.Create.Closed.{create_on-closed}
use network_file_system_in_c.Naming.Create.Refused.{create_on-failed, create_on-refused}
use network_file_system_in_c.Naming.State.{Server, ack, command, done}
use network_file_system_in_c.Naming.State.Steps.{held}
use network_file_system_in_c.Tries.Node.{init_tries}

create_on-refused_example :
    (s' : Server) × (create_on (network_of (pos 1) (pos 1) (codes "NO")) create_a 1 1 fresh_server
      ≡ done tt s')
    × (s'.sent ≡ [] ++ command 1 create_a ∷ ack 5101 (codes "NO") ∷ [])
    × ((j : ℕ) → s'.block_server j ≡ held fresh_server.block_server 1 0 j)
    × (s'.thp ≡ fresh_server.thp)
    × (s'.cache ≡ fresh_server.cache)
create_on-refused_example =
    create_on-refused (network_of (pos 1) (pos 1) (codes "NO")) create_a 1 1 fresh_server
      create_a-CanServe refl refl refl refl refl

create_on-failed_example :
    (s' : Server) × (create_on (network_of (pos 1) (negsuc 0) []) create_a 1 1 fresh_server
      ≡ done tt s')
    × (s'.sent ≡ [] ++ command 1 create_a ∷ [])
    × ((j : ℕ) → s'.block_server j ≡ fresh_server.block_server j)
    × (s'.thp ≡ fresh_server.thp)
    × (s'.cache ≡ fresh_server.cache)
create_on-failed_example =
    create_on-failed (network_of (pos 1) (negsuc 0) []) create_a 1 1 fresh_server create_a-CanServe
      (inr (refl, refl, refl))

a_puts : (cache : LruCache) × (put (97 ∷ []) 1 (init_lru_cache 10) ≡ ok cache)
unfolding put create_cache_node put_new add_to_cache set_prev set_next load init_lru_cache
a_puts = (_, refl)

create_on-closed_example :
    (s' : Server) × (create_on (network_of (pos 1) (pos 0) []) create_a 1 1 fresh_server
      ≡ done tt s')
    × (s'.sent ≡ [] ++ command 1 create_a ∷ [])
    × ((j : ℕ) → s'.block_server j ≡ held fresh_server.block_server 1 2 j)
    × (s'.thp ≡ init_tries)
    × (s'.cache ≡ a_puts.0)
create_on-closed_example =
    create_on-closed (network_of (pos 1) (pos 0) []) create_a 1 1 fresh_server a_puts.0
      create_a-CanServe refl refl refl a_puts.1
