-- ===== src/Naming/Create/Closed.antt =====
-- A create during which the storage server closes its connection (Naming_server.c,
-- Createfunctionality).
use network_file_system_in_c.Base.{
  Str, [], ap, arith, eq_int, false, is_neg, is_pos, is_pos-eq_int, is_pos-is_neg, pos, refl, true,
  ℕ, ◌++◌, ◌+◌, ◌-◌, ◌<◌, ◌∷◌, ◌≡◌,
}
use network_file_system_in_c.Lru.{LruCache, put, update}
use network_file_system_in_c.Lru.Heap.{Ptr, ok}
use network_file_system_in_c.Naming.Create.{cache_created, create_answered, create_on}
use network_file_system_in_c.Naming.State.{
  Command, Network, Server, and_then, cache_put, command, done, lift_run, send, set_list,
}
use network_file_system_in_c.Naming.State.Steps.{
  CanServe, else_on, held, log_server_lem, post_server_lem, recv_lem, step, then_on,
  wait_server_lem,
}

pub cache_put_lem :
    (path : Str) (p : Ptr) (s : Server) {cache : LruCache}
    → put path p s.cache ≡ ok cache
    → cache_put path p s ≡ done tt (record s { cache = cache })
unfolding cache_put
cache_put_lem path p s e =
    ap (λ r. and_then (lift_run r s) (λ c s'. done tt (record s' { cache = c }))) e

pub update-twice :
    (f : ℕ → ℕ) (i j : ℕ)
    → 0 < f i
    → (let g = update f i (f i - 1) in let h = update g i (g i + 1) in update h i (h i + 1) j)
      ≡ held f i 2 j
update-twice f i j h = ground arith

-- The storage server gets the command and closes the connection, so that recv returns 0: the handler
-- returns without a word to the client; the trie is as before, but the path is put into the cache;
-- and the semaphore of the server, given back twice, has one unit more than before, so that two
-- handlers can then use the server at once. The other semaphores are as before. The server must have
-- been free, the ports of both be among the six, and the insertion into the cache must not fault.
pub create_on-closed :
    (net : Network) (c : Command) (p : Ptr) (i : ℕ) (s : Server) (cache : LruCache)
    → CanServe c i s
    → is_pos (net.send_result s.sends) ≡ true
    → net.blocks s.recvs ≡ false
    → (net.recv_result s.recvs).count ≡ pos 0
    → put c.path1 p s.cache ≡ ok cache
    → (s' : Server) × (create_on net c p i s ≡ done tt s')
      × (s'.sent ≡ s.sent ++ command i c ∷ [])
      × ((j : ℕ) → s'.block_server j ≡ held s.block_server i 2 j)
      × (s'.thp ≡ s.thp)
      × (s'.cache ≡ cache)
unfolding create_on send create_answered cache_created set_list
create_on-closed net c p i s cache (h, free, client) sent comes closed cached = (
  _,
  step _ (wait_server_lem i s h free) (
      else_on _ _ (is_pos-is_neg (net.send_result s.sends) sent) (
        else_on _ _ (is_pos-eq_int (net.send_result s.sends) sent) (
          step _ (recv_lem net _ comes) (
            else_on _ _ (ap is_neg closed) (
              then_on _ _ (ap (λ n. eq_int n (pos 0)) closed) (
                step _ (log_server_lem c i _ _ _ h) (
                  step _ (post_server_lem i _ h)
                    (step _ (post_server_lem i _ h) (cache_put_lem c.path1 p _ cached))))))))),
  refl,
  λ j. update-twice s.block_server i j free,
  refl,
  refl,
)
