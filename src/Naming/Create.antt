-- ===== src/Naming/Create.antt =====
-- Createfunctionality.
pub mod Already
pub mod Closed
pub mod Prefixes
pub mod Refused
use network_file_system_in_c.Base.{
  Bool, List, Str, [], clobbered, codes, eq_int, if◌then◌else◌, is_neg, is_pos, length, ltb,
  minus_one, negsuc, pos, str_eq, tokens, ℕ, ℤ, ◌++◌, ◌+◌, ◌==◌, ◌∷◌,
}
use network_file_system_in_c.Lru.Heap.{Ptr, null}
use network_file_system_in_c.Naming.Ports.{find_storage_server_port}
use network_file_system_in_c.Naming.State.{
  Command, M, Network, Reply, ack, cache_get, cache_put, command, insert_path, list_at, log_plain,
  log_server, new_list, post_server, pure, recv, search_into, send, send_client, set_list,
  undefined, wait_server, ◌>>=◌, ◌>>◌,
}

-- char path[256] takes the components with a '/' behind each of them.
unfoldable pub with_slashes : List Str → Str
with_slashes [] = []
with_slashes (token ∷ rest) = token ++ 47 ∷ with_slashes rest

abbrev pub fits_256 : Str → Bool
fits_256 bytes = ltb (length bytes) 256

-- Every prefix of the path that ends at a '/' or at its end goes into the trie.
unfoldable pub insert_prefixes : List Str → Str → ℤ → M (Unit {0})
insert_prefixes [] path i = pure tt
insert_prefixes (token ∷ rest) path i = do
  insert_path (path ++ token) i
  insert_prefixes rest (path ++ token ++ b'/' ∷ []) i

module _ (net : Network) where
  -- The path exists: ALREADY.
  unfoldable pub create_already : Command → M (Unit {0})
  create_already c = do
    s ← send_client net c.port (ack c.port (codes "ALREADY"))
    if is_neg s
        then log_plain c minus_one (codes "ERROR")
        else log_plain c minus_one (codes "FILE/FOLDER already exists")

  -- The end of the handler after an answer of the storage server: the path that the command holds
  -- by then goes into the cache.
  unfoldable pub cache_created : Str → Ptr → ℕ → M (Unit {0})
  cache_created path1 ports_exist index = do
    post_server index
    set_list ports_exist (record { curr_size = pos 1; first = pos index ∷ [] })
    cache_put path1 ports_exist

  -- The storage server refused: NO. The server is given back only if the send fails.
  unfoldable pub create_refused : Command → ℕ → M (Unit {0})
  create_refused c index = do
    s ← send_client net c.port (ack c.port (codes "NO"))
    if is_neg s then post_server index else pure tt

  unfoldable pub create_registered : Command → Ptr → ℕ → M (Unit {0})
  create_registered c ports_exist index = do
    insert_prefixes (tokens b'/' c.path1) [] (pos index)
    log_server c (pos index) (pos (index + 5200)) (codes "SUCCESS")
    s ← send_client net c.port (ack c.port (codes "YES"))
    if is_neg s then post_server index else cache_created (clobbered b'/' c.path1) ports_exist index

  -- The storage server said YES. strcat is undefined behaviour if path[256] is too small.
  unfoldable pub create_accepted : Command → Ptr → ℕ → M (Unit {0})
  create_accepted c ports_exist index =
      if fits_256 (with_slashes (tokens b'/' c.path1))
      then create_registered c ports_exist index
      else undefined

  -- What follows the acknowledgement of the storage server.
  unfoldable pub create_answered : Command → Ptr → ℕ → Reply → M (Unit {0})
  create_answered c ports_exist index r =
      if is_neg r.count
      then (do log_server c (pos index) (pos index) (codes "Error"); post_server index)
      else if eq_int r.count (pos 0)
      then (do
        log_server c (pos index) (pos index) (codes "Error")
        post_server index
        cache_created c.path1 ports_exist index)
      else if str_eq r.text (codes "YES")
      then create_accepted c ports_exist index
      else create_refused c index

  unfoldable pub create_on : Command → Ptr → ℕ → M (Unit {0})
  create_on c ports_exist index = do
    wait_server index
    s ← send net (command index c)
    if is_neg s
        then (do log_server c (pos index) (pos index) (codes "Error"); post_server index)
        else if eq_int s (pos 0)
        then (do log_server c (pos index) (pos index) (codes "Error"); post_server index)
        else (do r ← recv net; create_answered c ports_exist index r)

  unfoldable pub create_new : Command → Ptr → M (Unit {0})
  create_new c ports_exist = do
    index ← find_storage_server_port net
    elim index [ pos i ↦ create_on c ports_exist i | negsuc _ ↦ pure tt ]

  unfoldable pub create_functionality : Command → M (Unit {0})
  create_functionality c = do
    fresh ← new_list
    found ← cache_get c.path1
    ports_exist ← if found == null then (search_into c.path1 fresh >> pure fresh) else pure found
    ports ← list_at ports_exist
    if is_pos ports.curr_size then create_already c else create_new c ports_exist
