-- ===== src/Naming/Open.antt =====
-- Readfunctionality, Writefunctionality and Infofunctionality: the client is told which storage
-- server holds the file, and the server is kept for it until the client says stop.
pub mod Fallback
pub mod Held
pub mod Absent
use network_file_system_in_c.Base.{
  Bool, List, Str, [], codes, eq_int, false, if◌then◌else◌, is_neg, ltb, minus_one, negsuc, pos,
  str_eq, true, ℕ, ℤ, ◌+◌, ◌==◌, ◌∷◌,
}
use network_file_system_in_c.Lru.Heap.{Ptr, null}
use network_file_system_in_c.Naming.Copies.{copies_of}
use network_file_system_in_c.Naming.State.{
  Command, M, Network, cache_get, cache_put, list_at, log_server, new_list, place, post_server,
  pure, recv, search_into, send_client, server_ports, set_list, undefined, wait_server, ◌>>=◌, ◌>>◌,
}
use network_file_system_in_c.Tries.Ports.{LlHead}

-- The first port that is not -1, after `index`.
unfoldable pub first_server : ℤ → List ℤ → ℤ
first_server index [] = index
first_server index (v ∷ vs) = first_server (if eq_int index minus_one then v else index) vs

-- `if (currSize == -1) currSize++`
unfoldable pub settle : Ptr → M LlHead
settle p = do
  ports ← list_at p
  let settled : LlHead =
      if eq_int ports.curr_size minus_one then record ports { curr_size = pos 0 } else ports
  set_list p settled
  pure settled

-- A server that is down is replaced by one that holds its copy, if one of the two is up.
unfoldable pub read_from : ℕ → (ℕ → Bool) → ℕ × Str
read_from index available =
    let c = copies_of index in
    if available index
    then (index, codes "main")
    else if available c.index1
    then (c.index1, c.p1)
    else if available c.index2
    then (c.index2, c.p2)
    else (index, codes "main")

module _ (net : Network) where
  -- The file is not there: the client gets -1; the log reads server_ip[-1].
  unfoldable pub not_found : Command → M (Unit {0})
  not_found c = do
    s ← send_client net c.port (place c.port (codes "-1") [] minus_one)
    if is_neg s
        then log_server c minus_one (pos 5199) (codes "FAILURE")
        else log_server c minus_one (pos 5199) (codes "FILE DOESNT EXIST")

  -- The server is taken, its place sent to the client, and given back when the client has
  -- answered; not if the send fails.
  unfoldable pub serve : Command → ℕ → Str → M (Unit {0})
  serve c index extra = do
    wait_server index
    s ← λ st. send_client net c.port (place c.port (st.server_ip index) extra (pos index)) st
    if is_neg s then log_server c (pos index) (pos (index + 5200)) (codes "FAILURE") else (do
      stop ← recv net
      post_server index
      log_server c (pos index) (pos (index + 5200))
          (if str_eq stop.text (codes "stop") then codes "SUCCESS" else codes "FAILURE"))

  -- An index -1 (all ports are -1) is an array index out of range.
  unfoldable pub serve_at : Command → ℤ → M (Unit {0})
  serve_at c (pos index) = serve c index []
  serve_at c (negsuc k) = undefined

  -- The list of a path: that of the cache, or a new one with what the trie says. Writefunctionality
  -- and Infofunctionality put the new one into the cache at once, Readfunctionality later.
  unfoldable pub find_ports : Bool → Command → M Ptr
  find_ports cached c = do
    fresh ← new_list
    found ← cache_get c.path1
    if found == null
        then (do
          search_into c.path1 fresh
          if cached then cache_put c.path1 fresh else pure tt
          pure fresh)
        else pure found

  -- Writefunctionality and Infofunctionality differ in what they print.
  unfoldable pub write_functionality : Command → M (Unit {0})
  write_functionality c = do
    p ← find_ports true c
    ports ← settle p
    if eq_int ports.curr_size (pos 0)
        then not_found c
        else serve_at c (first_server minus_one ports.first)

  unfoldable pub info_functionality : Command → M (Unit {0})
  info_functionality c = do
    p ← find_ports true c
    ports ← settle p
    if eq_int ports.curr_size (pos 0)
        then not_found c
        else serve_at c (first_server minus_one ports.first)

  unfoldable pub read_at : Command → ℤ → M (Unit {0})
  read_at c (negsuc k) s = undefined s
  read_at c (pos index) s =
      if ltb index server_ports
      then (let (from, path) = read_from index s.server_available in serve c from path s)
      else undefined s

  unfoldable pub read_functionality : Command → M (Unit {0})
  read_functionality c = do
    p ← find_ports false c
    ports ← settle p
    if eq_int ports.curr_size (pos 0)
        then not_found c
        else (do cache_put c.path1 p; read_at c (first_server minus_one ports.first))
