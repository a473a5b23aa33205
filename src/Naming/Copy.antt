-- ===== src/Naming/Copy.antt =====
-- copyfunctionality: the file goes from its storage server through temp.txt to the server of the
-- other path.
pub mod Stored
pub mod Text
use network_file_system_in_c.Base.{
  Bool, List, Option, Str, [], codes, drop, eq_int, false, if◌then◌else◌, is_neg, is_pos, length,
  ltb, minus_one, negsuc, none, pos, pos_part, some, suc, take, zero, ℕ, ℤ, ◌&&◌, ◌++◌, ◌+◌, ◌-◌,
  ◌/◌, ◌==◌, ◌||◌, ◌∷◌,
}
use network_file_system_in_c.Lru.Heap.{Ptr, null}
use network_file_system_in_c.Naming.Copy.Text.{atoi, chunk_count, show_int}
use network_file_system_in_c.Naming.State.{
  Command, M, Network, ack, cache_get, cache_put, chunk, command, done, lift_option, list_at,
  log_plain, new_list, post_server, pure, recv, search_into, send, send_client, undefined,
  wait_server, ◌>>=◌, ◌>>◌,
}

-- The first port of a list; NULL is dereferenced if there is none.
abbrev pub first_of : List ℤ → Option ℤ
first_of [] = none
first_of (v ∷ vs) = some v

-- strlen of a buffer of 8192 bytes that holds these, with NUL behind them: without a NUL in it the
-- read goes past its end.
abbrev pub has_nul : Str → Bool
has_nul [] = false
has_nul (c ∷ cs) = (c == 0) || has_nul cs

abbrev pub ends_within : Str → Bool
ends_within bytes = ltb (length bytes) 8192 || has_nul bytes

-- One round: recv into the buffer of zeros, and the bytes at the end of the file. A failed recv makes
-- fwrite write (size_t)-1 bytes.
abbrev pub received : ℤ → Str → Option Str
received (negsuc k) text = none
received (pos r) text = let bytes = take r text in if ends_within bytes then some bytes else none

-- temp.txt in pieces of 8192 bytes, the last one filled up with zeros.
abbrev pub zeros : ℕ → Str
zeros zero = []
zeros (suc n) = 0 ∷ zeros n

unfoldable pub pieces : ℕ → Str → List Str
pieces zero bytes = []
pieces (suc k) bytes =
    let p = take 8192 bytes in (p ++ zeros (8192 - length p)) ∷ pieces k (drop 8192 bytes)

module _ (net : Network) where
  -- The list of a path: that of the cache, or a new one with what the trie says.
  unfoldable pub find_copy_ports : Str → M Ptr
  find_copy_ports path = do
    fresh ← new_list
    found ← cache_get path
    if found == null then (search_into path fresh >> pure fresh) else pure found

  unfoldable pub append_temp : Str → M (Unit {0})
  append_temp bytes s = done tt (record s { temp_txt = s.temp_txt ++ bytes })

  unfoldable pub remove_temp : M (Unit {0})
  remove_temp s = done tt (record s { temp_txt = [] })

  unfoldable pub receive_chunks : ℕ → M (Unit {0})
  receive_chunks zero = pure tt
  receive_chunks (suc k) = do
    r ← recv net
    bytes ← lift_option (received r.count r.text)
    append_temp bytes
    receive_chunks k

  unfoldable pub send_chunks : ℕ → List Str → M (Unit {0})
  send_chunks index2 [] = pure tt
  send_chunks index2 (p ∷ ps) = do s ← send net (chunk index2 p); send_chunks index2 ps

  -- The answer to the client, and its line in the log, which says the same for a copy that was made
  -- and for one that was not.
  unfoldable pub answer_copy : Command → Str → M (Unit {0})
  answer_copy c answer = do
    s ← send_client net c.port (ack c.port answer)
    if is_neg s
        then log_plain c minus_one (codes "ERROR")
        else log_plain c minus_one (codes "FILE/FOLDER already exists")

  -- From the first storage server into temp.txt: the number of chunks that were asked for. The text of
  -- the size is read even if nothing has come.
  unfoldable pub fetch : Command → ℕ → M ℤ
  fetch c index = do
    wait_server index
    s ←
        send net
          (command index (record net.stale { operation = codes "copyfileread"; path1 = c.path1 }))
    r ← recv net
    if is_pos r.count && net.opens (codes "temp.txt")
        then (do
          let size_f = chunk_count (atoi r.text)
          receive_chunks (pos_part size_f)
          post_server index
          pure size_f)
        else undefined

  -- From temp.txt to the second storage server, whose answer comes after its semaphore is given back.
  unfoldable pub store_copy : Command → ℕ → ℤ → M (Unit {0})
  store_copy c index2 size_f = do
    wait_server index2
    s ← send net (
        command index2 (record net.stale {
          operation = codes "copyfilewrite";
          path1 = c.path2;
          path2 = show_int size_f;
        }))
    content ← λ st. done st.temp_txt st
    send_chunks index2 (pieces ((length content + 8191) / 8192) content)
    remove_temp
    post_server index2
    r ← recv net
    pure tt

  unfoldable pub copy_between : Command → ℤ → ℤ → M (Unit {0})
  copy_between c (negsuc k) index2 = undefined
  copy_between c (pos index) (negsuc k) = fetch c index >> undefined
  copy_between c (pos index) (pos index2) = do
    size_f ← fetch c index
    store_copy c index2 size_f
    answer_copy c (codes "YES")

  unfoldable pub copy_functionality : Command → M (Unit {0})
  copy_functionality c = do
    p ← find_copy_ports c.path1
    p2 ← find_copy_ports c.path2
    ports ← list_at p
    ports2 ← list_at p2
    if eq_int ports2.curr_size (pos 0) || eq_int ports.curr_size (pos 0)
        then answer_copy c (codes "DONT")
        else (do
          cache_put c.path1 p
          cache_put c.path2 p2
          index ← lift_option (first_of ports.first)
          index2 ← lift_option (first_of ports2.first)
          copy_between c index index2)
