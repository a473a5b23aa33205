-- ===== src/Naming/CopyDir.antt =====
-- copydirfunctionality: every path at or below the first folder is copied below the second one.
pub mod Emptied
use network_file_system_in_c.Base.{
  Bool, List, Option, Str, [], codes, eq_int, false, if◌then◌else◌, is_neg, length, ltb, negsuc,
  none, not, pos, pos_part, some, str_eq, suc, tokens, zero, ℕ, ℤ, ◌&&◌, ◌++◌, ◌+◌, ◌/◌, ◌==◌, ◌∷◌,
}
use network_file_system_in_c.Naming.Copy.{
  answer_copy, append_temp, has_nul, pieces, received, remove_temp,
}
use network_file_system_in_c.Naming.Copy.Text.{atoi, chunk_count, show_int}
use network_file_system_in_c.Naming.Create.{fits_256, insert_prefixes, with_slashes}
use network_file_system_in_c.Naming.Ports.{find_storage_server_port}
use network_file_system_in_c.Naming.State.{
  Command, M, Network, Reply, ack, chunk, command, done, lift_option, log_server, post_server, pure,
  recv, send, send_client, undefined, wait_server, ◌>>=◌, ◌>>◌,
}
use network_file_system_in_c.Tries.Listing.{TrieContent, ll_tries_ports_fn}
use network_file_system_in_c.Tries.Search.{search_substring}

-- A file that has come, in temp.txt: the number of chunks that were asked for, how many of them had
-- a text, and what is left in the buffer.
pub record Fetched : Type 0 where
  pub size_f : ℤ
  pub checker : ℕ
  pub text : Str

-- How an entry ends: the handler goes on with the next one, or it returns.
pub data Next : Type 0 where
  proceed : Next
  give_up : Next

-- What the storage server has made of the path: nothing, or the path, or the handler returns.
pub data Created : Type 0 where
  skipped : Created
  made : ℕ → Created
  refused : Created

-- strlen(text) > 0
abbrev pub has_text : Str → Bool
has_text [] = false
has_text (c ∷ cs) = not (c == 0)

-- The bytes before the first NUL.
unfoldable pub before_nul : Str → Str
before_nul [] = []
before_nul (c ∷ cs) = let rest = before_nul cs in if c == 0 then [] else c ∷ rest

abbrev pub below_zero : ℤ → Option ℕ
below_zero (pos i) = some i
below_zero (negsuc k) = none

module _ (net : Network) where
  unfoldable pub receive_checked : ℕ → ℕ → M ℕ
  receive_checked zero checker = pure checker
  receive_checked (suc k) checker = do
    r ← recv net
    bytes ← lift_option (received r.count r.text)
    append_temp net bytes
    receive_checked k (if has_text bytes then suc checker else checker)

  -- The file of an entry, from its storage server. The buffer is cleared after every chunk.
  unfoldable pub fetch_entry : Str → ℕ → M Fetched
  fetch_entry val index = do
    wait_server index
    s ←
        send net
          (command index (record net.stale { operation = codes "copyfileread"; path1 = val }))
    r ← recv net
    let size_f = if is_neg r.count then pos 0 else chunk_count (atoi r.text)
    if net.opens (codes "temp.txt")
        then (do
          checker ← receive_checked (pos_part size_f) 0
          post_server index
          pure (record { size_f = size_f; checker = checker; text = [] }))
        else undefined

  -- The client is told, and the storage server is given back.
  unfoldable pub refuse_copy : Command → ℕ → M Created
  refuse_copy c index1 = do
    s ← send_client net c.port (ack c.port (codes "NO"))
    post_server index1
    pure refused

  -- The prefixes of the new path go into the trie.
  unfoldable pub insert_copy : Command → Str → ℕ → M Created
  insert_copy c newpath index1 =
      if fits_256 newpath && fits_256 (with_slashes (tokens 47 newpath))
      then (do
        insert_prefixes (tokens 47 newpath) [] (pos index1)
        log_server c (pos index1) (pos (index1 + 5200)) (codes "SUCCESS")
        post_server index1
        pure (made index1))
      else undefined

  -- After the acknowledgement. A server that has shut down is given back, and the path goes into the
  -- trie all the same.
  unfoldable pub copy_answered : Command → Str → ℤ → ℕ → Reply → M Created
  copy_answered c newpath index index1 r =
      if is_neg r.count
      then (do log_server c (pos index1) index (codes "Error"); post_server index1; pure refused)
      else if eq_int r.count (pos 0)
      then (do
        log_server c (pos index1) (pos index1) (codes "Error")
        post_server index1
        insert_copy c newpath index1)
      else if str_eq r.text (codes "YES")
      then insert_copy c newpath index1
      else refuse_copy c index1

  unfoldable pub create_copy_on : Command → Str → Str → ℤ → ℕ → M Created
  create_copy_on c operation newpath index index1 = do
    wait_server index1
    s ← send net (
        command index1
          (record { operation = operation; path1 = newpath; path2 = []; port = c.port }))
    if is_neg s
        then (do
          log_server c (pos index1) (pos index1) (codes "Error")
          post_server index1
          pure refused)
        else if eq_int s (pos 0)
        then (do
          log_server c (pos index1) (pos index1) (codes "Error")
          post_server index1
          pure skipped)
        else (do r ← recv net; copy_answered c newpath index index1 r)

  unfoldable pub create_copy : Command → Str → Str → ℤ → M Created
  create_copy c operation newpath index = do
    index1 ← find_storage_server_port net
    elim index1 [ pos i ↦ create_copy_on c operation newpath index i | negsuc _ ↦ pure skipped ]

  -- Of each piece of temp.txt the bytes before its first NUL are sent. A piece without one is read past
  -- its end.
  unfoldable pub send_texts : ℕ → List Str → M (Unit {0})
  send_texts index1 [] = pure tt
  send_texts index1 (p ∷ ps) =
      if has_nul p
      then (do s ← send net (chunk index1 (before_nul p)); send_texts index1 ps)
      else undefined

  unfoldable pub write_copy : Command → Str → ℤ → ℕ → M (Unit {0})
  write_copy c newpath size_f index1 = do
    wait_server index1
    s ← send net (
        command index1 (record {
          operation = codes "copyfilewrite";
          path1 = newpath;
          path2 = show_int size_f;
          port = c.port;
        }))
    content ← λ st. done st.temp_txt st
    send_texts index1 (pieces ((length content + 8191) / 8192) content)
    remove_temp net
    r ← recv net
    pure tt

  -- The new file is written if a chunk had a text. The semaphore is given back in either case.
  unfoldable pub finish_file : Command → Str → Fetched → Created → M Next
  finish_file c newpath f skipped = pure proceed
  finish_file c newpath f refused = pure give_up
  finish_file c newpath f (made index1) = do
    if f.checker == 0 then pure tt else write_copy c newpath f.size_f index1
    post_server index1
    pure proceed

  abbrev pub finish_dir : Created → M Next
  finish_dir skipped = pure proceed
  finish_dir (made index1) = pure proceed
  finish_dir refused = pure give_up

  -- newpath has 512 bytes.
  unfoldable pub copy_entry_from : Command → Str → ℤ → Fetched → M Next
  copy_entry_from c newpath index f =
      if not (ltb (length newpath) 512)
      then undefined
      else if str_eq f.text (codes "DIR")
      then create_copy c (codes "createdir") newpath index >>= finish_dir
      else create_copy c (codes "createfile") newpath index >>= finish_file c newpath f

  unfoldable pub copy_entry : Command → TrieContent → M Next
  copy_entry c entry = do
    index ← lift_option (below_zero entry.ss_index)
    f ← fetch_entry entry.val index
    copy_entry_from c (c.path2 ++ 47 ∷ entry.val) (pos index) f

  unfoldable pub copy_entries : Command → List TrieContent → M Next
  copy_entries c [] = pure proceed
  copy_entries c (entry ∷ entries) = do
    next ← copy_entry c entry
    elim next [ proceed ↦ copy_entries c entries | give_up ↦ pure give_up ]

  unfoldable pub copy_dir_functionality : Command → M (Unit {0})
  copy_dir_functionality c = do
    c1 ← λ s. lift_option (search_substring s.thp.head c.path1) s
    c2 ← λ s. lift_option (search_substring s.thp.head c.path2) s
    if not (c1 && c2) then answer_copy net c (codes "DONT") else (do
      entries ← λ s. lift_option (ll_tries_ports_fn s.thp c.path1) s
      next ← copy_entries c entries
      elim next [ proceed ↦ answer_copy net c (codes "YES") | give_up ↦ pure tt ])
