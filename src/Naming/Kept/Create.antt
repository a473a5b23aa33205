-- ===== src/Naming/Kept/Create.antt =====
-- Createfunctionality keeps the trie valid.
use network_file_system_in_c.Base.{
  List, Str, [], codes, eq_int, if◌then◌else◌, is_neg, is_pos, minus_one, negsuc, pos, str_eq,
  tokens, ℕ, ℤ, ◌++◌, ◌==◌, ◌∷◌,
}
use network_file_system_in_c.Lru.Heap.{Ptr, null}
use network_file_system_in_c.Naming.Create.{
  cache_created, create_accepted, create_already, create_answered, create_functionality, create_new,
  create_on, create_refused, create_registered, fits_256, insert_prefixes, with_slashes,
}
use network_file_system_in_c.Naming.Kept.Primitives.{
  KeepsAll, branch, cache_get-Keeps, cache_put-Keeps, insert_path-Keeps, list_at-Keeps,
  log_plain-Keeps, log_server-Keeps, new_list-Keeps, nothing_done, post_server-Keeps, recv-Keeps,
  search_into-Keeps, send-Keeps, send_client-Keeps, seq, set_list-Keeps, still, wait_server-Keeps,
}
use network_file_system_in_c.Naming.Ports.{find_storage_server_port}
use network_file_system_in_c.Naming.State.{
  Command, Network, Reply, ack, cache_get, command, insert_path, list_at, log_plain, log_server,
  new_list, post_server, pure, recv, search_into, send, send_client, set_list, undefined,
  wait_server, ◌>>=◌, ◌>>◌,
}

pub insert_prefixes-Keeps :
    (components : List Str) (path : Str) (i : ℤ) → KeepsAll (insert_prefixes components path i)
unfolding insert_prefixes
insert_prefixes-Keeps [] path i = nothing_done tt
insert_prefixes-Keeps (token ∷ rest) path i =
    seq (insert_path (path ++ token) i) _ (insert_path-Keeps (path ++ token) i)
      (λ u. insert_prefixes-Keeps rest _ i)

-- A line in the log, and the server given back.
pub log_and_post-Keeps :
    (c : Command) (i port : ℤ) (said : Str) (index : ℕ)
    → KeepsAll (log_server c i port said >> post_server index)
log_and_post-Keeps c i port said index =
    seq (log_server c i port said) (λ u. post_server index) (log_server-Keeps c i port said)
      (λ u. post_server-Keeps index)

-- The list of a path: the one of the cache, or a new one.
pub listed-Keeps :
    (path : Str) (fresh found : Ptr)
    → KeepsAll (if found == null then (search_into path fresh >> pure fresh) else pure found)
listed-Keeps path fresh found =
    branch (found == null) _ (pure found)
      (seq (search_into path fresh) (λ u. pure fresh) (search_into-Keeps path fresh)
        (λ u. nothing_done fresh))
      (nothing_done found)

module _ (net : Network) where
  -- An answer to a client, and one of two lines in the log.
  pub answered-Keeps :
      (c : Command) (answer failed sent : Str)
      → KeepsAll (do
        s ← send_client net c.port (ack c.port answer)
        if is_neg s then log_plain c minus_one failed else log_plain c minus_one sent)
  answered-Keeps c answer failed sent =
      seq (send_client net c.port (ack c.port answer)) _ (send_client-Keeps net c.port _) (λ s.
        branch (is_neg s) _ _ (log_plain-Keeps c minus_one failed)
          (log_plain-Keeps c minus_one sent))

  cache_created-Keeps : (path1 : Str) (p : Ptr) (i : ℕ) → KeepsAll (cache_created net path1 p i)
  unfolding cache_created
  cache_created-Keeps path1 p i =
      seq (post_server i) _ (post_server-Keeps i)
        (λ u. seq (set_list p _) _ (set_list-Keeps p _) (λ u. cache_put-Keeps path1 p))

  create_refused-Keeps : (c : Command) (i : ℕ) → KeepsAll (create_refused net c i)
  unfolding create_refused
  create_refused-Keeps c i =
      seq (send_client net c.port _) _ (send_client-Keeps net c.port _)
        (λ s. branch (is_neg s) _ _ (post_server-Keeps i) (nothing_done tt))

  create_registered-Keeps : (c : Command) (p : Ptr) (i : ℕ) → KeepsAll (create_registered net c p i)
  unfolding create_registered
  create_registered-Keeps c p i =
      seq (insert_prefixes (tokens b'/' c.path1) [] (pos i)) _ (insert_prefixes-Keeps _ _ _) (λ u.
        seq (log_server c (pos i) _ _) _ (log_server-Keeps c (pos i) _ _) (λ u.
          seq (send_client net c.port _) _ (send_client-Keeps net c.port _)
            (λ s. branch (is_neg s) _ _ (post_server-Keeps i) (cache_created-Keeps _ p i))))

  create_accepted-Keeps : (c : Command) (p : Ptr) (i : ℕ) → KeepsAll (create_accepted net c p i)
  unfolding create_accepted
  create_accepted-Keeps c p i =
      branch (fits_256 (with_slashes (tokens b'/' c.path1))) _ undefined
        (create_registered-Keeps c p i) (λ s. tt)

  create_answered-Keeps :
      (c : Command) (p : Ptr) (i : ℕ) (r : Reply) → KeepsAll (create_answered net c p i r)
  unfolding create_answered
  create_answered-Keeps c p i r =
      branch (is_neg r.count) _ _ (log_and_post-Keeps c (pos i) (pos i) _ i) (
        branch (eq_int r.count (pos 0)) _ _
          (seq (log_server c (pos i) (pos i) _) _ (log_server-Keeps c (pos i) (pos i) _) (λ u.
            seq (post_server i) _ (post_server-Keeps i) (λ u. cache_created-Keeps c.path1 p i)))
          (branch (str_eq r.text (codes "YES")) _ _ (create_accepted-Keeps c p i)
            (create_refused-Keeps c i)))

  create_on-Keeps : (c : Command) (p : Ptr) (i : ℕ) → KeepsAll (create_on net c p i)
  unfolding create_on
  create_on-Keeps c p i = seq (wait_server i) _ (wait_server-Keeps i) (λ u.
      seq (send net (command i c)) _ (send-Keeps net _) (λ s.
        branch (is_neg s) _ _ (log_and_post-Keeps c (pos i) (pos i) _ i) (
          branch (eq_int s (pos 0)) _ _ (log_and_post-Keeps c (pos i) (pos i) _ i)
            (seq (recv net) _ (recv-Keeps net) (create_answered-Keeps c p i)))))

  pub find_storage_server_port-Keeps : KeepsAll (find_storage_server_port net)
  unfolding find_storage_server_port
  find_storage_server_port-Keeps s = still s _ _ _ _ _ _ _ _ _ _

  create_new-Keeps : (c : Command) (p : Ptr) → KeepsAll (create_new net c p)
  unfolding create_new
  create_new-Keeps c p =
      seq (find_storage_server_port net) _ find_storage_server_port-Keeps (λ index. at_index index)
    where
      at_index :
          (index : ℤ) → KeepsAll (elim index [ pos i ↦ create_on net c p i | negsuc _ ↦ pure tt ])
      at_index (pos i) = create_on-Keeps c p i
      at_index (negsuc k) = nothing_done tt

  pub create_functionality-Keeps : (c : Command) → KeepsAll (create_functionality net c)
  unfolding create_functionality create_already
  create_functionality-Keeps c = seq new_list _ new_list-Keeps (λ fresh.
      seq (cache_get c.path1) _ (cache_get-Keeps c.path1) (λ found.
        seq _ _ (listed-Keeps c.path1 fresh found) (λ p.
          seq (list_at p) _ (list_at-Keeps p) (λ ports.
            branch (is_pos ports.curr_size) _ _ (answered-Keeps c _ _ _) (create_new-Keeps c p)))))
