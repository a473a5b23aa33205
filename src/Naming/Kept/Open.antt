-- ===== src/Naming/Kept/Open.antt =====
-- Readfunctionality, Writefunctionality, Infofunctionality and Lsfunctionality keep the trie valid.
use network_file_system_in_c.Base.{
  Bool, Bool-cases, List, Option, Str, [], codes, eq_int, false, if◌then◌else◌, inl, inr,
  is_empty_str, is_neg, ltb, minus_one, negsuc, none, pos, some, true, ℕ, ℤ, ◌==◌, ◌∷◌,
}
use network_file_system_in_c.Lru.Heap.{Ptr, null}
use network_file_system_in_c.Naming.Delete.{acknowledge}
use network_file_system_in_c.Naming.Kept.{Ends}
use network_file_system_in_c.Naming.Kept.Primitives.{
  Handled, Handled-IsOrder, KeepsAll, branch, cache_get-Keeps, cache_put-Keeps, faulty,
  list_at-Keeps, log_server-Keeps, new_list-Keeps, nothing_done, observe, post_server-Keeps,
  recv-Keeps, search_into-Keeps, send_client-Keeps, seq, set_list-Keeps, wait_server-Keeps,
}
use network_file_system_in_c.Naming.Listing.{just_ls, ls_functionality, send_listing, send_packets}
use network_file_system_in_c.Naming.Open.{
  find_ports, first_server, info_functionality, not_found, read_at, read_from, read_functionality,
  serve, serve_at, settle, write_functionality,
}
use network_file_system_in_c.Naming.State.{
  Command, M, Network, Server, and_then, cache_get, cache_put, done, lift_option, list_at, new_list,
  post_server, pure, recv, search_into, send_client, set_list, wait_server,
}
use network_file_system_in_c.Tries.Node.{Tries, is_null}
use network_file_system_in_c.Tries.Ports.{LlHead}
use network_file_system_in_c.Tries.Search.{folder_at}

pub settle-Keeps : (p : Ptr) → KeepsAll (settle p)
unfolding settle
settle-Keeps p =
    seq (list_at p) _ (list_at-Keeps p)
      (λ ports. seq (set_list p _) _ (set_list-Keeps p _) (λ u s. Handled-IsOrder.same s))

module _ (net : Network) where
  not_found-Keeps : (c : Command) → KeepsAll (not_found net c)
  unfolding not_found
  not_found-Keeps c = seq (send_client net c.port _) _ (send_client-Keeps net c.port _) (λ s.
      branch (is_neg s) _ _ (log_server-Keeps c minus_one _ _) (log_server-Keeps c minus_one _ _))

  serve-Keeps : (c : Command) (i : ℕ) (extra : Str) → KeepsAll (serve net c i extra)
  unfolding serve
  serve-Keeps c i extra = seq (wait_server i) _ (wait_server-Keeps i) (λ u.
      seq _ _ (λ st. send_client-Keeps net c.port _ st)
        (λ s. branch (is_neg s) _ _ (log_server-Keeps c (pos i) _ _) (
          seq (recv net) _ (recv-Keeps net) (λ stop.
            seq (post_server i) _ (post_server-Keeps i) (λ u. log_server-Keeps c (pos i) _ _)))))

  serve_at-Keeps : (c : Command) (i : ℤ) → KeepsAll (serve_at net c i)
  unfolding serve_at
  serve_at-Keeps c (pos i) = serve-Keeps c i []
  serve_at-Keeps c (negsuc k) = faulty (Unit {0})

  find_ports-Keeps : (cached : Bool) (c : Command) → KeepsAll (find_ports net cached c)
  unfolding find_ports
  find_ports-Keeps cached c = seq new_list _ new_list-Keeps (λ fresh.
      seq (cache_get c.path1) _ (cache_get-Keeps c.path1) (λ found.
        branch (found == null) _ _
          (seq (search_into c.path1 fresh) _ (search_into-Keeps c.path1 fresh) (λ u.
            seq (if cached then cache_put c.path1 fresh else pure tt) _
              (branch cached _ _ (cache_put-Keeps c.path1 fresh) (nothing_done tt))
              (λ u. nothing_done fresh)))
          (nothing_done found)))

  -- The list that has been found, and the server from it.
  chosen-Keeps :
      (c : Command) (ports : LlHead) (go : M (Unit {0}))
      → KeepsAll go
      → KeepsAll (if eq_int ports.curr_size (pos 0) then not_found net c else go)
  chosen-Keeps c ports go kept =
      branch (eq_int ports.curr_size (pos 0)) _ _ (not_found-Keeps c) kept

  pub write_functionality-Keeps : (c : Command) → KeepsAll (write_functionality net c)
  unfolding write_functionality
  write_functionality-Keeps c = seq (find_ports net true c) _ (find_ports-Keeps true c) (λ p.
      seq (settle p) _ (settle-Keeps p)
        (λ ports. chosen-Keeps c ports _ (serve_at-Keeps c (first_server minus_one ports.first))))

  pub info_functionality-Keeps : (c : Command) → KeepsAll (info_functionality net c)
  unfolding info_functionality
  info_functionality-Keeps c = seq (find_ports net true c) _ (find_ports-Keeps true c) (λ p.
      seq (settle p) _ (settle-Keeps p)
        (λ ports. chosen-Keeps c ports _ (serve_at-Keeps c (first_server minus_one ports.first))))

  read_at-Keeps : (c : Command) (i : ℤ) → KeepsAll (read_at net c i)
  unfolding read_at
  read_at-Keeps c (negsuc k) s = tt
  read_at-Keeps c (pos i) s = elim (Bool-cases (ltb i 6)) [
    | inl within ↦
        rw within
          (serve-Keeps c (read_from i s.server_available).0 (read_from i s.server_available).1 s)
    | inr out ↦ rw out tt
  ]

  pub read_functionality-Keeps : (c : Command) → KeepsAll (read_functionality net c)
  unfolding read_functionality
  read_functionality-Keeps c = seq (find_ports net false c) _ (find_ports-Keeps false c) (λ p.
      seq (settle p) _ (settle-Keeps p) (λ ports. chosen-Keeps c ports _ (
        seq (cache_put c.path1 p) _ (cache_put-Keeps c.path1 p)
          (λ u. read_at-Keeps c (first_server minus_one ports.first)))))

  pub acknowledge-Keeps : (c : Command) (answer : Str) → KeepsAll (acknowledge net c answer)
  unfolding acknowledge
  acknowledge-Keeps c answer =
      seq (send_client net c.port _) _ (send_client-Keeps net c.port _) (λ s. nothing_done tt)

  send_packets-Keeps : (port total : ℕ) (ps : List Str) → KeepsAll (send_packets net port total ps)
  unfolding send_packets
  send_packets-Keeps port total [] = nothing_done tt
  send_packets-Keeps port total (p ∷ ps) =
      seq (send_client net port _) _ (send_client-Keeps net port _)
        (λ s. send_packets-Keeps port total ps)

  send_listing-Keeps :
      (c : Command) (name : Str) (t : Tries) (val : Str) → KeepsAll (send_listing net c name t val)
  unfolding send_listing
  send_listing-Keeps c name t val =
      branch (net.opens name) _ _ (send_packets-Keeps c.port _ _) (faulty (Unit {0}))

  pub ls_functionality-Keeps : (c : Command) → KeepsAll (ls_functionality net c)
  unfolding ls_functionality just_ls
  ls_functionality-Keeps c =
      branch (is_empty_str c.path1) _ _
        (seq (λ s. done s.thp s) _ (observe (λ s. s.thp))
          (λ thp.
            seq _ _ (send_listing-Keeps c (codes "ls") thp.head []) (λ u. acknowledge-Keeps c _)))
        (seq _ _ (λ s. looked_up s (folder_at s.thp c.path1))
          (λ t.
            branch (is_null t) _ _ (acknowledge-Keeps c _)
              (seq _ _ (send_listing-Keeps c c.path1 t _) (λ u. acknowledge-Keeps c _))))
    where
      looked_up : (s : Server) (o : Option Tries) → Ends Handled s (and_then (lift_option o s) done)
      looked_up s none = tt
      looked_up s (some t) = Handled-IsOrder.same s
