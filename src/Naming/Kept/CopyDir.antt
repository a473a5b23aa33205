-- ===== src/Naming/Kept/CopyDir.antt =====
-- copydirfunctionality keeps the trie valid.
use network_file_system_in_c.Base.{
  List, Str, [], codes, eq_int, if◌then◌else◌, is_neg, length, ltb, negsuc, not, pos, pos_part,
  str_eq, suc, tokens, zero, ℕ, ℤ, ◌&&◌, ◌++◌, ◌+◌, ◌/◌, ◌==◌, ◌∷◌,
}
use network_file_system_in_c.Naming.Copy.{
  answer_copy, append_temp, has_nul, pieces, received, remove_temp,
}
use network_file_system_in_c.Naming.Copy.Text.{atoi, chunk_count}
use network_file_system_in_c.Naming.CopyDir.{
  Created, Fetched, Next, before_nul, below_zero, copy_answered, copy_dir_functionality,
  copy_entries, copy_entry, copy_entry_from, create_copy, create_copy_on, fetch_entry, finish_dir,
  finish_file, give_up, insert_copy, made, proceed, receive_checked, refuse_copy, refused,
  send_texts, skipped, write_copy,
}
use network_file_system_in_c.Naming.Create.{fits_256, insert_prefixes, with_slashes}
use network_file_system_in_c.Naming.Kept.Copy.{
  answer_copy-Keeps, append_temp-Keeps, remove_temp-Keeps,
}
use network_file_system_in_c.Naming.Kept.Create.{
  find_storage_server_port-Keeps, insert_prefixes-Keeps,
}
use network_file_system_in_c.Naming.Kept.Primitives.{
  KeepsAll, branch, faulty, lift_option-Keeps, log_server-Keeps, nothing_done, observe,
  observe_option, post_server-Keeps, recv-Keeps, send-Keeps, send_client-Keeps, seq,
  wait_server-Keeps,
}
use network_file_system_in_c.Naming.Ports.{find_storage_server_port}
use network_file_system_in_c.Naming.State.{
  Command, M, Network, Reply, chunk, done, lift_option, log_server, post_server, pure, recv, send,
  send_client, wait_server, ◌>>=◌,
}
use network_file_system_in_c.Tries.Listing.{TrieContent, ll_tries_ports_fn}
use network_file_system_in_c.Tries.Search.{search_substring}

module _ (net : Network) where
  receive_checked-Keeps : (k checker : ℕ) → KeepsAll (receive_checked net k checker)
  unfolding receive_checked
  receive_checked-Keeps zero checker = nothing_done checker
  receive_checked-Keeps (suc k) checker = seq (recv net) _ (recv-Keeps net) (λ r.
      seq (lift_option (received r.count r.text)) _ (lift_option-Keeps (received r.count r.text))
        (λ bytes.
          seq (append_temp net bytes) _ (append_temp-Keeps net bytes)
            (λ u. receive_checked-Keeps k _)))

  fetch_entry-Keeps : (val : Str) (i : ℕ) → KeepsAll (fetch_entry net val i)
  unfolding fetch_entry
  fetch_entry-Keeps val i = seq (wait_server i) _ (wait_server-Keeps i) (λ u.
      seq (send net _) _ (send-Keeps net _) (λ s. seq (recv net) _ (recv-Keeps net) (λ r.
        let size_f = if is_neg r.count then pos 0 else chunk_count (atoi r.text) in
        branch (net.opens (codes "temp.txt")) _ _
          (seq (receive_checked net _ 0) _ (receive_checked-Keeps (pos_part size_f) 0) (λ checker.
            seq (post_server i) _ (post_server-Keeps i) (λ u.
              nothing_done {A = Fetched}
                (record { size_f = size_f; checker = checker; text = [] }))))
          (faulty Fetched))))

  refuse_copy-Keeps : (c : Command) (i : ℕ) → KeepsAll (refuse_copy net c i)
  unfolding refuse_copy
  refuse_copy-Keeps c i =
      seq (send_client net c.port _) _ (send_client-Keeps net c.port _)
        (λ s. seq (post_server i) _ (post_server-Keeps i) (λ u. nothing_done refused))

  insert_copy-Keeps : (c : Command) (newpath : Str) (i : ℕ) → KeepsAll (insert_copy net c newpath i)
  unfolding insert_copy
  insert_copy-Keeps c newpath i =
      branch (fits_256 newpath && fits_256 (with_slashes (tokens 47 newpath))) _ _
        (seq (insert_prefixes (tokens 47 newpath) [] (pos i)) _
          (insert_prefixes-Keeps (tokens 47 newpath) [] (pos i))
          (λ u.
            seq (log_server c (pos i) _ _) _ (log_server-Keeps c (pos i) _ _)
              (λ u. seq (post_server i) _ (post_server-Keeps i) (λ u. nothing_done (made i)))))
        (faulty Created)

  -- A line in the log, the server given back, and the rest.
  failed-Keeps :
      {A : Type 0} (c : Command) (i port : ℤ) (index : ℕ) (rest : M A)
      → KeepsAll rest
      → KeepsAll (log_server c i port (codes "Error") >>= λ u. post_server index >>= λ u. rest)
  failed-Keeps c i port index rest kept =
      seq (log_server c i port (codes "Error")) _ (log_server-Keeps c i port _)
        (λ u. seq (post_server index) _ (post_server-Keeps index) (λ u. kept))

  copy_answered-Keeps :
      (c : Command) (newpath : Str) (index : ℤ) (i : ℕ) (r : Reply)
      → KeepsAll (copy_answered net c newpath index i r)
  unfolding copy_answered
  copy_answered-Keeps c newpath index i r =
      branch (is_neg r.count) _ _
        (failed-Keeps c (pos i) index i (pure refused) (nothing_done refused))
        (branch (eq_int r.count (pos 0)) _ _
          (failed-Keeps c (pos i) (pos i) i (insert_copy net c newpath i)
            (insert_copy-Keeps c newpath i))
          (branch (str_eq r.text (codes "YES")) _ _ (insert_copy-Keeps c newpath i)
            (refuse_copy-Keeps c i)))

  create_copy_on-Keeps :
      (c : Command) (operation newpath : Str) (index : ℤ) (i : ℕ)
      → KeepsAll (create_copy_on net c operation newpath index i)
  unfolding create_copy_on
  create_copy_on-Keeps c operation newpath index i =
      seq (wait_server i) _ (wait_server-Keeps i) (λ u. seq (send net _) _ (send-Keeps net _) (λ s.
        branch (is_neg s) _ _
          (failed-Keeps c (pos i) (pos i) i (pure refused) (nothing_done refused))
          (branch (eq_int s (pos 0)) _ _
            (failed-Keeps c (pos i) (pos i) i (pure skipped) (nothing_done skipped))
            (seq (recv net) _ (recv-Keeps net) (copy_answered-Keeps c newpath index i)))))

  create_copy-Keeps :
      (c : Command) (operation newpath : Str) (index : ℤ)
      → KeepsAll (create_copy net c operation newpath index)
  unfolding create_copy
  create_copy-Keeps c operation newpath index =
      seq (find_storage_server_port net) _ (find_storage_server_port-Keeps net) (λ i. at_index i)
    where
      at_index :
          (i : ℤ)
          → KeepsAll (elim i [
            | pos j ↦ create_copy_on net c operation newpath index j
            | negsuc _ ↦ pure skipped
          ])
      at_index (pos j) = create_copy_on-Keeps c operation newpath index j
      at_index (negsuc k) = nothing_done skipped

  send_texts-Keeps : (i : ℕ) (ps : List Str) → KeepsAll (send_texts net i ps)
  unfolding send_texts
  send_texts-Keeps i [] = nothing_done tt
  send_texts-Keeps i (p ∷ ps) =
      branch (has_nul p) _ _
        (seq (send net (chunk i (before_nul p))) _ (send-Keeps net _) (λ s. send_texts-Keeps i ps))
        (faulty (Unit {0}))

  write_copy-Keeps :
      (c : Command) (newpath : Str) (size_f : ℤ) (i : ℕ)
      → KeepsAll (write_copy net c newpath size_f i)
  unfolding write_copy
  write_copy-Keeps c newpath size_f i = seq (wait_server i) _ (wait_server-Keeps i) (λ u.
      seq (send net _) _ (send-Keeps net _) (λ s.
        seq (λ st. done st.temp_txt st) _ (observe (λ st. st.temp_txt))
          (λ content.
            seq (send_texts net i _) _
              (send_texts-Keeps i (pieces ((length content + 8191) / 8192) content))
              (λ u.
                seq (remove_temp net) _ (remove_temp-Keeps net)
                  (λ u. seq (recv net) _ (recv-Keeps net) (λ r. nothing_done tt))))))

  finish_file-Keeps :
      (c : Command) (newpath : Str) (f : Fetched) (o : Created)
      → KeepsAll (finish_file net c newpath f o)
  unfolding finish_file
  finish_file-Keeps c newpath f skipped = nothing_done proceed
  finish_file-Keeps c newpath f refused = nothing_done give_up
  finish_file-Keeps c newpath f (made i) =
      seq (if f.checker == 0 then pure tt else write_copy net c newpath f.size_f i) _
        (branch (f.checker == 0) _ _ (nothing_done tt) (write_copy-Keeps c newpath f.size_f i))
        (λ u. seq (post_server i) _ (post_server-Keeps i) (λ u. nothing_done proceed))

  finish_dir-Keeps : (o : Created) → KeepsAll (finish_dir net o)
  finish_dir-Keeps skipped = nothing_done proceed
  finish_dir-Keeps (made i) = nothing_done proceed
  finish_dir-Keeps refused = nothing_done give_up

  copy_entry_from-Keeps :
      (c : Command) (newpath : Str) (index : ℤ) (f : Fetched)
      → KeepsAll (copy_entry_from net c newpath index f)
  unfolding copy_entry_from
  copy_entry_from-Keeps c newpath index f =
      branch (not (ltb (length newpath) 512)) _ _ (faulty Next) (
        branch (str_eq f.text (codes "DIR")) _ _
          (seq (create_copy net c _ newpath index) _ (create_copy-Keeps c _ newpath index)
            finish_dir-Keeps)
          (seq (create_copy net c _ newpath index) _ (create_copy-Keeps c _ newpath index)
            (finish_file-Keeps c newpath f)))

  copy_entry-Keeps : (c : Command) (entry : TrieContent) → KeepsAll (copy_entry net c entry)
  unfolding copy_entry
  copy_entry-Keeps c entry =
      seq (lift_option (below_zero entry.ss_index)) _
        (lift_option-Keeps (below_zero entry.ss_index))
        (λ i.
          seq (fetch_entry net entry.val i) _ (fetch_entry-Keeps entry.val i)
            (λ f. copy_entry_from-Keeps c (c.path2 ++ 47 ∷ entry.val) (pos i) f))

  next-Keeps :
      {A : Type 0} (next : Next) (f g : M A)
      → KeepsAll f
      → KeepsAll g
      → KeepsAll (elim next [ proceed ↦ f | give_up ↦ g ])
  next-Keeps proceed f g kept_f kept_g = kept_f
  next-Keeps give_up f g kept_f kept_g = kept_g

  copy_entries-Keeps :
      (c : Command) (entries : List TrieContent) → KeepsAll (copy_entries net c entries)
  unfolding copy_entries
  copy_entries-Keeps c [] = nothing_done proceed
  copy_entries-Keeps c (entry ∷ entries) =
      seq (copy_entry net c entry) _ (copy_entry-Keeps c entry) (λ next.
        next-Keeps next (copy_entries net c entries) (pure give_up) (copy_entries-Keeps c entries)
          (nothing_done give_up))

  pub copy_dir_functionality-Keeps : (c : Command) → KeepsAll (copy_dir_functionality net c)
  unfolding copy_dir_functionality
  copy_dir_functionality-Keeps c =
      seq _ _ (observe_option (λ s. search_substring s.thp.head c.path1)) (λ c1.
        seq _ _ (observe_option (λ s. search_substring s.thp.head c.path2)) (λ c2.
          branch (not (c1 && c2)) _ _ (answer_copy-Keeps net c _) (
            seq _ _ (observe_option (λ s. ll_tries_ports_fn s.thp c.path1)) (λ entries.
              seq (copy_entries net c entries) _ (copy_entries-Keeps c entries) (λ next.
                next-Keeps next (answer_copy net c (codes "YES")) (pure tt)
                  (answer_copy-Keeps net c _) (nothing_done tt))))))
