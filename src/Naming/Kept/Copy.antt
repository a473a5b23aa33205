-- ===== src/Naming/Kept/Copy.antt =====
-- copyfunctionality keeps the trie valid.
use network_file_system_in_c.Base.{
  List, Str, [], codes, eq_int, is_pos, length, negsuc, pos, pos_part, suc, zero, ℕ, ℤ, ◌&&◌, ◌+◌,
  ◌/◌, ◌||◌, ◌∷◌,
}
use network_file_system_in_c.Naming.Copy.{
  answer_copy, append_temp, copy_between, copy_functionality, fetch, find_copy_ports, first_of,
  pieces, receive_chunks, received, remove_temp, send_chunks, store_copy,
}
use network_file_system_in_c.Naming.Copy.Text.{atoi, chunk_count}
use network_file_system_in_c.Naming.Kept.Create.{answered-Keeps, listed-Keeps}
use network_file_system_in_c.Naming.Kept.Primitives.{
  KeepsAll, branch, cache_get-Keeps, cache_put-Keeps, faulty, lift_option-Keeps, list_at-Keeps,
  new_list-Keeps, nothing_done, observe, post_server-Keeps, recv-Keeps, send-Keeps, seq, still,
  wait_server-Keeps,
}
use network_file_system_in_c.Naming.State.{
  Command, Network, cache_get, cache_put, chunk, done, lift_option, list_at, new_list, post_server,
  recv, send, wait_server,
}

module _ (net : Network) where
  pub append_temp-Keeps : (bytes : Str) → KeepsAll (append_temp net bytes)
  unfolding append_temp
  append_temp-Keeps bytes s = still s _ _ _ _ _ _ _ _ _ _

  pub remove_temp-Keeps : KeepsAll (remove_temp net)
  unfolding remove_temp
  remove_temp-Keeps s = still s _ _ _ _ _ _ _ _ _ _

  find_copy_ports-Keeps : (path : Str) → KeepsAll (find_copy_ports net path)
  unfolding find_copy_ports
  find_copy_ports-Keeps path = seq new_list _ new_list-Keeps (λ fresh.
      seq (cache_get path) _ (cache_get-Keeps path) (λ found. listed-Keeps path fresh found))

  receive_chunks-Keeps : (k : ℕ) → KeepsAll (receive_chunks net k)
  unfolding receive_chunks
  receive_chunks-Keeps zero = nothing_done tt
  receive_chunks-Keeps (suc k) = seq (recv net) _ (recv-Keeps net) (λ r.
      seq (lift_option (received r.count r.text)) _ (lift_option-Keeps (received r.count r.text))
        (λ bytes.
          seq (append_temp net bytes) _ (append_temp-Keeps bytes) (λ u. receive_chunks-Keeps k)))

  send_chunks-Keeps : (i : ℕ) (ps : List Str) → KeepsAll (send_chunks net i ps)
  unfolding send_chunks
  send_chunks-Keeps i [] = nothing_done tt
  send_chunks-Keeps i (p ∷ ps) =
      seq (send net (chunk i p)) _ (send-Keeps net (chunk i p)) (λ s. send_chunks-Keeps i ps)

  pub answer_copy-Keeps : (c : Command) (answer : Str) → KeepsAll (answer_copy net c answer)
  unfolding answer_copy
  answer_copy-Keeps c answer = answered-Keeps net c answer _ _

  fetch-Keeps : (c : Command) (i : ℕ) → KeepsAll (fetch net c i)
  unfolding fetch
  fetch-Keeps c i = seq (wait_server i) _ (wait_server-Keeps i) (λ u.
      seq (send net _) _ (send-Keeps net _) (λ s. seq (recv net) _ (recv-Keeps net) (λ r.
        branch (is_pos r.count && net.opens (codes "temp.txt")) _ _
          (seq (receive_chunks net _) _
            (receive_chunks-Keeps (pos_part (chunk_count (atoi r.text))))
            (λ u.
              seq (post_server i) _ (post_server-Keeps i)
                (λ u. nothing_done (chunk_count (atoi r.text)))))
          (faulty ℤ))))

  store_copy-Keeps : (c : Command) (i : ℕ) (size_f : ℤ) → KeepsAll (store_copy net c i size_f)
  unfolding store_copy
  store_copy-Keeps c i size_f = seq (wait_server i) _ (wait_server-Keeps i) (λ u.
      seq (send net _) _ (send-Keeps net _) (λ s.
        seq (λ st. done st.temp_txt st) _ (observe (λ st. st.temp_txt))
          (λ content.
            seq (send_chunks net i _) _
              (send_chunks-Keeps i (pieces ((length content + 8191) / 8192) content))
              (λ u. seq (remove_temp net) _ remove_temp-Keeps (λ u.
                seq (post_server i) _ (post_server-Keeps i)
                  (λ u. seq (recv net) _ (recv-Keeps net) (λ r. nothing_done tt)))))))

  copy_between-Keeps : (c : Command) (i i2 : ℤ) → KeepsAll (copy_between net c i i2)
  unfolding copy_between
  copy_between-Keeps c (negsuc k) i2 = faulty (Unit {0})
  copy_between-Keeps c (pos i) (negsuc k) =
      seq (fetch net c i) _ (fetch-Keeps c i) (λ n. faulty (Unit {0}))
  copy_between-Keeps c (pos i) (pos i2) = seq (fetch net c i) _ (fetch-Keeps c i) (λ size_f.
      seq (store_copy net c i2 size_f) _ (store_copy-Keeps c i2 size_f)
        (λ u. answer_copy-Keeps c _))

  pub copy_functionality-Keeps : (c : Command) → KeepsAll (copy_functionality net c)
  unfolding copy_functionality
  copy_functionality-Keeps c =
      seq (find_copy_ports net c.path1) _ (find_copy_ports-Keeps c.path1) (λ p.
        seq (find_copy_ports net c.path2) _ (find_copy_ports-Keeps c.path2) (λ p2.
          seq (list_at p) _ (list_at-Keeps p) (λ ports.
            seq (list_at p2) _ (list_at-Keeps p2) (λ ports2.
              branch (eq_int ports2.curr_size (pos 0) || eq_int ports.curr_size (pos 0)) _ _
                (answer_copy-Keeps c _)
                (seq (cache_put c.path1 p) _ (cache_put-Keeps c.path1 p) (λ u.
                  seq (cache_put c.path2 p2) _ (cache_put-Keeps c.path2 p2) (λ u.
                    seq (lift_option (first_of ports.first)) _
                      (lift_option-Keeps (first_of ports.first))
                      (λ i.
                        seq (lift_option (first_of ports2.first)) _
                          (lift_option-Keeps (first_of ports2.first))
                          (λ i2. copy_between-Keeps c i i2)))))))))
