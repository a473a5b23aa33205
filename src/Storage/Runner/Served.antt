-- ===== src/Storage/Runner/Served.antt =====
-- Every round of NM_runner and of C_runner gives the lock back.
use network_file_system_in_c.Base.{
  Option, Str, [], arith, codes, if◌then◌else◌, is_neg, not, pos_part, refl, str_eq, take, ℕ, ℤ,
}
use network_file_system_in_c.Naming.Copy.{ends_within}
use network_file_system_in_c.Naming.Copy.Text.{atoi}
use network_file_system_in_c.Naming.State.{Command, Reply}
use network_file_system_in_c.Storage.Disk.{Place, Try, dot, fopen_a, fopen_w, mkdir}
use network_file_system_in_c.Storage.Listing.{Listed, full, listed, main_count, no_fuel}
use network_file_system_in_c.Storage.Listing.Ended.{GrowsTo, list_files-GrowsTo}
use network_file_system_in_c.Storage.Machine.{
  Machine, Peer, S, World, acknowledgement, chdir_home, client, faulted, naming, place_of,
  recv_data, returned, send_to, stat_path, status, try_files, ◌>>=◌, ◌>>◌,
}
use network_file_system_in_c.Storage.Paths.{create_dir_path, create_file_path, remove_last_file}
use network_file_system_in_c.Storage.Runner.{
  Order, answer_listing, answer_with, below, copy_red_file, copydirread, copyfileread,
  copyfilewrite, create_red_dir, create_red_file, createdir, createfile, deletedir, deletefile,
  deletereddir, get_main, get_main_order, getsizdir, run_order, run_request, unknown,
}
use network_file_system_in_c.Storage.Runner.Kept.{
  After, Keeps, bind-Keeps, chdir_home-Keeps, close_file-Keeps, enter_dir-Keeps, fwrite-Keeps,
  home_with-Keeps, if-Keeps, in_dir-Keeps, on_files-Keeps, receive_rounds-Keeps, recv_data-Keeps,
  returned-Keeps, send_found-Keeps, send_kind-Keeps, send_to-Keeps, try_files-Keeps,
}
use network_file_system_in_c.Storage.Transfer.{
  append_chunk, client_receive_file, close_file, delete_folder, delete_red_folder, fwrite,
  getsiz_isdir, home_with, info_file, place_now, process_file, receive_file, receive_file_redun,
  remove_tree, write_and_close,
}
use network_file_system_in_c.Tries.Node.{ends}

module _ (w : World) where
  pub process_file-Keeps :
      (path : Str) (peer : Peer) (dir : Str) → Keeps w (process_file w path peer dir)
  unfolding process_file stat_path
  process_file-Keeps path peer dir =
      in_dir-Keeps w dir (place_now path) _ (λ m. (refl, refl))
        (λ at. bind-Keeps w (stat_path path) _ (λ m. (refl, refl)) (send_found-Keeps w peer at))

  getsiz_isdir-Keeps : (path : Str) (peer : Peer) → Keeps w (getsiz_isdir w path peer)
  unfolding getsiz_isdir stat_path
  getsiz_isdir-Keeps path peer =
      in_dir-Keeps w (codes "main") (place_now path) _ (λ m. (refl, refl))
        (λ at. bind-Keeps w (stat_path path) _ (λ m. (refl, refl)) (send_kind-Keeps w peer at))

  pub info_file-Keeps : (path : Str) (peer : Peer) → Keeps w (info_file w path peer)
  unfolding info_file stat_path
  info_file-Keeps path peer =
      in_dir-Keeps w (codes "main") (stat_path path) _ (λ m. (refl, refl))
        (λ found.
          bind-Keeps w _ (λ u. home_with w tt) (send_to-Keeps w peer (status found))
            (λ u. home_with-Keeps w tt))

  -- A file that has been opened to be written, or not.
  opened-Keeps :
      (call : Try) (k : S ℕ)
      → Keeps w k
      → Keeps w (try_files call >>= λ opened. if opened then k else returned 0)
  opened-Keeps call k kept =
      bind-Keeps w (try_files call) _ (try_files-Keeps w call)
        (λ opened. if-Keeps w opened k (returned 0) kept (returned-Keeps w {A = ℕ} 0))

  written-Keeps : (at : Option Place) (bytes : Str) → Keeps w {A = ℕ} (write_and_close w at bytes)
  unfolding write_and_close
  written-Keeps at bytes = bind-Keeps w (fwrite w at bytes) _ (fwrite-Keeps w at bytes) (λ went.
      if-Keeps w went (close_file w at) (returned 0) (close_file-Keeps w at)
        (returned-Keeps w {A = ℕ} 0))

  receive_file-Keeps : (path : Str) (n : ℤ) → Keeps w (receive_file w path n)
  unfolding receive_file
  receive_file-Keeps path n =
      in_dir-Keeps w (codes "main") (place_now path) _ (λ m. (refl, refl))
        (λ at. opened-Keeps (fopen_w w.allows at) _ (
          bind-Keeps w _ _ (receive_rounds-Keeps w at (pos_part n)) (λ came.
            if-Keeps w came (close_file w at) (returned 0) (close_file-Keeps w at)
              (returned-Keeps w {A = ℕ} 0))))

  pub client_receive_file-Keeps : (path : Str) → Keeps w (client_receive_file w path)
  unfolding client_receive_file
  client_receive_file-Keeps path =
      in_dir-Keeps w (codes "main") (place_now path) _ (λ m. (refl, refl))
        (λ at. opened-Keeps (fopen_w w.allows at) _ (
          bind-Keeps w (recv_data w) _ (recv_data-Keeps w) (λ r.
            if-Keeps w (is_neg r.count) (returned 0) _ (returned-Keeps w {A = ℕ} 0)
              (written-Keeps at (take (pos_part r.count) r.text)))))

  append_chunk-Keeps : (at : Option Place) (r : Reply) → Keeps w (append_chunk w at r)
  unfolding append_chunk
  append_chunk-Keeps at r =
      if-Keeps w (not (ends_within (take (pos_part r.count) r.text))) faulted _ (λ m. tt)
        (if-Keeps w (is_neg r.count) (returned 0) _ (returned-Keeps w {A = ℕ} 0)
          (written-Keeps at (take (pos_part r.count) r.text)))

  receive_file_redun-Keeps : (path : Str) → Keeps w (receive_file_redun w path)
  unfolding receive_file_redun
  receive_file_redun-Keeps path =
      bind-Keeps w (place_now path) _ (λ m. (refl, refl))
        (λ at. opened-Keeps (fopen_a w.allows at) _ (
          bind-Keeps w (recv_data w) (append_chunk w at) (recv_data-Keeps w)
            (append_chunk-Keeps at)))

  remove_tree-Keeps : (path : Str) → Keeps w (remove_tree w path)
  unfolding remove_tree
  remove_tree-Keeps path m = (refl, refl)

  delete_folder-Keeps : (path : Str) → Keeps w (delete_folder w path)
  unfolding delete_folder
  delete_folder-Keeps path =
      bind-Keeps w (remove_tree w path) (λ u. faulted) (remove_tree-Keeps path) (λ u m. tt)

  -- The list of files always ends.
  get_main-Keeps : Keeps w (get_main w)
  unfolding get_main main_count answer_listing send_to
  get_main-Keeps = bind-Keeps w _ _ (enter_dir-Keeps w (codes "main")) (λ b m.
      bind-Keeps w (chdir_home w) (λ u. answer_listing w (main_count w.allows m.files))
        (chdir_home-Keeps w)
        (λ u m2.
          answered (main_count w.allows m.files) m2
            (list_files-GrowsTo w.allows m.files 4096 dot [] (omega arith) (omega arith)))
        m)
    where
      answered : (l : Listed) (m : Machine) → GrowsTo [] l → After w m (answer_listing w l m)
      answered (listed r) m ends = (refl, refl)
      answered (full r) m ends = refl
      answered no_fuel m never = absurd never

  answered-Keeps : (f : S ℕ) → Keeps w f → Keeps w (f >>= answer_with w)
  unfolding answer_with acknowledgement
  answered-Keeps f kept = bind-Keeps w f (answer_with w) kept (λ r. send_to-Keeps w naming _)

  below-Keeps : (dir : Str) (call : S ℕ) → Keeps w call → Keeps w (below w dir call)
  below-Keeps dir call kept =
      bind-Keeps w _ (λ r. returned tt)
        (bind-Keeps w _ (λ b. call) (enter_dir-Keeps w dir) (λ b. kept)) (λ r. returned-Keeps w tt)

  delete_red_dir-Keeps :
      (c : Command)
      → Keeps w (
          delete_red_folder w c
          >> chdir_home w
          >> (λ m. try_files (mkdir w.allows (place_of m.files c.path1)) m)
          >> returned tt)
  unfolding delete_red_folder
  delete_red_dir-Keeps c =
      bind-Keeps w _ (λ u. returned tt)
        (bind-Keeps w _ (λ u m. try_files (mkdir w.allows (place_of m.files c.path1)) m)
          (bind-Keeps w _ (λ u. chdir_home w)
            (bind-Keeps w (chdir_home w) (λ b. remove_tree w c.path1) (chdir_home-Keeps w)
              (λ b. remove_tree-Keeps c.path1))
            (λ u. chdir_home-Keeps w))
          (λ u m. try_files-Keeps w (mkdir w.allows (place_of m.files c.path1)) m))
        (λ u. returned-Keeps w tt)

  pub run_order-Keeps : (o : Order) (c : Command) → Keeps w (run_order w o c)
  unfolding run_order
  run_order-Keeps createfile c =
      answered-Keeps _ (on_files-Keeps w (create_file_path w.allows c.path1))
  run_order-Keeps createdir c =
      answered-Keeps _ (on_files-Keeps w (create_dir_path w.allows c.path1))
  run_order-Keeps deletefile c =
      answered-Keeps _ (on_files-Keeps w (remove_last_file w.allows c.path1))
  run_order-Keeps deletedir c = answered-Keeps _ (delete_folder-Keeps c.path1)
  run_order-Keeps copyfileread c = process_file-Keeps c.path1 naming (codes "main")
  run_order-Keeps copyfilewrite c = answered-Keeps _ (receive_file-Keeps c.path1 (atoi c.path2))
  run_order-Keeps copydirread c = process_file-Keeps c.path1 naming (codes "main")
  run_order-Keeps deletereddir c = delete_red_dir-Keeps c
  run_order-Keeps get_main_order c = get_main-Keeps
  run_order-Keeps create_red_dir c =
      below-Keeps c.path2 _ (on_files-Keeps w (create_dir_path w.allows c.path1))
  run_order-Keeps create_red_file c =
      below-Keeps c.path2 _ (on_files-Keeps w (create_file_path w.allows c.path1))
  run_order-Keeps copy_red_file c = below-Keeps c.path2 _ (receive_file_redun-Keeps c.path1)
  run_order-Keeps getsizdir c = getsiz_isdir-Keeps c.path1 naming
  run_order-Keeps unknown c = returned-Keeps w tt

  pub run_request-Keeps : (c : Command) → Keeps w (run_request w c)
  unfolding run_request
  run_request-Keeps c =
      if-Keeps w (str_eq (codes "read") c.operation) (process_file w c.path1 client c.path2) _
        (process_file-Keeps c.path1 client c.path2)
        (if-Keeps w (str_eq (codes "write") c.operation)
          (client_receive_file w c.path1 >> returned tt) _
          (bind-Keeps w (client_receive_file w c.path1) (λ u. returned tt)
            (client_receive_file-Keeps c.path1) (λ u. returned-Keeps w tt))
          (if-Keeps w (str_eq (codes "info") c.operation) (info_file w c.path1 client) (returned tt)
            (info_file-Keeps c.path1 client) (returned-Keeps w tt)))
