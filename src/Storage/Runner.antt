-- ===== src/Storage/Runner.antt =====
-- NM_runner and C_runner: the commands of the naming server and of the clients.
pub mod Created
pub mod Kept
pub mod Rounds
pub mod Served
pub mod Written
use network_file_system_in_c.Base.{
  List, Str, [], codes, if◌then◌else◌, is_neg, is_pos, not, str_eq, ℕ, ◌==◌, ◌∷◌,
}
use network_file_system_in_c.Naming.Copy.Text.{atoi}
use network_file_system_in_c.Naming.State.{Command}
use network_file_system_in_c.Storage.Disk.{mkdir}
use network_file_system_in_c.Storage.Listing.{Listed, full, listed, main_count, no_fuel}
use network_file_system_in_c.Storage.Machine.{
  S, World, acknowledgement, chdir_home, client, exited, listing, naming, next_command, on_files,
  place_of, post_lock, returned, send_to, try_files, wait_lock, waiting, ◌>>=◌, ◌>>◌,
}
use network_file_system_in_c.Storage.Paths.{create_dir_path, create_file_path, remove_last_file}
use network_file_system_in_c.Storage.Transfer.{
  client_receive_file, delete_folder, delete_red_folder, enter_dir, getsiz_isdir, info_file,
  process_file, receive_file, receive_file_redun,
}

-- The operations of the commands that the naming server sends, and any other one.
pub data Order : Type 0 where
  createfile createdir deletefile deletedir : Order
  copyfileread copyfilewrite copydirread : Order
  deletereddir get_main_order : Order
  create_red_dir create_red_file copy_red_file : Order
  getsizdir : Order
  unknown : Order

-- The comparisons with `operation`, in their order.
unfoldable pub first_order : List (Str × Order) → Str → Order
first_order [] operation = unknown
first_order ((name, order) ∷ more) operation =
    let later = first_order more operation in if str_eq name operation then order else later

abbrev pub orders : List (Str × Order)
orders =
    (codes "createfile", createfile)
    ∷ (codes "createdir", createdir)
    ∷ (codes "deletefile", deletefile)
    ∷ (codes "deletedir", deletedir)
    ∷ (codes "copyfileread", copyfileread)
    ∷ (codes "copyfilewrite", copyfilewrite)
    ∷ (codes "copydirread", copydirread)
    ∷ (codes "deletereddir", deletereddir)
    ∷ (codes "getMain", get_main_order)
    ∷ (codes "createREDdir", create_red_dir)
    ∷ (codes "createREDfile", create_red_file)
    ∷ (codes "copyREDfile", copy_red_file)
    ∷ (codes "getsizdir", getsizdir)
    ∷ []

abbrev pub order_of : Str → Order
order_of operation = first_order orders operation

module _ (w : World) where
  -- The acknowledgement for the result of a function.
  unfoldable pub answer_with : ℕ → S (Unit {0})
  answer_with test = acknowledgement (if test == 1 then codes "YES" else codes "NO")

  -- MainCount, and its result to the naming server. chdir of "main" comes with every call.
  unfoldable pub answer_listing : Listed → S (Unit {0})
  answer_listing (listed r) m = send_to naming (listing r) (record m { result = r })
  answer_listing (full r) m = exited (record m { result = r })
  answer_listing no_fuel m = waiting m

  unfoldable pub get_main : S (Unit {0})
  get_main = do
    b ← enter_dir w (codes "main")
    found ← λ m. returned (main_count w.allows m.files) m
    b ← chdir_home w
    answer_listing found

  -- A path in a folder of the storage server: chdir home, and into the folder.
  abbrev pub below : Str → S ℕ → S (Unit {0})
  below dir call = enter_dir w dir >> call >> returned tt

  -- What is done for each of them.
  unfoldable pub run_order : Order → Command → S (Unit {0})
  run_order createfile c = on_files (create_file_path w.allows c.path1) >>= answer_with
  run_order createdir c = on_files (create_dir_path w.allows c.path1) >>= answer_with
  run_order deletefile c = on_files (remove_last_file w.allows c.path1) >>= answer_with
  run_order deletedir c = delete_folder w c.path1 >>= answer_with
  run_order copyfileread c = process_file w c.path1 naming (codes "main")
  run_order copyfilewrite c = receive_file w c.path1 (atoi c.path2) >>= answer_with
  run_order copydirread c = process_file w c.path1 naming (codes "main")
  run_order deletereddir c =
      delete_red_folder w c
      >> chdir_home w
      >> (λ m. try_files (mkdir w.allows (place_of m.files c.path1)) m)
      >> returned tt
  run_order get_main_order c = get_main
  run_order create_red_dir c = below c.path2 (on_files (create_dir_path w.allows c.path1))
  run_order create_red_file c = below c.path2 (on_files (create_file_path w.allows c.path1))
  run_order copy_red_file c = below c.path2 (receive_file_redun w c.path1)
  run_order getsizdir c = getsiz_isdir w c.path1 naming
  run_order unknown c = returned tt

  abbrev pub run_command : Command → S (Unit {0})
  run_command c = run_order (order_of c.operation) c

  -- One round of NM_runner. The process ends while it holds `lock`, if no command comes.
  unfoldable pub nm_round : S (Unit {0})
  nm_round = do
    (r, c) ← next_command w
    wait_lock
    if not (is_pos r)
        then exited
        else (do b ← enter_dir w (codes "main"); run_command c; b ← chdir_home w; post_lock)

  -- The request of a client.
  unfoldable pub run_request : Command → S (Unit {0})
  run_request c =
      if str_eq (codes "read") c.operation
      then process_file w c.path1 client c.path2
      else if str_eq (codes "write") c.operation
      then client_receive_file w c.path1 >> returned tt
      else if str_eq (codes "info") c.operation
      then info_file w c.path1 client
      else returned tt

  -- One round of C_runner, after accept.
  unfoldable pub c_round : S (Unit {0})
  c_round = do
    (r, c) ← next_command w
    wait_lock
    if is_neg r then returned tt else run_request c
    post_lock
