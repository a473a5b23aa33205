-- ===== src/Storage/Transfer.antt =====
-- The functions of Storage_server.c that send and receive files.
pub mod Copied
pub mod Steps
use network_file_system_in_c.Base.{
  Bool, List, Option, Str, [], codes, false, if◌then◌else◌, is_neg, length, none, not, pos_part,
  some, suc, take, true, zero, ℕ, ℤ, ◌++◌, ◌+◌, ◌/◌, ◌==◌, ◌∷◌,
}
use network_file_system_in_c.Lru.{rounds}
use network_file_system_in_c.Naming.Copy.{ends_within, pieces, zeros}
use network_file_system_in_c.Naming.Copy.Text.{show_digits}
use network_file_system_in_c.Naming.State.{Command, Reply}
use network_file_system_in_c.Storage.Disk.{
  Disk, Entry, Place, entry_at, file, folder, fopen_a, fopen_w, set_entry,
}
use network_file_system_in_c.Storage.Machine.{
  Peer, S, World, buffer, chdir_home, chdir_path, faulted, place_of, recv_data, returned, send_to,
  size, stat_path, status, try_files, ◌>>=◌, ◌>>◌,
}

-- A buffer of calloc with "DIR" in it. The bytes behind "FILE" are those of malloc.
unfoldable pub dir_buffer : Str
dir_buffer = codes "DIR" ++ zeros 8189

abbrev pub file_buffer : Str
file_buffer = codes "FILE" ++ 0 ∷ []

-- sprintf(siz, "%ld", …)
abbrev pub show_long : ℕ → Str
show_long n = show_digits 19 n

abbrev pub send_buffers : Peer → List Str → S (Unit {0})
send_buffers peer [] = returned tt
send_buffers peer (p ∷ ps) = send_to peer (buffer p) >> send_buffers peer ps

abbrev pub place_now : Str → S (Option Place)
place_now path m = returned (place_of m.files path) m

unfoldable pub append_file : Option Entry → Place → Str → Disk → Disk
append_file none p bytes d = d
append_file (some folder) p bytes d = d
append_file (some (file old)) p bytes d = set_entry d p (file (old ++ bytes))

module _ (w : World) where
  -- fwrite to the file that was opened at a place, and whether all the bytes were written.
  unfoldable pub fwrite : Option Place → Str → S Bool
  fwrite none bytes m = returned true m
  fwrite (some p) bytes m =
      let n = w.fwrite_result m.files.disk p bytes in
      let d = append_file (entry_at m.files.disk p) p (take n bytes) m.files.disk in
      returned (n == length bytes) (record m { files = record { disk = d; cwd = m.files.cwd } })

  -- fflush, ferror and fclose, and whether there was no error.
  unfoldable pub fclose : Option Place → S Bool
  fclose none m = returned true m
  fclose (some p) m = returned (w.is_flushed m.files.disk p) m

  -- fopen(…, "rb") of what stat has found.
  abbrev pub may_read : Option Place → Bool
  may_read none = false
  may_read (some p) = w.allows p

  -- The way home at the end of a function, with its result.
  abbrev pub home_with {ℓ} : {A : Type ℓ} → A → S A
  home_with a = chdir_home w >> returned a

  abbrev pub enter_dir : Str → S Bool
  enter_dir dir = chdir_home w >> chdir_path w dir

  -- A folder answers with size 1 and "DIR", a file with its size and then its bytes, 8192 at a time and
  -- the last buffer filled up with zeros. Nothing is sent for a path that is not there, and for a
  -- file that cannot be opened.
  unfoldable pub send_found : Peer → Option Place → Option Entry → S (Unit {0})
  send_found peer at none = returned tt
  send_found peer at (some folder) =
      send_to peer (size (show_long 1)) >> send_to peer (buffer dir_buffer) >> home_with tt
  send_found peer at (some (file bytes)) =
      if may_read at
      then (send_to peer (size (show_long (length bytes)))
          >> send_buffers peer (pieces ((length bytes + 8191) / 8192) bytes)
          >> home_with tt)
      else returned tt

  unfoldable pub process_file : Str → Peer → Str → S (Unit {0})
  process_file path peer dir = do
    b ← enter_dir dir
    at ← place_now path
    found ← stat_path path
    send_found peer at found

  -- getsiz_isdir: of a file the size, and "FILE".
  unfoldable pub send_kind : Peer → Option Place → Option Entry → S (Unit {0})
  send_kind peer at none = returned tt
  send_kind peer at (some folder) =
      send_to peer (size (show_long 1)) >> send_to peer (buffer dir_buffer) >> home_with tt
  send_kind peer at (some (file bytes)) =
      if may_read at
      then (send_to peer (size (show_long (length bytes)))
          >> send_to peer (buffer file_buffer)
          >> home_with tt)
      else returned tt

  unfoldable pub getsiz_isdir : Str → Peer → S (Unit {0})
  getsiz_isdir path peer = do
    b ← enter_dir (codes "main")
    at ← place_now path
    found ← stat_path path
    send_kind peer at found

  -- The end of a function that has written its file.
  unfoldable pub close_file : Option Place → S ℕ
  close_file at = do closed ← fclose at; if closed then home_with 1 else returned 0

  unfoldable pub write_and_close : Option Place → Str → S ℕ
  write_and_close at bytes = do went ← fwrite at bytes; if went then close_file at else returned 0

  -- The rounds of recv and fwrite; one that fails ends them.
  unfoldable pub receive_rounds : Option Place → ℕ → S Bool
  receive_rounds at zero = returned true
  receive_rounds at (suc k) =
      let rest = receive_rounds at k in
      recv_data w >>= λ r. if is_neg r.count then returned false else (do
        went ← fwrite at (take (pos_part r.count) r.text)
        if went then rest else returned false)

  -- receive_file, with the number of rounds, which is the text in path2 of the command.
  unfoldable pub receive_file : Str → ℤ → S ℕ
  receive_file path rounds = do
    b ← enter_dir (codes "main")
    at ← place_now path
    opened ← try_files (fopen_w w.allows at)
    if opened
        then (do
          came ← receive_rounds at (pos_part rounds)
          if came then close_file at else returned 0)
        else returned 0

  -- client_receive_file: one recv, whatever the client sends.
  unfoldable pub client_receive_file : Str → S ℕ
  client_receive_file path = do
    b ← enter_dir (codes "main")
    at ← place_now path
    opened ← try_files (fopen_w w.allows at)
    if opened
        then (do
          r ← recv_data w
          if is_neg r.count
              then returned 0
              else write_and_close at (take (pos_part r.count) r.text))
        else returned 0

  -- receive_file_REDUN: a chunk at the end of the file. The buffer is printed with %s first, and read
  -- past its end if all its 8192 bytes have come and none is NUL.
  unfoldable pub append_chunk : Option Place → Reply → S ℕ
  append_chunk at r =
      if not (ends_within (take (pos_part r.count) r.text))
      then faulted
      else if is_neg r.count
      then returned 0
      else write_and_close at (take (pos_part r.count) r.text)

  unfoldable pub receive_file_redun : Str → S ℕ
  receive_file_redun path = do
    at ← place_now path
    opened ← try_files (fopen_a w.allows at)
    if opened then (recv_data w >>= append_chunk at) else returned 0

  -- The struct stat is sent even if stat has failed.
  unfoldable pub info_file : Str → Peer → S (Unit {0})
  info_file path peer = do
    b ← enter_dir (codes "main")
    found ← stat_path path
    send_to peer (status found)
    home_with tt

  -- rm -rf in a child process.
  unfoldable pub remove_tree : Str → S (Unit {0})
  remove_tree path m =
      let s = m.files in
      returned tt (record m { files = record { disk = w.rm_rf s.cwd path s.disk; cwd = s.cwd } })

  -- deleteFolder has no return statement, and its result is used.
  unfoldable pub delete_folder : Str → S ℕ
  delete_folder path = remove_tree path >> faulted

  unfoldable pub delete_red_folder : Command → S (Unit {0})
  delete_red_folder c = chdir_home w >> remove_tree c.path1
