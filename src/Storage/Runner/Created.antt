-- ===== src/Storage/Runner/Created.antt =====
-- A createfile of the naming server, from its command to the acknowledgement.
use network_file_system_in_c.Base.{
  All, List, Str, [], ap, arith, codes, false, pos, pos_ne_zero, suc, true, ℕ, ◌++◌, ◌-◌, ◌<◌, ◌∙◌,
  ◌∷◌, ◌≡◌,
}
use network_file_system_in_c.Naming.State.{Command}
use network_file_system_in_c.Storage.Disk.{entry_at, file, is_folder, set_entry}
use network_file_system_in_c.Storage.Disk.Sound.{set-HasFolder}
use network_file_system_in_c.Storage.Machine.{
  Machine, World, acknowledgement, naming, next_command, on_files, post_lock, returned, send_to,
  ticket, wait_lock,
}
use network_file_system_in_c.Storage.Paths.{cwd_fits}
use network_file_system_in_c.Storage.Paths.Folders.{make_folders-HasFolder}
use network_file_system_in_c.Storage.Paths.Made.{AllowsAll, IsClear, make_folders, target}
use network_file_system_in_c.Storage.Paths.Names.{IsName, join_path}
use network_file_system_in_c.Storage.Paths.Whole.{create_file_path_lem, make_folders-beyond}
use network_file_system_in_c.Storage.Runner.{answer_with, first_order, nm_round, run_order}
use network_file_system_in_c.Storage.Transfer.Steps.{
  HasMain, chdir_home_lem, enter_main, goes_on, main_of,
}

-- The naming server's createfile of a path of names, where nothing is in the way in "main": the file is
-- there and empty, with the folders on the way, and the answer is YES, the only thing that is sent.
-- The lock is given back, and the current directory is that of the start. Before, the lock must be
-- free and the command come, "main" be there and its path be below 1024 bytes, no folder have the
-- name, and the system refuse nothing.
pub nm_round-createfile :
    (w : World)
    → AllowsAll w.allows
    → (names : List Str) (last : Str) (m : Machine) (c : Command) {r : ℕ} → 0 < m.lock
    → w.recv_command m.commands ≡ (pos (suc r), c)
    → c.operation ≡ codes "createfile"
    → c.path1 ≡ join_path (names ++ last ∷ [])
    → HasMain m
    → cwd_fits (record { disk = m.files.disk; cwd = main_of m }) ≡ true
    → All IsName (names ++ last ∷ [])
    → IsClear m.files.disk (main_of m) names
    → is_folder (entry_at m.files.disk (last ∷ target (main_of m) names)) ≡ false
    → nm_round w m
      ≡ returned tt (record m {
        files = record {
          disk =
              set_entry
                (make_folders m.files.disk (main_of m) names)
                (last ∷ target (main_of m) names)
                (file []);
          cwd = m.home;
        };
        sent = m.sent ++ (naming, ticket (codes "YES")) ∷ [];
        commands = suc m.commands;
      })
unfolding nm_round next_command wait_lock post_lock first_order run_order on_files answer_with
    acknowledgement send_to
nm_round-createfile w all names last m c free come is_create has_path has fits is clear bare =
    let m1 : Machine = record m { lock = m.lock - 1; commands = suc m.commands } in
    let bare' = ap is_folder (make_folders-beyond m.files.disk (main_of m) names last) ∙ bare in
    let made =
      set_entry (make_folders m.files.disk (main_of m) names) (last ∷ target (main_of m) names)
        (file []) in
    rw (come, pos_ne_zero m.lock free, is_create, has_path)
      (goes_on _ (enter_main w all m1 has) (
        rw
          (create_file_path_lem w.allows all names last
            (record { disk = m.files.disk; cwd = main_of m }) is has.1 fits clear bare)
          (goes_on _
            (chdir_home_lem w all _ (
              set-HasFolder _ _ m.home (file []) bare'
                (make_folders-HasFolder m.files.disk (main_of m) names m.home has.0)))
            (ap
              (λ l. returned tt (record m {
                files = record { disk = made; cwd = m.home };
                lock = l;
                sent = m.sent ++ (naming, ticket (codes "YES")) ∷ [];
                commands = suc m.commands;
              }))
              (omega (arith, free))))))
