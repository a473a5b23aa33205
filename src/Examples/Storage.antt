-- ===== src/Examples/Storage.antt =====
-- SS_functions.c and Storage_server.c on a disk with "main" and one file in it.
use network_file_system_in_c.Base.{
  All, [], arith, codes, false, inl, leb, length, none, pos, refl, suc, true, zero, ℕ, ℤ, ◌∷◌, ◌≡◌,
  ◌≤◌,
}
use network_file_system_in_c.Examples.Handlers.{lt_of_ltb}
use network_file_system_in_c.Naming.Copy.{zeros}
use network_file_system_in_c.Naming.State.{Command, Reply}
use network_file_system_in_c.Storage.Disk.{Disk, Files, Place, Rights, entry_at, file, folder}
use network_file_system_in_c.Storage.Disk.Sound.{HasFolder}
use network_file_system_in_c.Storage.Listing.{list_files}
use network_file_system_in_c.Storage.Listing.Ended.{GrowsTo, list_files-GrowsTo}
use network_file_system_in_c.Storage.Machine.{Machine, World}
use network_file_system_in_c.Storage.Paths.{create_dir_path, create_file_path, remove_last_file}
use network_file_system_in_c.Storage.Paths.Made.{IsClear, make_folders, target}
use network_file_system_in_c.Storage.Paths.Names.{IsName, join_path}
use network_file_system_in_c.Storage.Paths.Stopped.{create_dir_path-file}
use network_file_system_in_c.Storage.Paths.Undone.{remove_last_file-create_file_path}
use network_file_system_in_c.Storage.Paths.Whole.{create_dir_path_lem}
use network_file_system_in_c.Storage.Transfer.Steps.{HasMain}

-- The system refuses nothing; every recv brings one byte; the first command is a write, the second
-- a read.
abbrev pub all_allowed : Rights
all_allowed = λ p. true

abbrev pub write_b : Command
write_b = record { operation = codes "write"; path1 = codes "b"; path2 = codes "main"; port = 0 }

abbrev pub read_b : Command
read_b = record { operation = codes "read"; path1 = codes "b"; path2 = codes "main"; port = 0 }

abbrev pub make_d_b : Command
make_d_b = record { operation = codes "createfile"; path1 = codes "d/b"; path2 = []; port = 0 }

abbrev pub write_then_read : ℕ → ℤ × Command
write_then_read zero = (pos 1, write_b)
write_then_read (suc n) = (pos 1, read_b)

abbrev pub world_of : (ℕ → Reply) → (ℕ → ℤ × Command) → World
world_of recvs commands = record {
  allows = all_allowed;
  recv_result = recvs;
  blocks = λ n. false;
  recv_command = commands;
  fwrite_result = λ d p bytes. length bytes;
  is_flushed = λ d p. true;
  rm_rf = λ at path d. d;
}

abbrev pub one_byte : ℕ → Reply
one_byte n = record { count = pos 1; text = 120 ∷ [] }

abbrev pub main_place : Place
main_place = codes "main" ∷ []

abbrev pub a_disk : Disk
a_disk = ([], folder) ∷ (main_place, folder) ∷ (codes "a" ∷ main_place, file (codes "hi")) ∷ []

abbrev pub a_machine : Machine
a_machine = record {
  files = record { disk = a_disk; cwd = [] };
  home = [];
  result = [];
  lock = 1;
  sent = [];
  recvs = 0;
  commands = 0;
}

abbrev pub in_main : Files
in_main = record { disk = a_disk; cwd = main_place }

le_of_leb : (m n : ℕ) → leb m n ≡ true → m ≤ n
le_of_leb m n h = ground arith

a_IsName : IsName (codes "a")
a_IsName = record { filled = refl; short = le_of_leb 1 255 refl; whole = (refl, tt); plain = refl }

b_IsName : IsName (codes "b")
b_IsName = record { filled = refl; short = le_of_leb 1 255 refl; whole = (refl, tt); plain = refl }

d_IsName : IsName (codes "d")
d_IsName = record { filled = refl; short = le_of_leb 1 255 refl; whole = (refl, tt); plain = refl }

pub d_b_IsName : All IsName (codes "d" ∷ codes "b" ∷ [])
d_b_IsName = (d_IsName, (b_IsName, tt))

a_b_IsName : All IsName (codes "a" ∷ codes "b" ∷ [])
a_b_IsName = (a_IsName, (b_IsName, tt))

pub a_machine-HasMain : HasMain a_machine
unfolding entry_at
a_machine-HasMain = (refl, refl)

main-HasFolder : HasFolder a_disk main_place
unfolding entry_at
main-HasFolder = refl

-- "d" is missing in "main", and so is "d/b".
pub d_free : IsClear a_disk main_place (codes "d" ∷ [])
unfolding entry_at
d_free = (inl refl, tt)

pub d_b_free : entry_at a_disk (codes "b" ∷ target main_place (codes "d" ∷ [])) ≡ none
unfolding entry_at
d_b_free = refl

create_dir_path_example :
    create_dir_path all_allowed (join_path (codes "d" ∷ codes "b" ∷ [])) in_main
    ≡ (1, record in_main { disk = make_folders a_disk main_place (codes "d" ∷ codes "b" ∷ []) })
unfolding entry_at
create_dir_path_example =
    create_dir_path_lem all_allowed (λ p. refl) (codes "d" ∷ codes "b" ∷ []) in_main d_b_IsName refl
      refl (inl refl, (inl refl, tt))

remove_last_file-create_file_path_example :
    let path = join_path (codes "d" ∷ codes "b" ∷ []) in
    let (result, after) =
      remove_last_file all_allowed path ((create_file_path all_allowed path in_main).1) in
    (result ≡ 1)
    × (after.cwd ≡ main_place)
    × ((q : Place)
        → entry_at after.disk q ≡ entry_at (make_folders a_disk main_place (codes "d" ∷ [])) q)
remove_last_file-create_file_path_example =
    remove_last_file-create_file_path all_allowed (λ p. refl) (codes "d" ∷ []) (codes "b") in_main
      d_b_IsName main-HasFolder refl d_free d_b_free

create_dir_path-file_example :
    create_dir_path all_allowed (join_path (codes "a" ∷ codes "b" ∷ [])) in_main
    ≡ (0, record { disk = make_folders a_disk main_place []; cwd = target main_place [] })
unfolding entry_at
create_dir_path-file_example =
    create_dir_path-file all_allowed (λ p. refl) [] (codes "a") (codes "b" ∷ []) in_main a_b_IsName
      refl refl tt refl

-- A disk with the root alone.
-- A directory whose path is the root, a name of 1023 bytes, and the NUL.
abbrev deep : Files
deep = record { disk = []; cwd = zeros 1023 ∷ [] }

list_files-GrowsTo_example : GrowsTo [] (list_files all_allowed in_main 4096 [] [])
list_files-GrowsTo_example =
    list_files-GrowsTo all_allowed in_main 4096 [] [] (le_of_leb 4096 4096 refl)
      (lt_of_ltb 0 4096 refl)
