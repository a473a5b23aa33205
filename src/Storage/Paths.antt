-- ===== src/Storage/Paths.antt =====
-- SS_functions.c: the paths of files and folders that a storage server makes and removes.
pub mod Made
pub mod Names
pub mod Tree
pub mod Folders
pub mod Whole
pub mod Stopped
pub mod Undone
use network_file_system_in_c.Base.{
  Bool, List, Option, Str, [], if◌then◌else◌, is_empty_str, length, ltb, not, some, take, true, ℕ,
  ◌&&◌, ◌++◌, ◌+◌, ◌==◌, ◌∷◌,
}
use network_file_system_in_c.Storage.Disk.{
  Files, Place, Rights, Try, enter, fopen_w, mkdir, remove, walk, ◌andalso◌,
}

-- strtok_r with "/": the tokens, each with the test whether nothing is left behind it
-- (`*rest == '\0'`). A second '/' behind the last token is something.
unfoldable pub parts_from : Str → Str → List (Str × Bool)
parts_from cur [] = if is_empty_str cur then [] else (cur, true) ∷ []
parts_from cur (c ∷ cs) =
    let rest = parts_from (if c == 47 then [] else cur ++ c ∷ []) cs in
    if (c == 47) && not (is_empty_str cur) then (cur, is_empty_str cs) ∷ rest else rest

unfoldable pub parts : Str → List (Str × Bool)
parts path = parts_from [] path

-- getcwd has room for 1023 bytes.
abbrev pub place_length : Place → ℕ
place_length [] = 1
place_length (name ∷ []) = 1 + length name
place_length (name ∷ m ∷ p) = place_length (m ∷ p) + 1 + length name

abbrev pub cwd_fits : Files → Bool
cwd_fits s = ltb (place_length s.cwd) 1024

-- The C result of a loop.
abbrev pub as_int : Bool × Files → ℕ × Files
as_int (went, s) = (if went then 1 else 0, s)

-- A name as currentPath holds it.
abbrev pub current : Str → Str
current token = take 255 token

-- A call on one name in the current directory.
abbrev pub at_name : (Option Place → Try) → Str → Try
at_name call name s = call (walk s.disk s.cwd (name ∷ [])) s

module _ (allows : Rights) where
  unfoldable pub create_file : Str → Try
  create_file name = at_name (fopen_w allows) name

  unfoldable pub create_directory : Str → Try
  create_directory name = at_name (mkdir allows) name

  unfoldable pub chdir_name : Str → Try
  chdir_name name = at_name (enter allows) name

  unfoldable pub delete_file : Str → Try
  delete_file name = remove allows name

  -- The last component is made as a file, and the loop is left.
  unfoldable pub create_file_loop : List (Str × Bool) → Try
  create_file_loop [] s = (true, s)
  create_file_loop ((token, last) ∷ ps) s =
      let on =
        (create_directory (current token)
            andalso chdir_name (current token)
            andalso create_file_loop ps)
          s in
      if last then create_file (current token) s else on

  -- Every component is made as a folder, and entered, the last one too.
  unfoldable pub create_dir_loop : List (Str × Bool) → Try
  create_dir_loop [] s = (true, s)
  create_dir_loop ((token, last) ∷ ps) s =
      (create_directory (current token)
          andalso chdir_name (current token)
          andalso create_dir_loop ps)
        s

  -- The last component is removed, the others are entered.
  unfoldable pub remove_last_loop : List (Str × Bool) → Try
  remove_last_loop [] s = (true, s)
  remove_last_loop ((token, last) ∷ ps) s =
      ((if last then delete_file (current token) else chdir_name (current token))
          andalso remove_last_loop ps)
        s

  -- What the three functions have around their loop: the way back to the directory of the start,
  -- which a loop that fails does not take; and EXIT_FAILURE, which is 1, if getcwd fails.
  abbrev pub from_cwd : Try → Files → ℕ × Files
  from_cwd loop s =
      if cwd_fits s then as_int ((loop andalso enter allows (some s.cwd)) s) else (1, s)

  unfoldable pub create_file_path : Str → Files → ℕ × Files
  create_file_path path = from_cwd (create_file_loop (parts path))

  unfoldable pub create_dir_path : Str → Files → ℕ × Files
  create_dir_path path = from_cwd (create_dir_loop (parts path))

  unfoldable pub remove_last_file : Str → Files → ℕ × Files
  remove_last_file path = from_cwd (remove_last_loop (parts path))
