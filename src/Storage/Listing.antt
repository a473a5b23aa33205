-- ===== src/Storage/Listing.antt =====
-- listFilesRecursively, appendToResult and MainCount: the list of the files below "main".
pub mod Ended
use network_file_system_in_c.Base.{
  Bool, List, Option, Str, [], drop, false, if◌then◌else◌, leb, length, none, some, suc, take, zero,
  ℕ, ◌&&◌, ◌++◌, ◌+◌, ◌==◌, ◌∷◌,
}
use network_file_system_in_c.Storage.Disk.{
  Disk, Entry, Files, Place, Rights, dot, entry_at, file, folder, is_folder, place_eq,
}
use network_file_system_in_c.Storage.Machine.{place_of}

-- The list that is there at the end, or exit(EXIT_FAILURE) with the list so far, or no fuel left.
pub data Listed : Type 0 where
  listed : Str → Listed
  full : Str → Listed
  no_fuel : Listed

abbrev pub then_list : Listed → (Str → Listed) → Listed
then_list (listed r) k = k r
then_list (full r) k = full r
then_list no_fuel k = no_fuel

-- Without the "./" in front, and with a newline, if there is room in 4096 bytes.
unfoldable pub append_to_result : Str → Str → Listed
append_to_result path result =
    if leb (length result + length path + 2) 4096
    then listed (result ++ drop 2 path ++ 10 ∷ [])
    else full result

-- The entries that readdir returns for a folder, without "." and "..", which are passed over.
unfoldable pub children : Disk → Place → List (Str × Entry)
children [] p = []
children (([], e) ∷ d) p = children d p
children ((name ∷ q, e) ∷ d) p =
    let later = children d p in if place_eq q p then (name, e) ∷ later else later

-- snprintf into 256 bytes.
abbrev pub child_path : Str → Str → Str
child_path base name = take 255 (base ++ 47 ∷ name)

abbrev pub starts_with_dot : Str → Bool
starts_with_dot [] = false
starts_with_dot (c ∷ cs) = c == 46

-- A folder whose name starts with a dot is passed over; another one is listed with what is in it; of
-- a file the path is listed. `inner` lists a folder.
unfoldable pub list_entry : (Str → Str → Listed) → Str → Str × Entry → Str → Listed
list_entry inner base (name, folder) result =
    if starts_with_dot name
    then listed result
    else then_list (append_to_result (child_path base name) result) (inner (child_path base name))
list_entry inner base (name, file bytes) result = append_to_result (child_path base name) result

unfoldable pub list_entries : (Str → Str → Listed) → Str → List (Str × Entry) → Str → Listed
list_entries inner base [] result = listed result
list_entries inner base (e ∷ es) result =
    then_list (list_entry inner base e result) (list_entries inner base es)

-- opendir of a path in "main", which is the current directory when a call starts. A place that is no
-- folder cannot be opened.
unfoldable pub opened_folder : Rights → Files → Option Place → List (Str × Entry)
opened_folder allows s none = []
opened_folder allows s (some p) =
    if is_folder (entry_at s.disk p) && allows p then children s.disk p else []

unfoldable pub list_files : Rights → Files → ℕ → Str → Str → Listed
list_files allows s zero base result = no_fuel
list_files allows s (suc fuel) base result =
    list_entries (list_files allows s fuel) base (opened_folder allows s (place_of s base)) result

-- Every folder that is entered has been appended with a newline before, so calls in 4096 levels are enough.
unfoldable pub main_count : Rights → Files → Listed
main_count allows s = list_files allows s 4096 dot []
