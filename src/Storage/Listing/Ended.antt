-- ===== src/Storage/Listing/Ended.antt =====
-- The list of the files ends, and stays inside its buffer.
use network_file_system_in_c.Base.{
  Bool-cases, List, Str, [], arith, drop, inl, inr, leb, length, length-append, suc, zero, ℕ, ◌++◌,
  ◌+◌, ◌<◌, ◌∷◌, ◌≤◌,
}
use network_file_system_in_c.Storage.Disk.{Entry, Files, Rights, file, folder}
use network_file_system_in_c.Storage.Listing.{
  Listed, append_to_result, child_path, full, list_entries, list_entry, list_files, listed, no_fuel,
  opened_folder, starts_with_dot, then_list,
}
use network_file_system_in_c.Storage.Machine.{place_of}

-- What a call makes of a list: a list that is not shorter and leaves room for the NUL, or the exit with
-- one; it has fuel.
abbrev pub GrowsTo : Str → Listed → Type 0
GrowsTo before (listed r) = (length before ≤ length r) × (length r < 4096)
GrowsTo before (full r) = length r < 4096
GrowsTo before no_fuel = ⊥

length-drop_le : (n : ℕ) (xs : Str) → length (drop n xs) ≤ length xs
length-drop_le zero xs = omega arith
length-drop_le (suc n) [] = omega arith
length-drop_le (suc n) (x ∷ xs) = omega (arith, length-drop_le n xs)

-- An append makes the list longer.
append_to_result-GrowsTo :
    (path result : Str) → length result < 4096 → GrowsTo (0 ∷ result) (append_to_result path result)
unfolding append_to_result
append_to_result-GrowsTo path result h =
    elim (Bool-cases (leb (length result + length path + 2) 4096)) [
      | inl room ↦
          let shown = length-append (result ++ drop 2 path) (10 ∷ []) in
          let copied = length-append result (drop 2 path) in
          let room' : length result + length path + 2 ≤ 4096 = ground arith in
          rw room (
            omega (arith, shown, copied),
            omega (arith, shown, copied, length-drop_le 2 path, room'),
          )
      | inr no_room ↦ rw no_room h
    ]

weaken : (before r : Str) (l : Listed) → length before ≤ length r → GrowsTo r l → GrowsTo before l
weaken before r (listed r') grows (longer, fits) = (omega (arith, grows, longer), fits)
weaken before r (full r') grows fits = fits
weaken before r no_fuel grows none_left = none_left

then_list-GrowsTo :
    (before : Str) (l : Listed) (k : Str → Listed)
    → GrowsTo before l
    → ((r : Str) → length before ≤ length r → length r < 4096 → GrowsTo r (k r))
    → GrowsTo before (then_list l k)
then_list-GrowsTo before (listed r) k (grows, fits) next =
    weaken before r (k r) grows (next r grows fits)
then_list-GrowsTo before (full r) k fits next = fits
then_list-GrowsTo before no_fuel k none_left next = none_left

-- `inner` is good for every list that is longer than `before`.
abbrev IsGood : (Str → Str → Listed) → Str → Type 0
IsGood inner before =
    (base r : Str) → length before < length r → length r < 4096 → GrowsTo r (inner base r)

list_entry-GrowsTo :
    (inner : Str → Str → Listed) (base : Str) (e : Str × Entry) (result : Str)
    → IsGood inner result
    → length result < 4096
    → GrowsTo result (list_entry inner base e result)
unfolding list_entry
list_entry-GrowsTo inner base (name, folder) result good h =
    elim (Bool-cases (starts_with_dot name)) [
      | inl dotted ↦ rw dotted (omega arith, h)
      | inr plain ↦ rw plain (
          inside (append_to_result (child_path base name) result)
            (append_to_result-GrowsTo (child_path base name) result h))
    ]
  where
    inside :
        (l : Listed)
        → GrowsTo (0 ∷ result) l
        → GrowsTo result (then_list l (inner (child_path base name)))
    inside (listed r) (grows, fits) =
        weaken result r (inner (child_path base name) r) (omega (arith, grows))
          (good (child_path base name) r (omega (arith, grows)) fits)
    inside (full r) fits = fits
    inside no_fuel none_left = none_left
list_entry-GrowsTo inner base (name, file bytes) result good h =
    weaken result (0 ∷ result) (append_to_result (child_path base name) result) (omega arith)
      (append_to_result-GrowsTo (child_path base name) result h)

list_entries-GrowsTo :
    (inner : Str → Str → Listed) (base : Str) (es : List (Str × Entry)) (result : Str)
    → IsGood inner result
    → length result < 4096
    → GrowsTo result (list_entries inner base es result)
unfolding list_entries
list_entries-GrowsTo inner base [] result good h = (omega arith, h)
list_entries-GrowsTo inner base (e ∷ es) result good h =
    then_list-GrowsTo result (list_entry inner base e result) (list_entries inner base es)
      (list_entry-GrowsTo inner base e result good h)
      (λ r grows fits.
        list_entries-GrowsTo inner base es r
          (λ b r' longer. good b r' (omega (arith, grows, longer))) fits)

-- listFilesRecursively ends with a fuel of 4096, for any disk: each folder is written into the list
-- before it is entered. The list never needs more than the 4096 bytes of its buffer, the NUL included.
pub list_files-GrowsTo :
    (allows : Rights) (s : Files) (fuel : ℕ) (base result : Str)
    → 4096 ≤ fuel + length result
    → length result < 4096
    → GrowsTo result (list_files allows s fuel base result)
unfolding list_files
list_files-GrowsTo allows s zero base result enough h = absurd (omega (arith, enough, h))
list_files-GrowsTo allows s (suc fuel) base result enough h =
    list_entries-GrowsTo (list_files allows s fuel) base (opened_folder allows s (place_of s base))
      result (λ b r longer. list_files-GrowsTo allows s fuel b r (omega (arith, enough, longer))) h
