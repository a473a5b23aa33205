-- ===== src/Storage/Transfer/Steps.antt =====
-- The steps that the functions of Storage_server.c share.
use network_file_system_in_c.Base.{
  ==_refl, Option, Str, [], ap, arith, codes, false, length, none, refl, some, tokens, tokens_from,
  true, ◌++◌, ◌∙◌, ◌∷◌, ◌≡◌,
}
use network_file_system_in_c.Naming.Copy.Stored.{take_all}
use network_file_system_in_c.Storage.Disk.{
  Disk, Entry, Files, Place, Rights, add, enter, entry_at, file, folder, fopen_w, is_folder, parent,
  put_disk, set_entry, truncate_on, walk,
}
use network_file_system_in_c.Storage.Disk.Sound.{HasFolder}
use network_file_system_in_c.Storage.Machine.{
  Answer, Machine, S, World, are_short, chdir_home, chdir_path, ends_with_slash, place_of, returned,
  then_s, try_files,
}
use network_file_system_in_c.Storage.Paths.Made.{AllowsAll}
use network_file_system_in_c.Storage.Transfer.{append_file, close_file, enter_dir, fclose, fwrite}

-- A function whose first part returns goes on from there.
pub goes_on {ℓ κ} :
    {A : Type ℓ} {B : Type κ} {o : Answer A} {a : A} {m : Machine} (k : A → S B) {r : Answer B}
    → o ≡ returned a m
    → k a m ≡ r
    → then_s o k ≡ r
goes_on k e rest = ap (λ o. then_s o k) e ∙ rest

abbrev pub at_place : Place → Machine → Machine
at_place p m = record m { files = record { disk = m.files.disk; cwd = p } }

abbrev pub main_of : Machine → Place
main_of m = codes "main" ∷ m.home

-- The directory of the start and its folder "main" are there.
abbrev pub HasMain : Machine → Type 0
HasMain m = HasFolder m.files.disk m.home × HasFolder m.files.disk (main_of m)

place_of-main :
    (d : Disk) (at : Place)
    → HasFolder d at
    → place_of (record { disk = d; cwd = at }) (codes "main") ≡ some (codes "main" ∷ at)
unfolding place_of walk tokens tokens_from ends_with_slash are_short
place_of-main d at h = rw h refl

module _ (w : World) (all : AllowsAll w.allows) where
  pub chdir_home_lem :
      (m : Machine)
      → HasFolder m.files.disk m.home
      → chdir_home w m ≡ returned true (at_place m.home m)
  unfolding chdir_home try_files enter
  chdir_home_lem m h = rw (h, all m.home) refl

  pub enter_main :
      (m : Machine)
      → HasMain m
      → enter_dir w (codes "main") m ≡ returned true (at_place (main_of m) m)
  unfolding chdir_path try_files enter
  enter_main m (h, h_main) =
      goes_on (λ b. chdir_path w (codes "main")) (chdir_home_lem m h)
        (rw (place_of-main m.files.disk m.home h, h_main, all (main_of m)) refl)

-- No fwrite, fflush or fclose fails: no disk is full.
abbrev pub WritesAll : World → Type 0
WritesAll w =
    ((d : Disk) (p : Place) (bytes : Str) → w.fwrite_result d p bytes ≡ length bytes)
    × ((d : Disk) (p : Place) → w.is_flushed d p ≡ true)

-- A fwrite of a file that is there puts the bytes at its end.
pub fwrite_lem :
    (w : World) (p : Place) (bytes : Str) (m : Machine) {old : Str}
    → WritesAll w
    → entry_at m.files.disk p ≡ some (file old)
    → fwrite w (some p) bytes m
      ≡ returned true (record m {
        files = record { disk = set_entry m.files.disk p (file (old ++ bytes)); cwd = m.files.cwd };
      })
unfolding fwrite append_file
fwrite_lem w p bytes m (stores, closes) e =
    rw
      (
        stores m.files.disk p bytes,
        take_all (length bytes) bytes (omega arith),
        e,
        ==_refl (length bytes),
      )
      refl

-- A file that is written and closed without an error: the function is back where it has started, with 1.
pub close_file_lem :
    (w : World) (all : AllowsAll w.allows) (p : Place) (m : Machine)
    → WritesAll w
    → HasFolder m.files.disk m.home
    → close_file w (some p) m ≡ returned 1 (at_place m.home m)
unfolding close_file fclose
close_file_lem w all p m (stores, closes) up =
    rw (closes m.files.disk p) (goes_on (λ b. returned 1) (chdir_home_lem w all m up) refl)

-- fopen(…, "w") of a place that is no folder, in one.
pub fopen_w_lem :
    (allows : Rights) (all : AllowsAll allows) (p : Place) (s : Files)
    → HasFolder s.disk (parent p)
    → is_folder (entry_at s.disk p) ≡ false
    → fopen_w allows (some p) s ≡ (true, record s { disk = set_entry s.disk p (file []) })
unfolding fopen_w add
fopen_w_lem allows all p s up free = go (entry_at s.disk p) free
  where
    go :
        (o : Option Entry)
        → is_folder o ≡ false
        → put_disk (truncate_on allows o s.disk p) s
          ≡ (true, record s { disk = set_entry s.disk p (file []) })
    go none h = rw (up, all p) refl
    go (some folder) h = cc
    go (some (file bytes)) h = rw (all p) refl
