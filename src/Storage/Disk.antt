-- ===== src/Storage/Disk.antt =====
-- The file system that a storage server works on, and the calls of the C library on it.
pub mod Entries
pub mod Sound
use network_file_system_in_c.Base.{
  Bool, List, Option, Str, [], false, if◌then◌else◌, none, not, some, str_eq, true, ◌&&◌, ◌||◌, ◌∷◌,
}

-- An absolute path, the innermost name first: the root is [].
abbrev pub Place : Type 0
Place = List Str

pub data Entry : Type 0 where
  folder : Entry
  file : Str → Entry

-- The entries in the order in which readdir returns those of a folder.
abbrev pub Disk : Type 0
Disk = List (Place × Entry)

abbrev pub place_eq : Place → Place → Bool
place_eq [] [] = true
place_eq [] (n ∷ q) = false
place_eq (m ∷ p) [] = false
place_eq (m ∷ p) (n ∷ q) = str_eq m n && place_eq p q

unfoldable pub entry_at : Disk → Place → Option Entry
entry_at [] p = none
entry_at ((q, e) ∷ d) p = let later = entry_at d p in if place_eq q p then some e else later

unfoldable pub set_entry : Disk → Place → Entry → Disk
set_entry [] p e = (p, e) ∷ []
set_entry ((q, x) ∷ d) p e =
    let later = set_entry d p e in if place_eq q p then (q, e) ∷ d else (q, x) ∷ later

unfoldable pub drop_entry : Disk → Place → Disk
drop_entry [] p = []
drop_entry ((q, x) ∷ d) p =
    let later = drop_entry d p in if place_eq q p then later else (q, x) ∷ later

abbrev pub parent : Place → Place
parent [] = []
parent (n ∷ p) = p

abbrev pub is_folder : Option Entry → Bool
is_folder none = false
is_folder (some folder) = true
is_folder (some (file bytes)) = false

-- "." and ".."
abbrev pub dot : Str
dot = 46 ∷ []

abbrev pub dot_dot : Str
dot_dot = 46 ∷ 46 ∷ []

abbrev pub step_to : Place → Str → Place
step_to at name =
    if str_eq name dot then at else if str_eq name dot_dot then parent at else name ∷ at

-- The place that names lead to. Each of them is looked up in a folder.
unfoldable pub walk : Disk → Place → List Str → Option Place
walk d at [] = some at
walk d at (name ∷ names) =
    let later = walk d (step_to at name) names in if is_folder (entry_at d at) then later else none

-- Is the entry in the folder, and has the folder no entry?
abbrev pub is_inside : Place → Place → Bool
is_inside p [] = false
is_inside p (n ∷ q) = place_eq q p

unfoldable pub is_empty_folder : Disk → Place → Bool
is_empty_folder [] p = true
is_empty_folder ((q, e) ∷ d) p = not (is_inside p q) && is_empty_folder d p

-- The disk and the current working directory.
pub record Files : Type 0 where
  pub disk : Disk
  pub cwd : Place

-- What the operating system decides beyond the tree: whether it lets a place be entered, made,
-- written or removed.
abbrev pub Rights : Type 0
Rights = Place → Bool

-- A call that succeeds or fails, and the next one if it succeeds.
abbrev pub Try : Type 0
Try = Files → Bool × Files

infixr 5 ◌andalso◌
abbrev pub ◌andalso◌ : Try → Try → Try
(a andalso b) s = let (went, s') = a s in if went then b s' else (false, s')

abbrev pub put_disk : Option Disk → Try
put_disk none s = (false, s)
put_disk (some d) s = (true, record s { disk = d })

-- A call at the place that names have led to.
abbrev pub calling : (Disk → Place → Option Disk) → Option Place → Try
calling call none s = (false, s)
calling call (some p) s = put_disk (call s.disk p) s

module _ (allows : Rights) where
  -- chdir of a place that names have led to, if they have.
  unfoldable pub enter : Option Place → Try
  enter none s = (false, s)
  enter (some p) s =
      if is_folder (entry_at s.disk p) && allows p then (true, record s { cwd = p }) else (false, s)

  -- A new entry, in a folder that exists.
  unfoldable pub add : Entry → Disk → Place → Option Disk
  add e d p = if is_folder (entry_at d (parent p)) && allows p then some (set_entry d p e) else none

  -- What a call makes of a place that has this entry. mkdir, with EEXIST as a success:
  abbrev pub mkdir_on : Option Entry → Disk → Place → Option Disk
  mkdir_on none d p = add folder d p
  mkdir_on (some e) d p = some d

  -- fopen(…, "w"): the file is made, or cut to nothing.
  abbrev pub truncate_on : Option Entry → Disk → Place → Option Disk
  truncate_on none d p = add (file []) d p
  truncate_on (some folder) d p = none
  truncate_on (some (file bytes)) d p = if allows p then some (set_entry d p (file [])) else none

  -- fopen(…, "ab"): the file is made, or kept.
  abbrev pub append_on : Option Entry → Disk → Place → Option Disk
  append_on none d p = add (file []) d p
  append_on (some folder) d p = none
  append_on (some (file bytes)) d p = if allows p then some d else none

  -- remove: unlink of a file, rmdir of an empty folder.
  abbrev pub remove_on : Option Entry → Disk → Place → Option Disk
  remove_on none d p = none
  remove_on (some folder) d p =
      if is_empty_folder d p && allows p then some (drop_entry d p) else none
  remove_on (some (file bytes)) d p = if allows p then some (drop_entry d p) else none

  unfoldable pub mkdir : Option Place → Try
  mkdir = calling (λ d p. mkdir_on (entry_at d p) d p)

  unfoldable pub fopen_w : Option Place → Try
  fopen_w = calling (λ d p. truncate_on (entry_at d p) d p)

  unfoldable pub fopen_a : Option Place → Try
  fopen_a = calling (λ d p. append_on (entry_at d p) d p)

  -- The names "." and ".." are refused.
  unfoldable pub remove : Str → Try
  remove name s =
      if str_eq name dot || str_eq name dot_dot
      then (false, s)
      else calling (λ d p. remove_on (entry_at d p) d p) (walk s.disk s.cwd (name ∷ [])) s
