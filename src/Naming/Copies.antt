-- ===== src/Naming/Copies.antt =====
-- Where the copies of a storage server are: the two other servers of its group of three, and the
-- folder on each: where Readfunctionality reads them.
use network_file_system_in_c.Base.{
  Option, Str, arith, codes, if◌then◌else◌, none, some, ℕ, ◌%◌, ◌+◌, ◌-◌, ◌<◌, ◌==◌, ◌≡◌, ◌≢◌,
}

pub record Copies : Type 0 where
  pub index1 : ℕ
  pub index2 : ℕ
  pub p1 : Str
  pub p2 : Str

abbrev pub copy1 : Str
copy1 = codes "copy1"

abbrev pub copy2 : Str
copy2 = codes "copy2"

unfoldable pub copies_of : ℕ → Copies
copies_of index =
    if index % 3 == 0
    then record { index1 = index + 1; index2 = index + 2; p1 = copy1; p2 = copy1 }
    else if index % 3 == 1
    then record { index1 = index - 1; index2 = index + 1; p1 = copy1; p2 = copy2 }
    else record { index1 = index - 2; index2 = index - 1; p1 = copy2; p2 = copy2 }

-- The same of redundant_copy, which makes them.
unfoldable pub mirrors_of : ℕ → Copies
mirrors_of index =
    if index % 3 == 0
    then record { index1 = index + 1; index2 = index + 2; p1 = copy1; p2 = copy1 }
    else if index % 3 == 1
    then record { index1 = index - 1; index2 = index + 1; p1 = copy1; p2 = copy2 }
    else record { index1 = index - 2; index2 = index - 1; p1 = copy2; p2 = copy2 }

-- The folder on server `t` that redundant_copy makes for server `i`.
unfoldable pub folder_on : ℕ → ℕ → Option Str
folder_on t i =
    let c = mirrors_of i in
    if c.index1 == t then some c.p1 else if c.index2 == t then some c.p2 else none

-- The copies of one of the six servers are on two other ones, both among the six.
pub copies_of-lt :
    (i : ℕ)
    → i < 6
    → let c = copies_of i in
      (c.index1 < 6) × (c.index2 < 6) × (c.index1 ≢ i) × (c.index2 ≢ i) × (c.index1 ≢ c.index2)
unfolding copies_of
copies_of-lt i h = ground arith

-- The copies that redundant_copy makes of one of the six servers are on two other ones of the six.
pub mirrors_of-lt :
    (i : ℕ)
    → i < 6
    → let c = mirrors_of i in
      (c.index1 < 6) × (c.index2 < 6) × (c.index1 ≢ i) × (c.index2 ≢ i) × (c.index1 ≢ c.index2)
unfolding mirrors_of
mirrors_of-lt i h = ground arith

-- No server holds the copies of two servers in one folder.
pub folder_on-injective :
    (t i j : ℕ) {folder : Str} → folder_on t i ≡ some folder → folder_on t j ≡ some folder → i ≡ j
unfolding folder_on mirrors_of
folder_on-injective t i j h k = ground arith
