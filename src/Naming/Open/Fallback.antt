-- ===== src/Naming/Open/Fallback.antt =====
-- Which server a read goes to (Naming_server.c, Readfunctionality).
use network_file_system_in_c.Base.{Bool, arith, codes, some, ℕ, ◌||◌, ◌≡◌, ◌⊎◌}
use network_file_system_in_c.Naming.Copies.{copies_of, folder_on, mirrors_of}
use network_file_system_in_c.Naming.Open.{read_from}

-- One of the server that holds a file and the two on which redundant_copy makes its copies is up.
unfoldable pub some_up : ℕ → (ℕ → Bool) → Bool
some_up i available =
    let c = mirrors_of i in available i || available c.index1 || available c.index2

-- A read of server `i` goes to a server `t` and a folder there: the folder "main" of `i` itself, or the
-- folder on `t` that redundant_copy clears and then fills with the entries of `i`. And `t` is up
-- exactly if `i` or one of the two servers is up on which redundant_copy makes these folders.
pub read_from_lem :
    (i : ℕ) (available : ℕ → Bool)
    → let t = (read_from i available).0 in
      let folder = (read_from i available).1 in
      ((t ≡ i) × (folder ≡ codes "main") ⊎ folder_on t i ≡ some folder)
      × (available t ≡ some_up i available)
unfolding read_from folder_on some_up mirrors_of copies_of
read_from_lem i available = ground arith
