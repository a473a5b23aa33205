-- ===== src/Naming/Create/Prefixes.antt =====
-- What an accepted create leaves in the trie (Naming_server.c, Createfunctionality).
use network_file_system_in_c.Base.{All, IsAscii, List, Str, [], ap, refl, some, ℤ, ◌++◌, ◌∷◌, ◌≡◌}
use network_file_system_in_c.Naming.Create.{insert_prefixes}
use network_file_system_in_c.Naming.State.{Server, and_then, done, insert_path, lift_option}
use network_file_system_in_c.Naming.State.Steps.{step}
use network_file_system_in_c.Tries.Insert.{insert_tries3}
use network_file_system_in_c.Tries.Node.{TriesHead}
use network_file_system_in_c.Tries.Register.Found.{IsRegistered, insert_tries3-IsRegistered}
use network_file_system_in_c.Tries.Valid.{IsValid}

-- The prefixes of a path, from its components on: "a", "a/b", "a/b/c".
abbrev pub prefixes : List Str → Str → List Str
prefixes [] path = []
prefixes (token ∷ rest) path = (path ++ token) ∷ prefixes rest (path ++ token ++ b'/' ∷ [])

pub insert_path_lem :
    (path : Str) (i : ℤ) (s : Server) {thp' : TriesHead}
    → insert_tries3 s.thp path i i i ≡ some thp'
    → insert_path path i s ≡ done tt (record s { thp = thp' })
unfolding insert_path
insert_path_lem path i s e =
    ap (λ o. and_then (lift_option o s) (λ t s'. done tt (record s' { thp = t }))) e

-- When a storage server has accepted a path of ASCII characters, the file and every folder on the way
-- to it go into the trie: the loop does not fault, the trie stays valid, each prefix of the path ends
-- in it with the server among its ports, what was registered for the server still is, and nothing but
-- the trie changes.
pub insert_prefixes_lem :
    (i : ℤ) (components : List Str) (path : Str) (s : Server)
    → IsValid s.thp
    → All IsAscii (prefixes components path)
    → (thp' : TriesHead) × (insert_prefixes components path i s ≡ done tt (record s { thp = thp' }))
      × IsValid thp'
      × All (IsRegistered i thp') (prefixes components path)
      × ((v : Str) → IsRegistered i s.thp v → IsRegistered i thp' v)
unfolding insert_prefixes
insert_prefixes_lem i [] path s h ascii = (s.thp, refl, h, tt, λ v r. r)
insert_prefixes_lem i (token ∷ rest) path s h ascii =
    let (t, e, valid, here, kept) = insert_tries3-IsRegistered i s.thp (path ++ token) h ascii.0 in
    let (thp', run, valid', all, kept') =
      insert_prefixes_lem i rest (path ++ token ++ b'/' ∷ []) (record s { thp = t }) valid
        ascii.1 in
    (
      thp',
      step _ (insert_path_lem (path ++ token) i s e) run,
      valid',
      (kept' (path ++ token) here, all),
      λ v r. kept' v (kept i v r),
    )
