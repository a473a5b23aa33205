-- ===== src/Tries/Register.antt =====
-- tokenizeAndPrint and Copied_fn (Naming_server.c): the paths that a storage server brings along
-- go into the trie, and the paths at or below a folder come out of it.
pub mod Found
use network_file_system_in_c.Base.{
  List, Option, Str, [], if◌then◌else◌, some, tokens, ℕ, ℤ, ◌>>=◌, ◌∷◌,
}
use network_file_system_in_c.Tries.Insert.{insert_tries3}
use network_file_system_in_c.Tries.Listing.{TrieContent, tries_ports_fn}
use network_file_system_in_c.Tries.Node.{TriesHead, is_null}
use network_file_system_in_c.Tries.Search.{descend}

unfoldable pub insert_tokens : TriesHead → List Str → ℤ → Option TriesHead
insert_tokens thp [] port = some thp
insert_tokens thp (token ∷ rest) port = do
  thp' ← insert_tries3 thp token port port port
  insert_tokens thp' rest port

-- With one delimiter, as the server calls it.
unfoldable pub tokenize_and_print : TriesHead → Str → ℕ → ℤ → Option TriesHead
tokenize_and_print thp input delimiter port = insert_tokens thp (tokens delimiter input) port

unfoldable pub copied_fn : TriesHead → Str → Option (List TrieContent)
copied_fn thp val = do
  t ← descend thp.head val
  if is_null t then some [] else tries_ports_fn t val (some [])
