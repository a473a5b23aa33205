-- ===== src/Tries/Listing.antt =====
-- The walks over a whole trie: printTriesFile, saveTrieContentsToFile, searchAll, Tries_Ports_fn
-- and LL_Tries_Ports_fn. Each visits the children at 0 to 127 in turn; a NULL child is passed
-- over. A file is the list of its lines.
pub mod Ended
use network_file_system_in_c.Base.{
  List, Option, Str, [], if◌then◌else◌, none, some, suc, zero, ℕ, ℤ, ◌++◌, ◌>>=◌, ◌∷◌,
}
use network_file_system_in_c.Tries.Node.{Tries, TriesHead, ends, node, null, ports_of}
use network_file_system_in_c.Tries.Ports.{LlHead}
use network_file_system_in_c.Tries.Search.{copy_ports, descend}

-- for (int i = 0; i < 128; i++) visit(i), with an accumulator; `k` indices are left.
unfoldable pub for_from {ℓ} : {S : Type ℓ} → (ℕ → S → S) → ℕ → ℕ → S → S
for_from visit zero i s = s
for_from visit (suc k) i s = for_from visit k (suc i) (visit i s)

-- One line more, if a path ends at the node.
unfoldable pub print_end : Tries → Str → List Str → List Str
print_end t val out = if ends t then out ++ val ∷ [] else out

-- The lines that printTriesFile writes below `tp`, after those of `out`.
unfoldable pub print_tries_file : Tries → Str → List Str → List Str
unfolding print_end
print_tries_file null val out = out
print_tries_file (node alpha _ _ _) val out =
    for_from
      (λ i o. print_tries_file (alpha i) (val ++ i ∷ []) (print_end (alpha i) (val ++ i ∷ []) o))
      128 0 out

-- A line of the saved trie: a path and its ports.
pub record SavedWord : Type 0 where
  pub word : Str
  pub ports : List ℤ

unfoldable pub save_end : Tries → Str → List SavedWord → List SavedWord
save_end null word out = out
save_end (node _ ports _ is_end) word out =
    if is_end then out ++ record { word = word; ports = ports.first } ∷ [] else out

-- The node's own line, and those of the nodes below it.
unfoldable pub save_trie_contents_to_file : Tries → Str → List SavedWord → List SavedWord
unfolding save_end
save_trie_contents_to_file null word out = out
save_trie_contents_to_file (node alpha ports count is_end) word out =
    for_from (λ i o. save_trie_contents_to_file (alpha i) (word ++ i ∷ []) o) 128 0
      (save_end (node alpha ports count is_end) word out)

unfoldable pub save_trie_to_file : TriesHead → List SavedWord
unfolding save_trie_contents_to_file
save_trie_to_file thp = save_trie_contents_to_file thp.head [] []

-- The ports of every node strictly below `tp`.
unfoldable pub search_all : Tries → LlHead → LlHead
search_all null lh = lh
search_all (node alpha _ _ _) lh =
    for_from (λ i l. search_all (alpha i) (copy_ports (ports_of (alpha i)).first l)) 128 0 lh

-- struct LL_node_trie_content: a path and the first storage server that holds it.
pub record TrieContent : Type 0 where
  pub val : Str
  pub ss_index : ℤ

-- `tp->ports->first->val` is read at a node where a path ends; NULL is dereferenced if it has none.
abbrev pub first_port : List ℤ → Option ℤ
first_port [] = none
first_port (v ∷ _) = some v

-- InsertLLnode_trie, in front.
unfoldable pub insert_end : Tries → Str → List TrieContent → Option (List TrieContent)
insert_end null val llh = some llh
insert_end (node _ ports _ is_end) val llh =
    if is_end
    then (do port ← first_port ports.first; some (record { val = val; ss_index = port } ∷ llh))
    else some llh

-- Tries_Ports_fn, on a list that a fault has already ended or not.
unfoldable pub tries_ports_fn : Tries → Str → Option (List TrieContent) → Option (List TrieContent)
unfolding insert_end
tries_ports_fn null val llh = llh
tries_ports_fn (node alpha _ _ _) val llh =
    for_from
      (λ i l. tries_ports_fn (alpha i) (val ++ i ∷ []) (l >>= insert_end (alpha i) (val ++ i ∷ [])))
      128 0 llh

-- The contents below `val/`, on the node that `val` leads to.
unfoldable pub contents_below : Tries → Str → Option (List TrieContent)
contents_below null val = some []
contents_below (node alpha _ _ _) val = tries_ports_fn (alpha b'/') (val ++ b'/' ∷ []) (some [])

-- LL_Tries_Ports_fn; it also leaves `val` with a '/' behind it, if it gets that far.
unfoldable pub ll_tries_ports_fn : TriesHead → Str → Option (List TrieContent)
ll_tries_ports_fn thp val = do tp ← descend thp.head val; contents_below tp val
