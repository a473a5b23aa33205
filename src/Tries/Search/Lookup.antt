-- ===== src/Tries/Search/Lookup.antt =====
-- What searchWords returns, in terms of the node that the path leads to.
use mathlib.Core.List.{reverse_aux}
use network_file_system_in_c.Base.{
  Bool-cases, IsAscii, List, Str, [], ap, arith, false, inl, inr, length, minus_one, pos, refl,
  reverse, some, suc, sym, ℤ, ◌+◌, ◌∷◌, ◌≡◌,
}
use network_file_system_in_c.Tries.Node.{
  Tries, TriesHead, child_ascii, is_null, node, node_at, node_at-null, null,
}
use network_file_system_in_c.Tries.Ports.{LlHead, init_list}
use network_file_system_in_c.Tries.Ports.Distinct.{insertfront_at}
use network_file_system_in_c.Tries.Search.{
  copy_ports, descend, found_words, mark_empty, search_words,
}

-- The walk reaches the node that the path leads to.
pub descend-node_at :
    (t : Tries) (w : Str) → is_null t ≡ false → IsAscii w → descend t w ≡ some (node_at t w)
unfolding descend node_at
descend-node_at null w h ok = cc
descend-node_at (node alpha p n e) [] h ok = refl
descend-node_at (node alpha p n e) (c ∷ w) h ok =
    rw (child_ascii alpha c ok.0) (elim (Bool-cases (is_null (alpha c))) [
      | inl gone ↦ rw gone (ap some (sym (node_at-null (alpha c) w gone)))
      | inr here ↦ rw here (descend-node_at (alpha c) w here ok.1)
    ])

copy_ports_at :
    (vs xs : List ℤ)
    → copy_ports vs (record { curr_size = pos (length xs); first = xs })
      ≡ record { curr_size = pos (length (reverse_aux vs xs)); first = reverse_aux vs xs }
unfolding copy_ports
copy_ports_at [] xs = refl
copy_ports_at (v ∷ vs) xs = rw (insertfront_at (length xs) xs v refl) (copy_ports_at vs (v ∷ xs))

length-reverse_aux : (vs xs : List ℤ) → length (reverse_aux vs xs) ≡ length vs + length xs
length-reverse_aux [] xs = omega arith
length-reverse_aux (v ∷ vs) xs = omega (arith, length-reverse_aux vs (v ∷ xs))

-- What a search into a fresh list makes of the ports of a node: size -1 if there are none, and else
-- the ports in reverse.
abbrev pub listed : List ℤ → LlHead
listed [] = record { curr_size = minus_one; first = [] }
listed (v ∷ vs) = record { curr_size = pos (suc (length vs)); first = reverse (v ∷ vs) }

-- What it finds at a node, and at NULL.
unfoldable pub result_at : Tries → LlHead
result_at null = record { curr_size = pos 0; first = [] }
result_at (node _ ports _ _) = listed ports.first

mark_empty-listed :
    (vs : List ℤ)
    → mark_empty (record { curr_size = pos (length (reverse vs)); first = reverse vs }) ≡ listed vs
unfolding mark_empty
mark_empty-listed [] = refl
mark_empty-listed (v ∷ vs) = rw (length-reverse_aux vs (v ∷ [])) (ground arith)

found_words-result_at : (t : Tries) → found_words t init_list ≡ result_at t
unfolding found_words result_at init_list
found_words-result_at null = refl
found_words-result_at (node _ ports _ _) =
    rw (copy_ports_at ports.first []) (mark_empty-listed ports.first)

-- searchWords of an ASCII path into a fresh list never faults. The list stays as it was if the
-- path leaves the trie; it gets size -1 if the path has no ports; and otherwise it
-- holds the ports of the path in reverse order, with their number as its size.
pub search_words_lem :
    (thp : TriesHead) (w : Str)
    → is_null thp.head ≡ false
    → IsAscii w
    → search_words thp w init_list ≡ some (result_at (node_at thp.head w))
unfolding search_words
search_words_lem thp w h ok =
    rw (descend-node_at thp.head w h ok) (ap some (found_words-result_at (node_at thp.head w)))
