-- ===== src/Examples/Tries.antt =====
-- Tries.c on small tries.
use network_file_system_in_c.Base.{
  IsAscii, Str, [], arith, false, if◌then◌else◌, incr, ltb, pos, refl, some, str_eq, true, ℕ, ◌<◌,
  ◌∷◌, ◌≡◌, ◌≢◌,
}
use network_file_system_in_c.Tries.Delete.{count_down, delete_node, unlink}
use network_file_system_in_c.Tries.Delete.Lookup.{delete_node_lem, released}
use network_file_system_in_c.Tries.Delete.Undo.{CountedAlong, delete_node-insert_tries3}
use network_file_system_in_c.Tries.Entry.{nextentry}
use network_file_system_in_c.Tries.Entry.Below.{Entered, nextentry_lem}
use network_file_system_in_c.Tries.Insert.{add_ports3, insert3_from, insert_tries3, or_init}
use network_file_system_in_c.Tries.Insert.Lookup.{insert_tries3_lem, is_prefix}
use network_file_system_in_c.Tries.Listing.{print_tries_file}
use network_file_system_in_c.Tries.Listing.Ended.{mem_str, print_tries_file_lem}
use network_file_system_in_c.Tries.Node.{
  TriesHead, child, count_of, ends, init_trie_node, init_tries, is_null, no_children, no_ports,
  node, node_at, ports_of, store,
}
use network_file_system_in_c.Tries.Ports.{
  LlHead, add_port, check_for_port_existance, init_list, insertback, insertfront, mem_port,
}
use network_file_system_in_c.Tries.Search.{search_words}
use network_file_system_in_c.Tries.Search.Lookup.{result_at, search_words_lem}

abbrev a_path : Str
a_path = 97 ∷ []

abbrev pub ab_path : Str
ab_path = 97 ∷ 98 ∷ []

abbrev pub on_zero : LlHead
on_zero = record { curr_size = pos 1; first = pos 0 ∷ [] }

-- The trie with "a" on server 0.
abbrev pub a_trie : TriesHead
a_trie = record {
  head =
      node (store no_children 97 (node no_children on_zero (pos 1) true)) init_list (pos 1) false;
}

-- The trie with "a" and "ab" on server 0.
abbrev pub ab_trie : TriesHead
ab_trie = record {
  head =
      node
        (store (store no_children 97 (node no_children on_zero (pos 1) true)) 97 (
          node (store no_children 98 (node no_children on_zero (pos 1) true)) on_zero (pos 2) true))
        init_list (pos 2) false;
}

pub ab_inserted : insert_tries3 a_trie ab_path (pos 0) (pos 0) (pos 0) ≡ some ab_trie
unfolding insert_tries3 insert3_from init_tries init_trie_node init_list or_init child store
    add_ports3 add_port check_for_port_existance mem_port insertback insertfront
ab_inserted = refl

small : (n : ℕ) → ltb n 128 ≡ true → n < 128
small n h = ground arith

a_IsAscii : IsAscii a_path
a_IsAscii = (small 97 refl, tt)

pub ab_IsAscii : IsAscii ab_path
ab_IsAscii = (small 97 refl, (small 98 refl, tt))

a_deletes : (thp : TriesHead) × (delete_node ab_trie a_path ≡ some thp)
unfolding delete_node count_down unlink child store
a_deletes = (_, refl)

insert_tries3_example :
    (thp' : TriesHead) × (insert_tries3 a_trie ab_path (pos 1) (pos 2) (pos 2) ≡ some thp')
    × ((v : Str)
        → (ports_of (node_at thp'.head v) ≡ (
            if str_eq ab_path v
            then add_ports3 (ports_of (node_at a_trie.head ab_path)) (pos 1) (pos 2) (pos 2)
            else ports_of (node_at a_trie.head v)))
          × (ends (node_at thp'.head v)
              ≡ (if str_eq ab_path v then true else ends (node_at a_trie.head v)))
          × (count_of (node_at thp'.head v) ≡ (
              if is_prefix v ab_path
              then incr (count_of (node_at a_trie.head v))
              else count_of (node_at a_trie.head v))))
insert_tries3_example = insert_tries3_lem a_trie ab_path (pos 1) (pos 2) (pos 2) refl ab_IsAscii

search_words_example :
    search_words ab_trie ab_path init_list ≡ some (result_at (node_at ab_trie.head ab_path))
search_words_example = search_words_lem ab_trie ab_path refl ab_IsAscii

delete_node_example :
    (ports_of (node_at a_deletes.0.head ab_path) ≡ (
      if released ab_trie.head a_path ab_path
      then no_ports
      else ports_of (node_at ab_trie.head ab_path)))
    × (ends (node_at a_deletes.0.head ab_path) ≡ (
        if released ab_trie.head a_path ab_path
        then false
        else if str_eq a_path ab_path
        then false
        else ends (node_at ab_trie.head ab_path)))
    × (is_null (node_at a_deletes.0.head ab_path) ≡ (
        if released ab_trie.head a_path ab_path
        then true
        else is_null (node_at ab_trie.head ab_path)))
delete_node_example = delete_node_lem ab_trie a_path a_deletes.1 ab_path

pub ab_is_new : is_null (node_at a_trie.head ab_path) ≡ true
unfolding node_at store
ab_is_new = refl

pub a_is_counted : CountedAlong a_trie.head ab_path
unfolding CountedAlong store
a_is_counted = (λ h. refl, (λ h. h, tt))

delete_node-insert_tries3_example : delete_node ab_trie ab_path ≡ some a_trie
delete_node-insert_tries3_example =
    delete_node-insert_tries3 a_trie ab_path (pos 0) (pos 0) (pos 0) ab_IsAscii ab_is_new
      a_is_counted ab_inserted

nextentry_example :
    (r : Str) × (nextentry ab_trie a_path ≡ some r) × Entered (node_at ab_trie.head a_path) a_path r
nextentry_example = nextentry_lem ab_trie a_path refl a_IsAscii

a_next :
    (r : Str) × (nextentry ab_trie a_path ≡ some r) × Entered (node_at ab_trie.head a_path) a_path r
a_next = nextentry_lem ab_trie a_path refl a_IsAscii

print_tries_file_example :
    ((w : Str)
      → IsAscii w
      → w ≢ []
      → mem_str (print_tries_file ab_trie.head [] []) w ≡ ends (node_at ab_trie.head w))
    × (mem_str (print_tries_file ab_trie.head [] []) [] ≡ false)
    × (is_prefix [] ab_path ≡ false → mem_str (print_tries_file ab_trie.head [] []) ab_path ≡ false)
print_tries_file_example = print_tries_file_lem ab_trie.head [] ab_path
