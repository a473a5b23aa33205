-- ===== src/Tries/Insert.antt =====
-- insertTries3 and insertTries1.
pub mod Lookup
use network_file_system_in_c.Base.{Option, Str, [], false, incr, none, some, true, ℤ, ◌>>=◌, ◌∷◌}
use network_file_system_in_c.Tries.Node.{Tries, TriesHead, child, init_trie_node, node, null, store}
use network_file_system_in_c.Tries.Ports.{LlHead, add_port}

-- if (tp->alpha[pos] == NULL) tp->alpha[pos] = initTrieNode();
unfoldable pub or_init : Tries → Tries
unfolding init_trie_node
or_init null = init_trie_node
or_init (node a p n e) = node a p n e

-- The three ports, each added unless it is there.
unfoldable pub add_ports3 : LlHead → ℤ → ℤ → ℤ → LlHead
add_ports3 ports ss1 ss2 ss3 = add_port (add_port (add_port ports ss1) ss2) ss3

-- The loop over `val` from the node `tp`, and what follows it at the last node.
unfoldable pub insert3_from : Tries → Str → ℤ → ℤ → ℤ → Option Tries
insert3_from null val ss1 ss2 ss3 = none
insert3_from (node alpha ports count is_end) [] ss1 ss2 ss3 =
    some (node alpha (add_ports3 ports ss1 ss2 ss3) (incr count) true)
insert3_from (node alpha ports count is_end) (c ∷ val) ss1 ss2 ss3 = do
  old ← child alpha c
  new ← insert3_from (or_init old) val ss1 ss2 ss3
  some (node (store alpha c new) ports (incr count) is_end)

unfoldable pub insert_tries3 : TriesHead → Str → ℤ → ℤ → ℤ → Option TriesHead
insert_tries3 thp val ss1 ss2 ss3 = do
  t ← insert3_from thp.head val ss1 ss2 ss3
  some (record { head = t })

-- `tp->is_end = 0` at each node that the loop leaves; `count` stays.
unfoldable pub insert1_from : Tries → Str → ℤ → Option Tries
insert1_from null val ss1 = none
insert1_from (node alpha ports count is_end) [] ss1 =
    some (node alpha (add_port ports ss1) count true)
insert1_from (node alpha ports count is_end) (c ∷ val) ss1 = do
  old ← child alpha c
  new ← insert1_from (or_init old) val ss1
  some (node (store alpha c new) ports count false)

unfoldable pub insert_tries1 : TriesHead → Str → ℤ → Option TriesHead
insert_tries1 thp val ss1 = do t ← insert1_from thp.head val ss1; some (record { head = t })
