-- ===== src/Tries/Marked/Fresh.antt =====
-- A path that has just been inserted (Tries.c), and whose end mark Deletefilefunctionality then clears
-- (Naming_server.c).
use network_file_system_in_c.Base.{
  >>=-eq-some, Bool, IsAscii, Str, [], ap, arith, decr, eq_of_some, false, fun_ext, incr, refl,
  some, subst, true, ℕ, ℤ, ◌<◌, ◌>>=◌, ◌∙◌, ◌∷◌, ◌≡◌,
}
use network_file_system_in_c.Tries.Delete.{count_down, delete_node, unlink}
use network_file_system_in_c.Tries.Delete.Undo.{CountedAlong, delete_node-insert_tries3}
use network_file_system_in_c.Tries.Entry.{nextentry}
use network_file_system_in_c.Tries.Entry.Below.{IsLeaf, nextentry-leaf}
use network_file_system_in_c.Tries.Insert.{add_ports3, insert3_from, insert_tries3, or_init}
use network_file_system_in_c.Tries.Insert.Lookup.{insert3_step}
use network_file_system_in_c.Tries.Marked.{clear_end}
use network_file_system_in_c.Tries.Marked.Cleared.{clear_end-is_null, clear_step}
use network_file_system_in_c.Tries.Node.{
  Tries, TriesHead, child_ascii, init_trie_node, is_null, node, node_at, null, store, store-store,
  store_self,
}
use network_file_system_in_c.Tries.Ports.{LlHead}

clear_end_step :
    (alpha : ℕ → Tries) (ports : LlHead) (count : ℤ) (is_end : Bool) (c : ℕ) (w : Str) (new : Tries)
    → c < 128
    → clear_end (alpha c) w ≡ some new
    → clear_end (node alpha ports count is_end) (c ∷ w)
      ≡ some (node (store alpha c new) ports count is_end)
unfolding clear_end
clear_end_step alpha ports count is_end c w new ok h = rw (child_ascii alpha c ok, h) refl

-- The first loop of DeleteNode does not see the end mark of its path.
pub count_down-clear_end :
    (t : Tries) (w : Str) {t' : Tries}
    → IsAscii w
    → clear_end t w ≡ some t'
    → count_down t' w ≡ count_down t w
unfolding clear_end count_down
count_down-clear_end null w ok h = cc
count_down-clear_end (node alpha ports count is_end) [] ok h = ground arith
count_down-clear_end (node alpha ports count is_end) (c ∷ w) ok h =
    let (new, e, t) = clear_step alpha ports count is_end c w h in
    subst (λ u. count_down u (c ∷ w) ≡ count_down (node alpha ports count is_end) (c ∷ w)) t
      (rw
        (
          child_ascii (store alpha c new) c ok.0,
          store_self alpha c new,
          child_ascii alpha c ok.0,
          count_down-clear_end (alpha c) w ok.1 e,
        )
        (ap (λ f. count_down (alpha c) w >>= λ n. some (node (f n) ports (decr count) is_end))
          (fun_ext (λ n. store-store alpha c new n))))

init_trie_node-IsLeaf : (w : Str) → IsLeaf (node_at init_trie_node w)
unfolding init_trie_node node_at
init_trie_node-IsLeaf [] i lt = refl
init_trie_node-IsLeaf (c ∷ []) i lt = refl
init_trie_node-IsLeaf (c ∷ d ∷ w) i lt = refl

or_init-IsLeaf : (t : Tries) (w : Str) → IsLeaf (node_at t w) → IsLeaf (node_at (or_init t) w)
unfolding or_init
or_init-IsLeaf null w leaf = init_trie_node-IsLeaf w
or_init-IsLeaf (node a p n e) w leaf = leaf

-- Insertion puts nothing below its path.
module _ (s1 s2 s3 : ℤ) where
  pub clear_end-insert3 :
      (t : Tries) (w : Str) {t1 : Tries}
      → IsAscii w
      → IsLeaf (node_at t w)
      → insert3_from t w s1 s2 s3 ≡ some t1
      → (t2 : Tries) × (clear_end t1 w ≡ some t2)
        × (is_null (node_at t2 w) ≡ false)
        × IsLeaf (node_at t2 w)
  unfolding insert3_from clear_end node_at
  clear_end-insert3 null w ok leaf h = cc
  clear_end-insert3 (node alpha ports count is_end) [] ok leaf h =
      (node alpha (add_ports3 ports s1 s2 s3) (incr count) false, ground arith, refl, leaf)
  clear_end-insert3 (node alpha ports count is_end) (c ∷ w) ok leaf h =
      let (new, e, t) = insert3_step alpha ports count is_end c w s1 s2 s3 h in
      let (new', cleared, there, leaf') =
        clear_end-insert3 (or_init (alpha c)) w ok.1 (or_init-IsLeaf (alpha c) w leaf) e in
      (
        node (store (store alpha c new) c new') ports (incr count) is_end,
        rw t (
            clear_end_step (store alpha c new) ports (incr count) is_end c w new' ok.0
              (rw (store_self alpha c new) cleared)),
        rw (store_self (store alpha c new) c new') there,
        rw (store_self (store alpha c new) c new') leaf',
      )

null-IsLeaf : (t : Tries) → is_null t ≡ true → IsLeaf t
unfolding node_at
null-IsLeaf null h = λ i lt. refl
null-IsLeaf (node a p n e) h = cc

-- The path of a trie into which it has just been inserted: clearing its end mark leaves it the next
-- entry, and its deletion then gives the trie from before the insertion.
pub cleared_lem :
    (thp : TriesHead) (w : Str) (s1 s2 s3 : ℤ) {thp' : TriesHead}
    → IsAscii w
    → is_null (node_at thp.head w) ≡ true
    → CountedAlong thp.head w
    → insert_tries3 thp w s1 s2 s3 ≡ some thp'
    → (t : Tries) × (clear_end thp'.head w ≡ some t)
      × (nextentry (record { head = t }) w ≡ some w)
      × (delete_node (record { head = t }) w ≡ some thp)
unfolding insert_tries3 delete_node
cleared_lem thp w s1 s2 s3 {thp'} ok fresh counted h =
    let (t1, e, e1) = >>=-eq-some (insert3_from thp.head w s1 s2 s3) _ h in
    let at : t1 ≡ thp'.head = ap (λ x. x.head) (eq_of_some e1) in
    let (t2, cleared, there, leaf) =
      clear_end-insert3 s1 s2 s3 thp.head w ok (null-IsLeaf (node_at thp.head w) fresh) e in
    let undone = delete_node-insert_tries3 thp w s1 s2 s3 ok fresh counted h in
    (
      t2,
      subst (λ t. clear_end t w ≡ some t2) at cleared,
      nextentry-leaf (record { head = t2 }) w (clear_end-is_null t1 w cleared) ok there leaf,
      ap (λ o. o >>= λ counted. unlink counted w >>= λ t. some (record { head = t }))
            (count_down-clear_end t1 w ok cleared ∙ ap (λ t. count_down t w) at)
          ∙ undone,
    )
