-- ===== src/Tries/Delete/Undo.antt =====
-- DeleteNode after insertTries3 (Tries.c).
use network_file_system_in_c.Base.{
  >>=-eq-some, Bool, Bool-cases, IsAscii, Str, [], arith, decr, decr-incr, eq_int, eq_of_some,
  false, if◌then◌else◌, incr, inl, inr, pos, refl, some, subst, true, ℕ, ℤ, ◌<◌, ◌∙◌, ◌∷◌, ◌≡◌,
}
use network_file_system_in_c.Tries.Delete.{count_down, delete_node, unlink}
use network_file_system_in_c.Tries.Delete.Lookup.{count_down_inv}
use network_file_system_in_c.Tries.Insert.{add_ports3, insert3_from, insert_tries3, or_init}
use network_file_system_in_c.Tries.Insert.Lookup.{insert3_step}
use network_file_system_in_c.Tries.Node.{
  Tries, TriesHead, child_ascii, count_of, init_trie_node, is_null, node, node_at, null, store,
  store-store, store_same, store_self,
}
use network_file_system_in_c.Tries.Ports.{LlHead}

pub count_down_step :
    (alpha : ℕ → Tries) (ports : LlHead) (count : ℤ) (is_end : Bool) (c : ℕ) (w : Str) (new : Tries)
    → c < 128
    → count_down (alpha c) w ≡ some new
    → count_down (node alpha ports count is_end) (c ∷ w)
      ≡ some (node (store alpha c new) ports (decr count) is_end)
unfolding count_down
count_down_step alpha ports count is_end c w new ok h = rw (child_ascii alpha c ok, h)

pub unlink_step :
    (alpha : ℕ → Tries) (ports : LlHead) (count : ℤ) (is_end : Bool) (c : ℕ) (w : Str) (new : Tries)
    → c < 128
    → unlink (alpha c) w ≡ some new
    → unlink (node alpha ports count is_end) (c ∷ w)
      ≡ some (
          node
            (store alpha c (if eq_int (count_of (alpha c)) (pos 0) then null else new))
            ports
            count
            is_end)
unfolding unlink
unlink_step alpha ports count is_end c w new ok h = rw (child_ascii alpha c ok, h)

module _ (s1 s2 s3 : ℤ) where
  -- Counting down after an insertion reaches its end, and gives the first node its old count.
  count_down-insert3 :
      (t : Tries) (w : Str) {t1 : Tries}
      → IsAscii w
      → insert3_from t w s1 s2 s3 ≡ some t1
      → (t2 : Tries) × (count_down t1 w ≡ some t2) × (count_of t2 ≡ count_of t)
  unfolding insert3_from count_down
  count_down-insert3 null w ok h = cc
  count_down-insert3 (node alpha ports count is_end) [] ok h = (
    node alpha (add_ports3 ports s1 s2 s3) (decr (incr count)) false,
    ground arith,
    decr-incr count,
  )
  count_down-insert3 (node alpha ports count is_end) (c ∷ w) ok h =
      let (new, e, t) = insert3_step alpha ports count is_end c w s1 s2 s3 h in
      let (new', e', _) = count_down-insert3 (or_init (alpha c)) w ok.1 e in
      (
        node (store (store alpha c new) c new') ports (decr (incr count)) is_end,
        rw t (
            count_down_step (store alpha c new) ports (incr count) is_end c w new' ok.0
              (rw (store_self alpha c new) e')),
        decr-incr count,
      )

unlink_round :
    (alpha : ℕ → Tries) (ports : LlHead) (count : ℤ) (is_end : Bool) (c : ℕ) (w : Str)
    (new last : Tries)
    → c < 128
    → unlink new w ≡ some last
    → (t3 : Tries) × (unlink (node (store alpha c new) ports count is_end) (c ∷ w) ≡ some t3)
unlink_round alpha ports count is_end c w new last ok e = (
  _,
  unlink_step (store alpha c new) ports count is_end c w last ok (rw (store_self alpha c new) e),
)

-- The second loop reaches the end of a path along which the first one has gone.
pub unlink-count_down :
    (t : Tries) (w : Str) {t2 : Tries}
    → IsAscii w
    → count_down t w ≡ some t2
    → (t3 : Tries) × (unlink t2 w ≡ some t3)
unfolding count_down unlink
unlink-count_down null w ok h = cc
unlink-count_down (node alpha ports count is_end) [] ok h =
    (node alpha ports (decr count) false, ground arith)
unlink-count_down (node alpha ports count is_end) (c ∷ w) ok h =
    let (new, e, t) = count_down_inv alpha ports count is_end c w h in
    let (last, e') = unlink-count_down (alpha c) w ok.1 e in
    rw t (unlink_round alpha ports (decr count) is_end c w new last ok.0 e')

-- No node below the first one on the path has count 0.
unfoldable pub CountedAlong : Tries → Str → Type 0
CountedAlong t [] = Unit {0}
CountedAlong null (c ∷ w) = Unit {0}
CountedAlong (node alpha _ _ _) (c ∷ w) =
    (is_null (alpha c) ≡ false → eq_int (count_of (alpha c)) (pos 0) ≡ false)
    × CountedAlong (alpha c) w

-- One round of both loops over a node that an insertion has gone through.
undo_round :
    (alpha : ℕ → Tries) (ports : LlHead) (count : ℤ) (is_end : Bool) (c : ℕ) (w : Str)
    (new new' last : Tries)
    → c < 128
    → count_down new w ≡ some new'
    → unlink new' w ≡ some last
    → (if eq_int (count_of new') (pos 0) then null else last) ≡ alpha c
    → (t2 : Tries) × (count_down (node (store alpha c new) ports (incr count) is_end) (c ∷ w)
        ≡ some t2)
      × (unlink t2 (c ∷ w) ≡ some (node alpha ports count is_end))
      × (count_of t2 ≡ count)
undo_round alpha ports count is_end c w new new' last ok e e' back = (
  node (store alpha c new') ports count is_end,
  count_down_step (store alpha c new) ports (incr count) is_end c w new' ok
        (rw (store_self alpha c new) e)
      ∙ rw (store-store alpha c new new', decr-incr count),
  unlink_step (store alpha c new') ports count is_end c w last ok (rw (store_self alpha c new') e')
      ∙ rw (
        store_self alpha c new',
        back,
        store-store alpha c new' (alpha c),
        store_same alpha c (alpha c) refl,
      ),
  refl,
)

or_init_null : (t : Tries) → is_null t ≡ true → count_of (or_init t) ≡ pos 0
unfolding or_init init_trie_node
or_init_null null h = refl
or_init_null (node a p n e) h = cc

eq_null : (t : Tries) → is_null t ≡ true → null ≡ t
eq_null null h = refl
eq_null (node a p n e) h = cc

or_init_here : (t : Tries) → is_null t ≡ false → or_init t ≡ t
unfolding or_init
or_init_here null h = cc
or_init_here (node a p n e) h = refl

module _ (s1 s2 s3 : ℤ) where
  undo_insert3 :
      (t : Tries) (w : Str) {t1 : Tries}
      → IsAscii w
      → is_null (node_at t w) ≡ true
      → CountedAlong t w
      → insert3_from t w s1 s2 s3 ≡ some t1
      → (t2 : Tries) × (count_down t1 w ≡ some t2)
        × (unlink t2 w ≡ some t)
        × (count_of t2 ≡ count_of t)
  unfolding node_at CountedAlong insert3_from
  undo_insert3 null w ok fresh counted h = cc
  undo_insert3 (node alpha ports count is_end) [] ok fresh counted h = cc
  undo_insert3 (node alpha ports count is_end) (c ∷ w) ok fresh counted h =
      let (new, e, t) = insert3_step alpha ports count is_end c w s1 s2 s3 h in
      rw t (elim (Bool-cases (is_null (alpha c))) [
        | inl gone ↦
            let (new', e', k) = count_down-insert3 s1 s2 s3 (or_init (alpha c)) w ok.1 e in
            let (last, e'') = unlink-count_down new w ok.1 e' in
            undo_round alpha ports count is_end c w new new' last ok.0 e' e''
              (rw (k, or_init_null (alpha c) gone) (eq_null (alpha c) gone))
        | inr here ↦
            let e0 = rw (or_init_here (alpha c) here) at e in
            let (new', e', e'', k) = undo_insert3 (alpha c) w ok.1 fresh counted.1 e0 in
            undo_round alpha ports count is_end c w new new' (alpha c) ok.0 e' e''
              (rw (k, counted.0 here) refl)
      ])

-- DeleteNode takes an insertion of a new path back: if the path leaves the trie, and no node on
-- it below the head has count 0, then inserting it and deleting it gives the trie itself.
pub delete_node-insert_tries3 :
    (thp : TriesHead) (w : Str) (s1 s2 s3 : ℤ) {thp' : TriesHead}
    → IsAscii w
    → is_null (node_at thp.head w) ≡ true
    → CountedAlong thp.head w
    → insert_tries3 thp w s1 s2 s3 ≡ some thp'
    → delete_node thp' w ≡ some thp
unfolding insert_tries3 delete_node
delete_node-insert_tries3 thp w s1 s2 s3 ok fresh counted h =
    let (t1, e, e1) = >>=-eq-some (insert3_from thp.head w s1 s2 s3) _ h in
    let (t2, e2, e3, _) = undo_insert3 s1 s2 s3 thp.head w ok fresh counted e in
    subst (λ t. delete_node t w ≡ some thp) (eq_of_some e1) (rw e2 (rw e3))
