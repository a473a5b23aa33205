-- ===== src/Tries/Delete/Lookup.antt =====
-- What a lookup finds after DeleteNode.
use network_file_system_in_c.Base.{
  >>=-eq-some, Bool, Bool-cases, Str, [], arith, decr, eq_int, eq_of_some, false, if◌then◌else◌,
  inl, inr, pos, refl, some, str_eq, true, ℕ, ℤ, ◌&&◌, ◌==◌, ◌||◌, ◌∷◌, ◌≡◌,
}
use network_file_system_in_c.Tries.Delete.{count_down, delete_node, unlink}
use network_file_system_in_c.Tries.Node.{
  Tries, TriesHead, child, child_lem, count_of, ends, is_null, no_ports, node, node_at,
  node_at-null, null, ports_of, store,
}
use network_file_system_in_c.Tries.Ports.{LlHead}

-- One round of the first loop, taken apart.
pub count_down_inv :
    (alpha : ℕ → Tries) (ports : LlHead) (count : ℤ) (is_end : Bool) (c : ℕ) (w : Str) {t : Tries}
    → count_down (node alpha ports count is_end) (c ∷ w) ≡ some t
    → (new : Tries) × (count_down (alpha c) w ≡ some new)
      × (t ≡ node (store alpha c new) ports (decr count) is_end)
unfolding count_down
count_down_inv alpha ports count is_end c w h =
    let (old, e, h') = >>=-eq-some (child alpha c) _ h in
    let (new, e', h'') = >>=-eq-some (count_down old w) _ h' in
    (new, rw (← child_lem alpha c e) e', cc)

pub unlink_inv :
    (alpha : ℕ → Tries) (ports : LlHead) (count : ℤ) (is_end : Bool) (c : ℕ) (w : Str) {t : Tries}
    → unlink (node alpha ports count is_end) (c ∷ w) ≡ some t
    → (new : Tries) × (unlink (alpha c) w ≡ some new)
      × (t
          ≡ node
              (store alpha c (if eq_int (count_of (alpha c)) (pos 0) then null else new))
              ports
              count
              is_end)
unfolding unlink
unlink_inv alpha ports count is_end c w h =
    let (old, e, h') = >>=-eq-some (child alpha c) _ h in
    let (new, e', h'') = >>=-eq-some (unlink old w) _ h' in
    (new, rw (← child_lem alpha c e) e', rw (← child_lem alpha c e) (cc))

-- Counting down lowers the counts on the path, clears the end mark of the path, and changes
-- nothing else.
pub count_down-node_at :
    (t : Tries) (w v : Str) {t' : Tries}
    → count_down t w ≡ some t'
    → (ports_of (node_at t' v) ≡ ports_of (node_at t v))
      × (ends (node_at t' v) ≡ (if str_eq w v then false else ends (node_at t v)))
      × (is_null (node_at t' v) ≡ is_null (node_at t v))
unfolding node_at store count_down
count_down-node_at null w v h = cc
count_down-node_at (node alpha ports count is_end) [] [] h = ground arith
count_down-node_at (node alpha ports count is_end) [] (d ∷ v) h = ground arith
count_down-node_at (node alpha ports count is_end) (c ∷ w) [] h =
    ground (arith, count_down_inv alpha ports count is_end c w h)
count_down-node_at (node alpha ports count is_end) (c ∷ w) (d ∷ v) h =
    let (new, e, t) = count_down_inv alpha ports count is_end c w h in
    ground (arith, count_down-node_at (alpha c) w v e)

-- A node on `w`, below `t`, whose count is 0 cuts off `v`.
cuts : Tries → Str → Str → Bool
cuts null w v = false
cuts (node alpha _ _ _) [] v = false
cuts (node alpha _ _ _) (c ∷ w) [] = false
cuts (node alpha _ _ _) (c ∷ w) (d ∷ v) =
    (c == d) && (eq_int (count_of (alpha c)) (pos 0) || cuts (alpha c) w v)

unlink-node_at :
    (t : Tries) (w v : Str) {t' : Tries}
    → unlink t w ≡ some t'
    → (ports_of (node_at t' v) ≡ (if cuts t w v then no_ports else ports_of (node_at t v)))
      × (ends (node_at t' v) ≡ (if cuts t w v then false else ends (node_at t v)))
      × (is_null (node_at t' v) ≡ (if cuts t w v then true else is_null (node_at t v)))
unfolding node_at store unlink cuts
unlink-node_at null w v h = cc
unlink-node_at (node alpha ports count is_end) [] v h = ground arith
unlink-node_at (node alpha ports count is_end) (c ∷ w) [] h =
    ground (arith, unlink_inv alpha ports count is_end c w h)
unlink-node_at (node alpha ports count is_end) (c ∷ w) (d ∷ v) h =
    let (new, e, t) = unlink_inv alpha ports count is_end c w h in
    let ih = unlink-node_at (alpha c) w v e in
    rw t (elim (Bool-cases (eq_int (count_of (alpha c)) (pos 0))) [
      | inl none_left ↦ rw none_left (ground (arith, node_at-null null v refl))
      | inr more ↦ rw more (ground (arith, ih))
    ])

-- DeleteNode of `w` gives back the node of `v`: some node below the head, on `w` and on `v`, has
-- count 1, which the deletion takes to 0.
unfoldable pub released : Tries → Str → Str → Bool
released null w v = false
released (node alpha _ _ _) [] v = false
released (node alpha _ _ _) (c ∷ w) [] = false
released (node alpha _ _ _) (c ∷ w) (d ∷ v) =
    (c == d) && (eq_int (decr (count_of (alpha c))) (pos 0) || released (alpha c) w v)

count_down-count :
    (t : Tries) (w : Str) {t' : Tries} → count_down t w ≡ some t' → count_of t' ≡ decr (count_of t)
unfolding count_down
count_down-count null w h = cc
count_down-count (node alpha ports count is_end) [] h = ground arith
count_down-count (node alpha ports count is_end) (c ∷ w) h =
    ground (arith, count_down_inv alpha ports count is_end c w h)

cuts-count_down :
    (t : Tries) (w v : Str) {t' : Tries} → count_down t w ≡ some t' → cuts t' w v ≡ released t w v
unfolding cuts released count_down store
cuts-count_down null w v h = cc
cuts-count_down (node alpha ports count is_end) [] v h = ground arith
cuts-count_down (node alpha ports count is_end) (c ∷ w) [] h =
    ground (arith, count_down_inv alpha ports count is_end c w h)
cuts-count_down (node alpha ports count is_end) (c ∷ w) (d ∷ v) h =
    let (new, e, t) = count_down_inv alpha ports count is_end c w h in
    ground (arith, cuts-count_down (alpha c) w v e, count_down-count (alpha c) w e)

-- A DeleteNode that does not fault: a path whose node is given back leaves the trie, with no ports
-- and no end mark; every other path keeps its node and its ports, and keeps its end mark unless
-- it is the path that was deleted.
pub delete_node_lem :
    (thp : TriesHead) (w : Str) {thp' : TriesHead}
    → delete_node thp w ≡ some thp'
    → (v : Str)
    → (ports_of (node_at thp'.head v)
        ≡ (if released thp.head w v then no_ports else ports_of (node_at thp.head v)))
      × (ends (node_at thp'.head v) ≡ (
          if released thp.head w v
          then false
          else if str_eq w v
          then false
          else ends (node_at thp.head v)))
      × (is_null (node_at thp'.head v)
          ≡ (if released thp.head w v then true else is_null (node_at thp.head v)))
unfolding delete_node
delete_node_lem thp w h v =
    let (t2, e, h') = >>=-eq-some (count_down thp.head w) _ h in
    let (t3, e', h'') = >>=-eq-some (unlink t2 w) _ h' in
    let same : record { head = t3 } ≡ _ = eq_of_some h'' in
    ground (
      arith,
      same,
      count_down-node_at thp.head w v e,
      unlink-node_at t2 w v e',
      cuts-count_down thp.head w v e,
    )

-- The path of a deletion that does not fault is in the trie.
pub count_down-here :
    (t : Tries) (w : Str) {t' : Tries} → count_down t w ≡ some t' → is_null (node_at t w) ≡ false
unfolding count_down node_at
count_down-here null w h = cc
count_down-here (node alpha ports count is_end) [] h = refl
count_down-here (node alpha ports count is_end) (c ∷ w) h =
    let (new, e, t) = count_down_inv alpha ports count is_end c w h in count_down-here (alpha c) w e

pub delete_node-here :
    (thp : TriesHead) (w : Str) {thp' : TriesHead}
    → delete_node thp w ≡ some thp'
    → is_null (node_at thp.head w) ≡ false
unfolding delete_node
delete_node-here thp w h =
    let (t2, e, h') = >>=-eq-some (count_down thp.head w) _ h in count_down-here thp.head w e
