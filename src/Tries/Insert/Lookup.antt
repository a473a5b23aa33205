-- ===== src/Tries/Insert/Lookup.antt =====
-- What a lookup finds after insertTries3.
use network_file_system_in_c.Base.{
  >>=-eq-some, Bool, IsAscii, Str, [], arith, false, if◌then◌else◌, incr, refl, some, str_eq,
  str_eq_refl, true, ℕ, ℤ, ◌&&◌, ◌==◌, ◌∷◌, ◌≡◌,
}
use network_file_system_in_c.Tries.Insert.{add_ports3, insert3_from, insert_tries3, or_init}
use network_file_system_in_c.Tries.Node.{
  Tries, TriesHead, child, child_ascii, child_lem, count_of, ends, is_null, node, node_at, null,
  ports_of, store,
}
use network_file_system_in_c.Tries.Ports.{LlHead}

unfoldable pub is_prefix : Str → Str → Bool
is_prefix [] w = true
is_prefix (c ∷ cs) [] = false
is_prefix (c ∷ cs) (d ∷ ds) = (c == d) && is_prefix cs ds

-- One round of the loop, taken apart.
pub insert3_step :
    (alpha : ℕ → Tries) (ports : LlHead) (count : ℤ) (is_end : Bool) (c : ℕ) (w : Str)
    (s1 s2 s3 : ℤ) {t : Tries}
    → insert3_from (node alpha ports count is_end) (c ∷ w) s1 s2 s3 ≡ some t
    → (new : Tries) × (insert3_from (or_init (alpha c)) w s1 s2 s3 ≡ some new)
      × (t ≡ node (store alpha c new) ports (incr count) is_end)
unfolding insert3_from
insert3_step alpha ports count is_end c w s1 s2 s3 h =
    let (old, e, h') = >>=-eq-some (child alpha c) _ h in
    let (new, e', h'') = >>=-eq-some (insert3_from (or_init old) w s1 s2 s3) _ h' in
    (new, rw (← child_lem alpha c e) e', cc)

-- A NULL child reads like the empty node that replaces it.
pub node_at-or_init :
    (t : Tries) (v : Str)
    → (ports_of (node_at (or_init t) v) ≡ ports_of (node_at t v))
      × (ends (node_at (or_init t) v) ≡ ends (node_at t v))
      × (count_of (node_at (or_init t) v) ≡ count_of (node_at t v))
unfolding node_at or_init
node_at-or_init null [] = (refl, refl, refl)
node_at-or_init null (c ∷ []) = (refl, refl, refl)
node_at-or_init null (c ∷ d ∷ v) = (refl, refl, refl)
node_at-or_init (node a p n e) v = (refl, refl, refl)

module _ (s1 s2 s3 : ℤ) where
  -- The ports of every path after an insertion: those of `w` are extended, no others change.
  pub insert3-ports :
      (t : Tries) (w v : Str) {t' : Tries}
      → insert3_from t w s1 s2 s3 ≡ some t'
      → ports_of (node_at t' v) ≡ (
          if str_eq w v
          then add_ports3 (ports_of (node_at t w)) s1 s2 s3
          else ports_of (node_at t v))
  unfolding node_at store insert3_from
  insert3-ports null w v h = cc
  insert3-ports (node alpha ports count is_end) [] [] h = ground arith
  insert3-ports (node alpha ports count is_end) [] (d ∷ v) h = ground arith
  insert3-ports (node alpha ports count is_end) (c ∷ w) [] h =
      ground (arith, insert3_step alpha ports count is_end c w s1 s2 s3 h)
  insert3-ports (node alpha ports count is_end) (c ∷ w) (d ∷ v) h =
      let (new, e, t) = insert3_step alpha ports count is_end c w s1 s2 s3 h in
      ground (
        arith,
        insert3-ports (or_init (alpha c)) w v e,
        node_at-or_init (alpha c) w,
        node_at-or_init (alpha c) v,
      )

  pub insert3-ports_self :
      (t : Tries) (w : Str) {t' : Tries}
      → insert3_from t w s1 s2 s3 ≡ some t'
      → ports_of (node_at t' w) ≡ add_ports3 (ports_of (node_at t w)) s1 s2 s3
  insert3-ports_self t w h = ground (arith, insert3-ports t w w h, str_eq_refl w)

  -- The path that was inserted ends at its node, and no other mark changes.
  pub insert3-ends :
      (t : Tries) (w v : Str) {t' : Tries}
      → insert3_from t w s1 s2 s3 ≡ some t'
      → ends (node_at t' v) ≡ (if str_eq w v then true else ends (node_at t v))
  unfolding node_at store insert3_from
  insert3-ends null w v h = cc
  insert3-ends (node alpha ports count is_end) [] [] h = ground arith
  insert3-ends (node alpha ports count is_end) [] (d ∷ v) h = ground arith
  insert3-ends (node alpha ports count is_end) (c ∷ w) [] h =
      ground (arith, insert3_step alpha ports count is_end c w s1 s2 s3 h)
  insert3-ends (node alpha ports count is_end) (c ∷ w) (d ∷ v) h =
      let (new, e, t) = insert3_step alpha ports count is_end c w s1 s2 s3 h in
      ground (arith, insert3-ends (or_init (alpha c)) w v e, node_at-or_init (alpha c) v)

  -- The count goes up by one at every node that the path passes or ends at, and nowhere else.
  pub insert3-count :
      (t : Tries) (w v : Str) {t' : Tries}
      → insert3_from t w s1 s2 s3 ≡ some t'
      → count_of (node_at t' v)
        ≡ (if is_prefix v w then incr (count_of (node_at t v)) else count_of (node_at t v))
  unfolding node_at store insert3_from is_prefix
  insert3-count null w v h = cc
  insert3-count (node alpha ports count is_end) [] [] h = ground arith
  insert3-count (node alpha ports count is_end) [] (d ∷ v) h = ground arith
  insert3-count (node alpha ports count is_end) (c ∷ w) [] h =
      ground (arith, insert3_step alpha ports count is_end c w s1 s2 s3 h)
  insert3-count (node alpha ports count is_end) (c ∷ w) (d ∷ v) h =
      let (new, e, t) = insert3_step alpha ports count is_end c w s1 s2 s3 h in
      ground (arith, insert3-count (or_init (alpha c)) w v e, node_at-or_init (alpha c) v)

  -- An insertion of an ASCII path faults nowhere.
  pub insert3-total :
      (t : Tries) (w : Str)
      → is_null t ≡ false
      → IsAscii w
      → (t' : Tries) × (insert3_from t w s1 s2 s3 ≡ some t')
  unfolding insert3_from or_init
  insert3-total null w h ok = cc
  insert3-total (node alpha ports count is_end) [] h ok = (_, refl)
  insert3-total (node alpha ports count is_end) (c ∷ w) h ok =
      let (new, e) = insert3-total (or_init (alpha c)) w (ground arith) ok.1 in
      (node (store alpha c new) ports (incr count) is_end, rw (child_ascii alpha c ok.0, e))

-- insertTries3 of an ASCII path into a trie whose head is allocated succeeds. Afterwards the path
-- has its old ports extended by the three, and ends at its node; the ports and end marks of
-- every other path are what they were; and `count` has gone up by one at exactly the prefixes of
-- the path, itself included.
pub insert_tries3_lem :
    (thp : TriesHead) (w : Str) (s1 s2 s3 : ℤ)
    → is_null thp.head ≡ false
    → IsAscii w
    → (thp' : TriesHead) × (insert_tries3 thp w s1 s2 s3 ≡ some thp')
      × ((v : Str)
          → (ports_of (node_at thp'.head v) ≡ (
              if str_eq w v
              then add_ports3 (ports_of (node_at thp.head w)) s1 s2 s3
              else ports_of (node_at thp.head v)))
            × (ends (node_at thp'.head v)
                ≡ (if str_eq w v then true else ends (node_at thp.head v)))
            × (count_of (node_at thp'.head v) ≡ (
                if is_prefix v w
                then incr (count_of (node_at thp.head v))
                else count_of (node_at thp.head v))))
unfolding insert_tries3
insert_tries3_lem thp w s1 s2 s3 h ok =
    let (t, e) = insert3-total s1 s2 s3 thp.head w h ok in
    (
      record { head = t },
      rw e,
      λ v. (
        insert3-ports s1 s2 s3 thp.head w v e,
        insert3-ends s1 s2 s3 thp.head w v e,
        insert3-count s1 s2 s3 thp.head w v e,
      ),
    )
