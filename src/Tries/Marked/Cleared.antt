-- ===== src/Tries/Marked/Cleared.antt =====
-- A path whose end mark is cleared: the ports stay.
use network_file_system_in_c.Base.{
  >>=-eq-some, Bool, Str, [], arith, eq_of_some, false, some, subst, sym, ℕ, ℤ, ◌∷◌, ◌≡◌,
}
use network_file_system_in_c.Tries.Entry.{nextentry}
use network_file_system_in_c.Tries.Marked.{clear_end, next_of}
use network_file_system_in_c.Tries.Node.{
  Tries, TriesHead, child, child_lem, is_null, node, node_at, null, ports_of, store,
}
use network_file_system_in_c.Tries.Ports.{LlHead}
use network_file_system_in_c.Tries.Ports.Distinct.{IsPortList}
use network_file_system_in_c.Tries.Valid.{IsValid}

pub clear_step :
    (alpha : ℕ → Tries) (ports : LlHead) (count : ℤ) (is_end : Bool) (c : ℕ) (w : Str) {t' : Tries}
    → clear_end (node alpha ports count is_end) (c ∷ w) ≡ some t'
    → (new : Tries) × (clear_end (alpha c) w ≡ some new)
      × (node (store alpha c new) ports count is_end ≡ t')
unfolding clear_end
clear_step alpha ports count is_end c w h =
    let (old, e, h1) = >>=-eq-some (child alpha c) _ h in
    let (new, e', h2) = >>=-eq-some (clear_end old w) _ h1 in
    (new, subst (λ t. clear_end t w ≡ some new) (child_lem alpha c e) e', eq_of_some h2)

clear_end-ports :
    (t : Tries) (w v : Str) {t' : Tries}
    → clear_end t w ≡ some t'
    → ports_of (node_at t' v) ≡ ports_of (node_at t v)
unfolding node_at store clear_end
clear_end-ports null w v h = cc
clear_end-ports (node alpha ports count is_end) [] [] h = ground arith
clear_end-ports (node alpha ports count is_end) [] (d ∷ v) h = ground arith
clear_end-ports (node alpha ports count is_end) (c ∷ w) [] h =
    ground (arith, clear_step alpha ports count is_end c w h)
clear_end-ports (node alpha ports count is_end) (c ∷ w) (d ∷ v) h =
    let (new, e, t) = clear_step alpha ports count is_end c w h in
    ground (arith, clear_end-ports (alpha c) w v e)

pub clear_end-is_null :
    (t : Tries) (w : Str) {t' : Tries} → clear_end t w ≡ some t' → is_null t' ≡ false
unfolding clear_end
clear_end-is_null null w h = cc
clear_end-is_null (node alpha ports count is_end) [] h = ground arith
clear_end-is_null (node alpha ports count is_end) (c ∷ w) h =
    let (new, e, t) = clear_step alpha ports count is_end c w h in ground arith

-- The end mark of a path is cleared before it is deleted: a valid trie stays valid.
pub next_of-IsValid :
    (thp : TriesHead) (w : Str) {r : Str × TriesHead}
    → IsValid thp
    → next_of thp w ≡ some r
    → IsValid r.1
unfolding next_of
next_of-IsValid thp w valid h =
    let (t, e, h1) = >>=-eq-some (clear_end thp.head w) _ h in
    let (next, e', h2) = >>=-eq-some (nextentry (record { head = t }) w) _ h1 in
    subst (λ x. IsValid x.1) (eq_of_some h2)
      (record {
        allocated = clear_end-is_null thp.head w e;
        ports = λ v. subst IsPortList (sym (clear_end-ports thp.head w v e)) (valid.ports v);
      })
