-- ===== src/Tries/Valid.antt =====
-- The invariant of the trie: every list of ports has the size it says and holds no port twice.
use network_file_system_in_c.Base.{
  >>=-eq-some, Bool, IsAscii, Str, [], ap, arith, eq_int, eq_of_some, false, if◌then◌else◌, refl,
  some, str_eq, str_eq_refl, subst, sym, true, ℤ, ◌||◌, ◌∙◌, ◌∷◌, ◌≡◌,
}
use network_file_system_in_c.Tries.Delete.{delete_node}
use network_file_system_in_c.Tries.Delete.Lookup.{delete_node_lem, released}
use network_file_system_in_c.Tries.Insert.{add_ports3, insert3_from, insert_tries3}
use network_file_system_in_c.Tries.Insert.Lookup.{insert3-ports, insert3-ports_self, insert3_step}
use network_file_system_in_c.Tries.Node.{
  Tries, TriesHead, ends, init_trie_node, init_tries, is_null, no_ports, node, node_at, null,
  ports_of,
}
use network_file_system_in_c.Tries.Ports.{LlHead, add_port, init_list, mem_port}
use network_file_system_in_c.Tries.Ports.Distinct.{
  IsPortList, add_port-IsPortList, mem_port-add_port, no_ports-IsPortList,
}
use network_file_system_in_c.Tries.Search.{search_words}
use network_file_system_in_c.Tries.Search.Lookup.{result_at, search_words_lem}

pub record IsValid (thp : TriesHead) : Type 0 where
  pub allocated : is_null thp.head ≡ false
  pub ports : (v : Str) → IsPortList (ports_of (node_at thp.head v))

add_ports3-IsPortList :
    (lh : LlHead) (s1 s2 s3 : ℤ) → IsPortList lh → IsPortList (add_ports3 lh s1 s2 s3)
unfolding add_ports3
add_ports3-IsPortList lh s1 s2 s3 h =
    add_port-IsPortList _ s3 (add_port-IsPortList _ s2 (add_port-IsPortList lh s1 h))

mem_port-add_ports3 :
    (lh : LlHead) (s1 s2 s3 v : ℤ)
    → IsPortList lh
    → mem_port (add_ports3 lh s1 s2 s3).first v
      ≡ (mem_port lh.first v || eq_int s1 v || eq_int s2 v || eq_int s3 v)
unfolding add_ports3
mem_port-add_ports3 lh s1 s2 s3 v h =
    let h1 = add_port-IsPortList lh s1 h in
    let h2 = add_port-IsPortList (add_port lh s1) s2 h1 in
    rw (mem_port-add_port (add_port (add_port lh s1) s2) s3 v h2)
      (rw (mem_port-add_port (add_port lh s1) s2 v h1) (rw (mem_port-add_port lh s1 v h)))

init_tries_empty : (v : Str) → ports_of (node_at init_tries.head v) ≡ no_ports
unfolding init_tries init_trie_node node_at init_list
init_tries_empty [] = refl
init_tries_empty (c ∷ []) = refl
init_tries_empty (c ∷ d ∷ v) = refl

insert3_here :
    (t : Tries) (w : Str) (s1 s2 s3 : ℤ) {t' : Tries}
    → insert3_from t w s1 s2 s3 ≡ some t'
    → is_null t' ≡ false
unfolding insert3_from
insert3_here null w s1 s2 s3 h = cc
insert3_here (node alpha ports count is_end) [] s1 s2 s3 h = ground arith
insert3_here (node alpha ports count is_end) (c ∷ w) s1 s2 s3 h =
    ground (arith, insert3_step alpha ports count is_end c w s1 s2 s3 h)

-- Ports that are those of a valid list on both branches are valid.
if_IsPortList :
    (b : Bool) {lh x y : LlHead}
    → lh ≡ (if b then x else y)
    → IsPortList x
    → IsPortList y
    → IsPortList lh
if_IsPortList true e hx hy = rw e hx
if_IsPortList false e hx hy = rw e hy

pub init_tries-IsValid : IsValid init_tries
unfolding init_tries
init_tries-IsValid = record {
  allocated = refl;
  ports = λ v. rw (init_tries_empty v) no_ports-IsPortList;
}

-- The second list holds the ports of the first one and the three that are given, and no others.
abbrev pub Extends : LlHead → LlHead → ℤ → ℤ → ℤ → Type 0
Extends old new s1 s2 s3 =
    (v : ℤ)
    → mem_port new.first v ≡ (mem_port old.first v || eq_int s1 v || eq_int s2 v || eq_int s3 v)

insert3-IsValid :
    (thp : TriesHead) (w : Str) (s1 s2 s3 : ℤ) {t : Tries}
    → IsValid thp
    → insert3_from thp.head w s1 s2 s3 ≡ some t
    → IsValid (record { head = t })
      × Extends (ports_of (node_at thp.head w)) (ports_of (node_at t w)) s1 s2 s3
insert3-IsValid thp w s1 s2 s3 h e = (
  record {
    allocated = insert3_here thp.head w s1 s2 s3 e;
    ports = λ v.
        if_IsPortList (str_eq w v) (insert3-ports s1 s2 s3 thp.head w v e)
          (add_ports3-IsPortList _ s1 s2 s3 (h.ports w)) (h.ports v);
  },
  λ v. rw (insert3-ports_self s1 s2 s3 thp.head w e) (mem_port-add_ports3 _ s1 s2 s3 v (h.ports w)),
)

-- An insertion keeps the trie valid, and the path has afterwards exactly the ports that it had
-- and the three that were given.
pub insert_tries3-IsValid :
    (thp : TriesHead) (w : Str) (s1 s2 s3 : ℤ) {thp' : TriesHead}
    → IsValid thp
    → insert_tries3 thp w s1 s2 s3 ≡ some thp'
    → IsValid thp'
      × Extends (ports_of (node_at thp.head w)) (ports_of (node_at thp'.head w)) s1 s2 s3
unfolding insert_tries3
insert_tries3-IsValid thp w s1 s2 s3 h e =
    let (t, e', e'') = >>=-eq-some (insert3_from thp.head w s1 s2 s3) _ e in
    subst
      (λ x.
        IsValid x × Extends (ports_of (node_at thp.head w)) (ports_of (node_at x.head w)) s1 s2 s3)
      (eq_of_some e'') (insert3-IsValid thp w s1 s2 s3 h e')

released_root : (t : Tries) (w : Str) → released t w [] ≡ false
unfolding released
released_root null w = refl
released_root (node a p n e) [] = refl
released_root (node a p n e) (c ∷ w) = refl

-- A deletion that does not fault keeps the trie valid.
pub delete_node-IsValid :
    (thp : TriesHead) (w : Str) {thp' : TriesHead}
    → IsValid thp
    → delete_node thp w ≡ some thp'
    → IsValid thp'
unfolding delete_node node_at
delete_node-IsValid thp w h e = record {
  allocated = (delete_node_lem thp w e []).2 ∙ rw (released_root thp.head w) h.allocated;
  ports = λ v.
      if_IsPortList (released thp.head w v) (delete_node_lem thp w e v).0 no_ports-IsPortList
        (h.ports v);
}

result_at_eq :
    (t t' : Tries) → is_null t ≡ is_null t' → ports_of t ≡ ports_of t' → result_at t ≡ result_at t'
unfolding result_at
result_at_eq null null h e = refl
result_at_eq null (node a p n e') h e = cc
result_at_eq (node a p n e') null h e = cc
result_at_eq (node a p n e') (node a' p' n' e'') h e = rw e

-- DeleteNode keeps the ports of a path whose node stays, so searchWords goes on finding the path.
pub search_words-delete_node :
    (thp : TriesHead) (w : Str) {thp' : TriesHead}
    → IsValid thp
    → IsAscii w
    → delete_node thp w ≡ some thp'
    → released thp.head w w ≡ false
    → (ends (node_at thp'.head w) ≡ false)
      × (search_words thp' w init_list ≡ search_words thp w init_list)
search_words-delete_node thp w h ok e stays =
    let (ports, mark, here) = delete_node_lem thp w e w in
    (
      mark ∙ rw (stays, str_eq_refl w),
      search_words_lem _ w (delete_node-IsValid thp w h e).allocated ok
          ∙ ap some (result_at_eq _ _ (here ∙ rw stays) (ports ∙ rw stays))
          ∙ sym (search_words_lem thp w h.allocated ok),
    )
