-- ===== src/Tries/Register/Found.antt =====
-- What a storage server's registration leaves in the trie.
use network_file_system_in_c.Base.{
  All, Bool-cases, IsAscii, List, Str, [], ap, arith, eq_int_refl, eq_of_str_eq, inl, inr, refl,
  some, str_eq, str_eq_refl, subst, sym, tokens, true, ℕ, ℤ, ◌>>=◌, ◌∙◌, ◌∷◌, ◌≡◌,
}
use network_file_system_in_c.Tries.Insert.{insert_tries3}
use network_file_system_in_c.Tries.Insert.Lookup.{insert_tries3_lem}
use network_file_system_in_c.Tries.Node.{TriesHead, ends, node_at, ports_of}
use network_file_system_in_c.Tries.Ports.{mem_port}
use network_file_system_in_c.Tries.Register.{insert_tokens, tokenize_and_print}
use network_file_system_in_c.Tries.Valid.{IsValid, insert_tries3-IsValid}

-- The path ends in the trie, and the server is among its ports.
abbrev pub IsRegistered : ℤ → TriesHead → Str → Type 0
IsRegistered port thp w =
    (mem_port (ports_of (node_at thp.head w)).first port ≡ true)
    × (ends (node_at thp.head w) ≡ true)

-- One insertion registers its path and keeps every other registration.
pub insert_tries3-IsRegistered :
    (port : ℤ) (thp : TriesHead) (w : Str)
    → IsValid thp
    → IsAscii w
    → (thp' : TriesHead) × (insert_tries3 thp w port port port ≡ some thp')
      × IsValid thp'
      × IsRegistered port thp' w
      × ((q : ℤ) (v : Str) → IsRegistered q thp v → IsRegistered q thp' v)
insert_tries3-IsRegistered port thp w h ok =
    let (thp', e, at) = insert_tries3_lem thp w port port port h.allocated ok in
    let (valid, extends) = insert_tries3-IsValid thp w port port port h e in
    let here : IsRegistered port thp' w =
      (extends port ∙ rw (eq_int_refl port) (ground arith), (at w).1 ∙ rw (str_eq_refl w) refl) in
    (
      thp',
      e,
      valid,
      here,
      λ q v r. elim (Bool-cases (str_eq w v)) [
        | inl same ↦
            let was : IsRegistered q thp w =
              subst (IsRegistered q thp) (sym (eq_of_str_eq w v same)) r in
            subst (IsRegistered q thp') (eq_of_str_eq w v same)
              (extends q ∙ rw was.0 refl, (at w).1 ∙ rw (str_eq_refl w) refl)
        | inr other ↦ let (ports, ended, _) = at v in (rw (ports, other) r.0, ended ∙ rw other r.1)
      ],
    )

-- insert_tokens registers every token.
pub insert_tokens_lem :
    (port : ℤ) (thp : TriesHead) (ts : List Str)
    → IsValid thp
    → All IsAscii ts
    → (thp' : TriesHead) × (insert_tokens thp ts port ≡ some thp')
      × IsValid thp'
      × All (IsRegistered port thp') ts
      × ((q : ℤ) (v : Str) → IsRegistered q thp v → IsRegistered q thp' v)
unfolding insert_tokens
insert_tokens_lem port thp [] h ok = (thp, refl, h, tt, λ q v r. r)
insert_tokens_lem port thp (w ∷ ws) h ok =
    let (t, e, valid, here, kept) = insert_tries3-IsRegistered port thp w h ok.0 in
    let (thp', e', valid', all, kept') = insert_tokens_lem port t ws valid ok.1 in
    (
      thp',
      ap (λ o. o >>= λ t. insert_tokens t ws port) e ∙ e',
      valid',
      (kept' port w here, all),
      λ q v r. kept' q v (kept q v r),
    )

-- A storage server whose paths are all ASCII registers every one of them, in a valid trie: the run
-- does not fault, the trie stays valid, each path ends in it with the server among its ports, and
-- what a server had registered before is still there.
pub tokenize_and_print_lem :
    (thp : TriesHead) (input : Str) (delimiter : ℕ) (port : ℤ)
    → IsValid thp
    → All IsAscii (tokens delimiter input)
    → (thp' : TriesHead) × (tokenize_and_print thp input delimiter port ≡ some thp')
      × IsValid thp'
      × All (IsRegistered port thp') (tokens delimiter input)
      × ((q : ℤ) (v : Str) → IsRegistered q thp v → IsRegistered q thp' v)
unfolding tokenize_and_print
tokenize_and_print_lem thp input delimiter port h ok =
    insert_tokens_lem port thp (tokens delimiter input) h ok
