-- ===== src/Tries/Entry/Below.antt =====
-- What nextentry returns.
use mathlib.Core.List.{append_assoc}
use native.Mathlib.Decide.{dec_lt}
use network_file_system_in_c.Base.{
  Bool, Bool-cases, IsAscii, Str, [], ap, arith, eq_of_some, false, if◌then◌else◌, inl, inr, length,
  length-append, refl, some, subst, suc, sym, true, zero, ℕ, ℤ, ◌++◌, ◌+◌, ◌<◌, ◌∙◌, ◌∷◌, ◌≡◌, ◌≢◌,
  ◌⊎◌,
}
use network_file_system_in_c.Tries.Entry.{entry_below, first_child, nextentry, rec}
use network_file_system_in_c.Tries.Listing.Ended.{below}
use network_file_system_in_c.Tries.Node.{
  Tries, TriesHead, ends, is_null, node, node_at, node_at-null, null,
}
use network_file_system_in_c.Tries.Ports.{LlHead}
use network_file_system_in_c.Tries.Search.Lookup.{descend-node_at}

-- No child of the node is allocated.
abbrev pub IsLeaf : Tries → Type 0
IsLeaf t = (i : ℕ) → i < 128 → is_null (node_at t (i ∷ [])) ≡ true

-- What the scan of the children from `i` on has found: none, or the first one that is there.
abbrev pub Scanned : (ℕ → Tries) → (ℕ → Str → Str) → Str → Str → Type 0
Scanned alpha deeper val r =
    (((j : ℕ) → j < 128 → is_null (alpha j) ≡ true) × (r ≡ val))
    ⊎ ((j : ℕ) × (j < 128)
        × (is_null (alpha j) ≡ false)
        × (r ≡ (if ends (alpha j) then val ++ j ∷ [] else deeper j (val ++ j ∷ []))))

first_child-Scanned :
    (alpha : ℕ → Tries) (deeper : ℕ → Str → Str) (k i : ℕ) (val : Str)
    → i + k ≡ 128
    → ((j : ℕ) → j < i → is_null (alpha j) ≡ true)
    → Scanned alpha deeper val (first_child alpha deeper k i val)
unfolding first_child
first_child-Scanned alpha deeper zero i val h gone = inl (λ j lt. gone j (omega arith), refl)
first_child-Scanned alpha deeper (suc k) i val h gone = elim (Bool-cases (is_null (alpha i))) [
  | inl absent ↦ rw absent (
      first_child-Scanned alpha deeper k (suc i) val (omega arith)
        (λ j lt. extend absent j (dec_lt j i) lt))
  | inr here ↦ rw here (inr (i, omega arith, here, refl))
]
  where
    extend : is_null (alpha i) ≡ true → (j : ℕ) → Dec (j < i) → j < suc i → is_null (alpha j) ≡ true
    extend absent j (yes below) lt = gone j below
    extend absent j (no at) lt = subst (λ n. is_null (alpha n) ≡ true) (omega arith) absent

-- What `rec` finds below `t`: nothing, at a leaf; otherwise a longer path to a node that ends or is
-- a leaf.
abbrev pub Found : Tries → Str → Str → Type 0
Found t val r =
    (IsLeaf t × (r ≡ val))
    ⊎ ((c : ℕ) × (w : Str) × (c < 128)
        × (r ≡ val ++ c ∷ w)
        × (is_null (node_at t (c ∷ w)) ≡ false)
        × ((ends (node_at t (c ∷ w)) ≡ true) ⊎ IsLeaf (node_at t (c ∷ w))))

module _ (alpha : ℕ → Tries) (p : LlHead) (n : ℤ) (e : Bool) (val : Str) where
  Found-child :
      (j : ℕ) (r : Str)
      → j < 128
      → is_null (alpha j) ≡ false
      → Found (alpha j) (val ++ j ∷ []) r
      → Found (node alpha p n e) val r
  unfolding node_at
  Found-child j r lt here (inl (leaf, at)) = inr (j, [], lt, at, here, inr leaf)
  Found-child j r lt here (inr (c, w, _, at, there, last)) =
      inr (j, c ∷ w, lt, at ∙ append_assoc val (j ∷ []) (c ∷ w), there, last)

  Found-scan :
      (r : Str)
      → ((j : ℕ)
          → is_null (alpha j) ≡ false
          → Found (alpha j) (val ++ j ∷ []) (rec (alpha j) (val ++ j ∷ [])))
      → Scanned alpha (λ i. rec (alpha i)) val r
      → Found (node alpha p n e) val r
  unfolding node_at
  Found-scan r ih (inl (gone, at)) = inl (gone, at)
  Found-scan r ih (inr (j, lt, here, at)) = elim (Bool-cases (ends (alpha j))) [
    | inl stop ↦ inr (j, [], lt, at ∙ rw stop, here, inl stop)
    | inr on ↦
        Found-child j r lt here
          (subst (Found (alpha j) (val ++ j ∷ [])) (sym (at ∙ rw on)) (ih j here))
  ]

rec-Found : (t : Tries) (val : Str) → is_null t ≡ false → Found t val (rec t val)
unfolding rec
rec-Found null val h = cc
rec-Found (node alpha p n e) val h =
    Found-scan alpha p n e val _ (λ j here. rec-Found (alpha j) (val ++ j ∷ []) here)
      (first_child-Scanned alpha (λ i. rec (alpha i)) 128 0 val refl (λ j lt. absurd (omega arith)))

abbrev pub Entered : Tries → Str → Str → Type 0
Entered t w r = ((is_null t ≡ true) × (r ≡ [])) ⊎ Found t w r

entry_below-Entered : (t : Tries) (w : Str) → Entered t w (entry_below t w)
unfolding entry_below
entry_below-Entered null w = inl (refl, refl)
entry_below-Entered (node a p n e) w = inr (rec-Found (node a p n e) w refl)

-- nextentry of an ASCII path does not fault. It returns "" if the path leaves the trie, the path
-- itself if its node is a leaf, and otherwise a longer path, whose node ends or is a leaf.
pub nextentry_lem :
    (thp : TriesHead) (w : Str)
    → is_null thp.head ≡ false
    → IsAscii w
    → (r : Str) × (nextentry thp w ≡ some r) × Entered (node_at thp.head w) w r
unfolding nextentry
nextentry_lem thp w h ok = (
  entry_below (node_at thp.head w) w,
  rw (descend-node_at thp.head w h ok),
  entry_below-Entered (node_at thp.head w) w,
)

append_longer : (v : Str) (c : ℕ) (w : Str) → v ++ c ∷ w ≢ v
append_longer v c w e = absurd (omega (arith, ap length e, length-append v (c ∷ w)))

Entered-ne :
    (t : Tries) (w : Str) (c : ℕ) (r : Str)
    → c < 128
    → is_null (node_at t (c ∷ [])) ≡ false
    → Entered t w r
    → r ≢ w
Entered-ne t w c r lt more (inl (gone, at)) e = cc (more, node_at-null t (c ∷ []) gone)
Entered-ne t w c r lt more (inr (inl (leaf, at))) e = cc (more, leaf c lt)
Entered-ne t w c r lt more (inr (inr (d, v, _, at, _, _))) e = append_longer w d v (sym at ∙ e)

-- So nextentry of an ASCII path that has something below it in the trie is another path.
pub nextentry-ne :
    (thp : TriesHead) (w : Str) (c : ℕ) {r : Str}
    → is_null thp.head ≡ false
    → IsAscii w
    → c < 128
    → is_null (node_at (node_at thp.head w) (c ∷ [])) ≡ false
    → nextentry thp w ≡ some r
    → r ≢ w
nextentry-ne thp w c {r} h ok lt more e =
    let (r', e', found) = nextentry_lem thp w h ok in
    Entered-ne (node_at thp.head w) w c r lt more
      (subst (Entered (node_at thp.head w) w) (eq_of_some (sym e' ∙ e)) found)

Entered-leaf : (t : Tries) (w r : Str) → is_null t ≡ false → IsLeaf t → Entered t w r → r ≡ w
unfolding node_at
Entered-leaf null w r here leaf found = cc
Entered-leaf (node a p n e) w r here leaf (inl (gone, at)) = cc
Entered-leaf (node a p n e) w r here leaf (inr (inl (_, at))) = at
Entered-leaf (node a p n e) w r here leaf (inr (inr (d, v, lt, at, there, _))) =
    cc (there, node_at-null (a d) v (leaf d lt))

-- nextentry of an ASCII path with nothing below it in the trie is the path itself.
pub nextentry-leaf :
    (thp : TriesHead) (w : Str)
    → is_null thp.head ≡ false
    → IsAscii w
    → is_null (node_at thp.head w) ≡ false
    → IsLeaf (node_at thp.head w)
    → nextentry thp w ≡ some w
nextentry-leaf thp w h ok there leaf =
    let (r, e, found) = nextentry_lem thp w h ok in
    e ∙ ap some (Entered-leaf (node_at thp.head w) w r there leaf found)
