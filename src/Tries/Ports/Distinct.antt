-- ===== src/Tries/Ports/Distinct.antt =====
-- The lists of ports that the trie keeps: as long as they say, and without repetitions.
use network_file_system_in_c.Base.{
  Bool, Bool-cases, List, [], arith, eq_int, eq_of_eq_int, inl, inr, length, not, pos, refl, suc,
  true, ℕ, ℤ, ◌&&◌, ◌||◌, ◌∷◌, ◌≡◌,
}
use network_file_system_in_c.Tries.Ports.{LlHead, add_port, insertfront, mem_port}

-- A list of ports with its length beside it, as the functions of Tries.c keep it.
abbrev pub IsSized : LlHead → Type 0
IsSized lh = lh.curr_size ≡ pos (length lh.first)

pub insertfront_at :
    (n : ℕ) (xs : List ℤ) (v : ℤ)
    → n ≡ length xs
    → insertfront (record { curr_size = pos n; first = xs }) v
      ≡ record { curr_size = pos (suc n); first = v ∷ xs }
unfolding insertfront
insertfront_at n [] v h = ground arith
insertfront_at n (x ∷ xs) v h = ground arith

-- On a sized list `insertfront` is a push.
pub insertfront_lem :
    (lh : LlHead) (v : ℤ)
    → IsSized lh
    → insertfront lh v ≡ record { curr_size = pos (suc (length lh.first)); first = v ∷ lh.first }
insertfront_lem lh v h = ground (arith, insertfront_at (length lh.first) lh.first v refl)

unfoldable pub no_repeats : List ℤ → Bool
no_repeats [] = true
no_repeats (v ∷ vs) = not (mem_port vs v) && no_repeats vs

pub record IsPortList (lh : LlHead) : Type 0 where
  pub sized : IsSized lh
  pub distinct : no_repeats lh.first ≡ true

pub no_ports-IsPortList : IsPortList (record { curr_size = pos 0; first = [] })
unfolding no_repeats
no_ports-IsPortList = record { sized = refl; distinct = refl }

pub add_port-IsPortList : (lh : LlHead) (ss : ℤ) → IsPortList lh → IsPortList (add_port lh ss)
unfolding add_port no_repeats
add_port-IsPortList lh ss h = elim (Bool-cases (mem_port lh.first ss)) [
  | inl old ↦ rw old h
  | inr new ↦
      rw (new, insertfront_lem lh ss h.sized)
        (record { sized = refl; distinct = rw (new, h.distinct) })
]

-- A port is there afterwards exactly if it was there or was added.
pub mem_port-add_port :
    (lh : LlHead) (ss v : ℤ)
    → IsPortList lh
    → mem_port (add_port lh ss).first v ≡ (mem_port lh.first v || eq_int ss v)
unfolding add_port mem_port
mem_port-add_port lh ss v h = elim (Bool-cases (mem_port lh.first ss)) [
  | inl old ↦ rw old (ground (arith, eq_of_eq_int ss v))
  | inr new ↦ rw (new, insertfront_lem lh ss h.sized) (ground arith)
]
