-- ===== src/Tries/Ports.antt =====
-- The linked list of ports of Tries.c (struct LLHead, struct LLNode). A chain of LLNode is the list
-- of its values.
pub mod Distinct
use network_file_system_in_c.Base.{
  Bool, List, Option, [], eq_int, false, if◌then◌else◌, incr, none, pos, some, true, ℕ, ℤ, ◌∷◌,
}

pub record LlHead : Type 0 where
  pub curr_size : ℤ
  pub first : List ℤ

unfoldable pub init_list : LlHead
init_list = record { curr_size = pos 0; first = [] }

-- With `currSize` 0 the new node replaces whatever `first` was.
unfoldable pub insertfront : LlHead → ℤ → LlHead
insertfront qn elem =
    if eq_int qn.curr_size (pos 0)
    then record { curr_size = pos 1; first = elem ∷ [] }
    else record { curr_size = incr qn.curr_size; first = elem ∷ qn.first }

abbrev pub link_second : List ℤ → ℤ → Option (List ℤ)
link_second [] elem = none
link_second (x ∷ _) elem = some (x ∷ elem ∷ [])

abbrev pub link_third : List ℤ → ℤ → Option (List ℤ)
link_third [] elem = none
link_third (x ∷ []) elem = none
link_third (x ∷ y ∷ _) elem = some (x ∷ y ∷ elem ∷ [])

abbrev pub with_size : ℕ → Option (List ℤ) → Option LlHead
with_size n none = none
with_size n (some xs) = some (record { curr_size = pos n; first = xs })

-- A size other than 0 and 1 links the node behind the second one and cuts the rest off.
unfoldable pub insertback : LlHead → ℤ → Option LlHead
insertback qn elem =
    if eq_int qn.curr_size (pos 0)
    then some (record { curr_size = pos 1; first = elem ∷ [] })
    else if eq_int qn.curr_size (pos 1)
    then with_size 2 (link_second qn.first elem)
    else with_size 3 (link_third qn.first elem)

unfoldable pub mem_port : List ℤ → ℤ → Bool
mem_port [] port = false
mem_port (v ∷ vs) port = if eq_int v port then true else mem_port vs port

-- 0 if the port is there already, 1 if not.
unfoldable pub check_for_port_existance : LlHead → ℤ → Bool
unfolding mem_port
check_for_port_existance ll port = if mem_port ll.first port then false else true

unfoldable pub add_port : LlHead → ℤ → LlHead
unfolding check_for_port_existance
add_port ports ss = if check_for_port_existance ports ss then insertfront ports ss else ports
