-- ===== src/Naming/Ports/Free.antt =====
-- What the two searches for a port find (Naming_server.c).
use network_file_system_in_c.Base.{
  Bool, Bool-cases, Option, arith, false, if◌then◌else◌, inl, inr, is_neg, minus_one, negsuc, none,
  not, not-false, not-true, pos, refl, some, suc, true, zero, ℕ, ℤ, ◌%◌, ◌+◌, ◌<◌, ◌==◌, ◌≡◌, ◌≢◌,
  ◌≤◌, ◌⊎◌,
}
use network_file_system_in_c.Naming.Ports.{
  Taken, exits, find_a_free_port_for_client, find_storage_server_port, first_index, free_port,
  index_of, take_port,
}
use network_file_system_in_c.Naming.Redundancy.{is_up}
use network_file_system_in_c.Naming.State.{Network, Server, done}

-- The answer is the first of `k` indices from `i` on with the flag, or none has it.
abbrev pub FirstAt : (ℕ → Bool) → ℕ → ℕ → Option ℕ → Type 0
FirstAt flag k i none = (j : ℕ) → i ≤ j → j < i + k → flag j ≡ false
FirstAt flag k i (some j) =
    (i ≤ j) × (j < i + k) × (flag j ≡ true) × ((m : ℕ) → i ≤ m → m < j → flag m ≡ false)

pub first_index_later :
    (flag : ℕ → Bool) (k i : ℕ) (found : Option ℕ)
    → flag i ≡ false
    → FirstAt flag k (suc i) found
    → FirstAt flag (suc k) i found
first_index_later flag k i none h later = λ j low high. elim (Bool-cases (j == i)) [
  | inl e ↦ ground arith
  | inr e ↦ later j (ground arith) (ground arith)
]
first_index_later flag k i (some j) h (low, high, up, before) = (
  ground arith,
  ground arith,
  up,
  λ m from to. elim (Bool-cases (m == i)) [
    | inl e ↦ ground arith
    | inr e ↦ before m (ground arith) to
  ],
)

pub first_index_step :
    (flag : ℕ → Bool) (k i : ℕ) (up : Bool) (later : Option ℕ)
    → flag i ≡ up
    → FirstAt flag k (suc i) later
    → FirstAt flag (suc k) i (if up then some i else later)
first_index_step flag k i true later h rest =
    (ground arith, ground arith, h, λ m from to. ground arith)
first_index_step flag k i false later h rest = first_index_later flag k i later h rest

pub first_index_lem : (flag : ℕ → Bool) (k i : ℕ) → FirstAt flag k i (first_index flag k i)
unfolding first_index
first_index_lem flag zero i = λ j h k. ground arith
first_index_lem flag (suc k) i =
    first_index_step flag k i (flag i) (first_index flag k (suc i)) refl
      (first_index_lem flag k (suc i))

-- What a client gets: the number of a port that was free, is now taken, and is the only one that
-- changes, unless the process ends because it could not be sent; or -1, with nothing sent and nothing changed, where all six are taken.
abbrev pub PortGiven : Server → ℤ → Taken × Option ℕ × Server → Type 0
PortGiven s result (port, sent, s') =
    ((i : ℕ) × (port ≡ (if is_neg result then exits else free_port (pos i)))
      × (i < 6)
      × (sent ≡ some (i + 5100))
      × (s.client_available i ≡ false)
      × ((m : ℕ) → m < i → s.client_available m ≡ true)
      × (s'.client_available i ≡ true)
      × ((j : ℕ) → j ≢ i → s'.client_available j ≡ s.client_available j))
    ⊎ ((port ≡ free_port minus_one)
        × (sent ≡ none)
        × (s' ≡ s)
        × ((j : ℕ) → j < 6 → s.client_available j ≡ true))

pub take_port_lem :
    (s : Server) (result : ℤ) (found : Option ℕ)
    → FirstAt (λ i. not (s.client_available i)) 6 0 found
    → PortGiven s result (take_port s result found)
unfolding take_port
take_port_lem s result none all =
    inr (refl, refl, refl, λ j h. not-false (s.client_available j) (all j (ground arith) h))
take_port_lem s result (some i) (low, high, free, before) = inl (
  i,
  refl,
  high,
  refl,
  not-true (s.client_available i) free,
  λ m h. not-false (s.client_available m) (before m (ground arith) h),
  ground arith,
  λ j h. ground arith,
)

-- A client is sent the number, from 5100 on, of the first of the six ports that is free; the port is
-- then taken, and no other port changes. The result is its index, but the process ends if the send
-- fails. Where all six ports are taken the result is -1, with nothing sent and nothing changed.
pub find_a_free_port_for_client_lem :
    (s : Server) (result : ℤ) → PortGiven s result (find_a_free_port_for_client s result)
unfolding find_a_free_port_for_client
find_a_free_port_for_client_lem s result =
    take_port_lem s result (first_index (λ i. not (s.client_available i)) 6 0)
      (first_index_lem (λ i. not (s.client_available i)) 6 0)

-- The storage server that a new file goes to: the one that was drawn if it is up, else the first
-- of the six that is up; -1 where none is up.
abbrev pub IsChosen : (ℕ → Bool) → ℕ → ℤ → Type 0
IsChosen up drawn (negsuc k) = (k ≡ 0) × ((j : ℕ) → j < 6 → up j ≡ false)
IsChosen up drawn (pos i) =
    (i < 6) × (up i ≡ true) × (i ≢ drawn → (up drawn ≡ false) × ((m : ℕ) → m < i → up m ≡ false))

pub choose_lem :
    (up : ℕ → Bool) (drawn : ℕ) (is_up : Bool) (found : Option ℕ)
    → drawn < 6
    → up drawn ≡ is_up
    → FirstAt up 6 0 found
    → IsChosen up drawn (if is_up then pos drawn else index_of found)
choose_lem up drawn true found h e first = (h, e, λ n. absurd (n refl))
choose_lem up drawn false none h e none_up = (refl, λ j k. none_up j (ground arith) k)
choose_lem up drawn false (some i) h e (low, high, is_up, before) =
    (high, is_up, λ n. (e, λ m k. before m (ground arith) k))

-- find_storage_server_port always ends with the server drawn by rand() if it is up, else with the
-- first of the six that is up, and with -1 only where no server is up. Apart from the count of the
-- draws the state is unchanged.
pub find_storage_server_port_lem :
    (net : Network) (s : Server)
    → (i : ℤ) × (find_storage_server_port net s ≡ done i (record s { rands = suc s.rands }))
      × IsChosen s.server_available (net.random s.rands % 6) i
unfolding find_storage_server_port
find_storage_server_port_lem net s =
    let drawn = net.random s.rands % 6 in
    let up = s.server_available in
    (
      _,
      refl,
      choose_lem up drawn (up drawn) (first_index up 6 0) (ground arith) refl
          (first_index_lem up 6 0),
    )
