-- ===== src/Lru/Heap.antt =====
-- Runs over the heap: a result, a fault (NULL or a freed node is dereferenced), or a loop whose
-- fuel has run out.
use network_file_system_in_c.Base.{ℕ}

pub data Run {ℓ} (A : Type ℓ) : Type ℓ where
  ok : A → Run A
  fault : Run A
  out_of_fuel : Run A

infixl 5 ◌>>=◌
abbrev pub ◌>>=◌ {ℓ κ} : {A : Type ℓ} {B : Type κ} → Run A → (A → Run B) → Run B
ok a >>= f = f a
fault >>= f = fault
out_of_fuel >>= f = out_of_fuel

abbrev pub Ptr : Type 0
Ptr = ℕ

abbrev pub null : Ptr
null = 0
