-- ===== src/Queue.antt =====
-- queue.c and queue.h: a queue of commands as a linked list with a tail pointer, on a heap of its own
-- elements. An address is a number and 0 is NULL; `none` is NULL or a stray address dereferenced.
pub mod Fifo
use network_file_system_in_c.Base.{
  Bool, Option, if◌then◌else◌, none, some, suc, ℕ, ◌+◌, ◌-◌, ◌==◌, ◌>>=◌,
}

-- struct QUEUE
pub record Element {ℓ} (A : Type ℓ) : Type ℓ where
  pub curr : A
  pub next : ℕ

-- struct QUEUE_HEAD, with the heap and the address that the next malloc returns.
pub record QueueHead {ℓ} (A : Type ℓ) : Type ℓ where
  pub count : ℕ
  pub head : ℕ
  pub tail : ℕ
  pub elements : ℕ → Option (Element A)
  pub fresh : ℕ

module _ {ℓ} {A : Type ℓ} where
  unfoldable pub init_queue : QueueHead A
  init_queue = record { count = 0; head = 0; tail = 0; elements = λ p. none; fresh = 1 }

  abbrev pub write : ℕ → Element A → (ℕ → Option (Element A)) → ℕ → Option (Element A)
  write p e elements q = if p == q then some e else elements q

  -- The element's address is the old `fresh`.
  unfoldable pub init_queue_element : A → QueueHead A → QueueHead A
  init_queue_element new_command q = record q {
    elements = write q.fresh (record { curr = new_command; next = 0 }) q.elements;
    fresh = suc q.fresh;
  }

  abbrev pub load_element : ℕ → QueueHead A → Option (Element A)
  load_element p q = if p == 0 then none else q.elements p

  unfoldable pub push : QueueHead A → A → Option (QueueHead A)
  push q new_command =
      let temp = q.fresh in
      let q1 = init_queue_element new_command q in
      if q.count == 0
      then some (record q1 { count = q.count + 1; head = temp; tail = temp })
      else (do
        last ← load_element q1.tail q1
        some (record q1 {
          count = q.count + 1;
          elements = write q1.tail (record last { next = temp }) q1.elements;
          tail = temp;
        }))

  -- The command, or NULL from an empty queue.
  unfoldable pub pop : QueueHead A → Option (Option A × QueueHead A)
  pop q = if q.count == 0 then some (none, q) else (do
    first ← load_element q.head q
    if q.count == 1
        then some (some first.curr, record q { count = 0; head = 0; tail = 0 })
        else some (some first.curr, record q { count = q.count - 1; head = first.next }))

  unfoldable pub is_empty : QueueHead A → Bool
  is_empty q = q.count == 0
