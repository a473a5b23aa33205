-- ===== src/Queue/Fifo.antt =====
-- The list that a queue holds (queue.c).
use network_file_system_in_c.Base.{
  ==_iff, >>=-some, List, Option, [], ap, arith, drop, eq_of_some, false, get_elem?, if_false,
  if_true, if◌then◌else◌, length, length-append, refl, some, subst, suc, sym, true, ℕ, ◌++◌, ◌+◌,
  ◌-◌, ◌<◌, ◌==◌, ◌∙◌, ◌∷◌, ◌≡◌,
}
use network_file_system_in_c.Queue.{
  Element, QueueHead, init_queue, init_queue_element, pop, push, write,
}

module _ {ℓ} {A : Type ℓ} where
  -- The elements from `p` to `t` hold the list; addresses grow along it.
  unfoldable pub Chain : (ℕ → Option (Element A)) → ℕ → ℕ → List A → Type ℓ
  Chain elements p t [] = Unit
  Chain elements p t (x ∷ []) =
      (p ≡ t) × (0 < p) × (elements p ≡ some (record { curr = x; next = 0 }))
  Chain elements p t (x ∷ y ∷ xs) =
      (r : ℕ) × (0 < p)
      × (p < r)
      × (p < t)
      × (elements p ≡ some (record { curr = x; next = r }))
      × Chain elements r t (y ∷ xs)

  pub record Queued (q : QueueHead A) (xs : List A) : Type ℓ where
    pub count : q.count ≡ length xs
    pub below : q.tail < q.fresh
    pub chain : Chain q.elements q.head q.tail xs

  pub init_queue-Queued : Queued (init_queue {A = A}) []
  unfolding init_queue Chain
  init_queue-Queued = record { count = refl; below = ground arith; chain = tt }

  -- Appending an element at a fresh address behind the tail.
  pub Chain-last :
      (elements : ℕ → Option (Element A)) (p t : ℕ) (x : A) (xs : List A)
      → Chain elements p t (x ∷ xs)
      → (z : A) × (0 < t) × (elements t ≡ some (record { curr = z; next = 0 }))
  unfolding Chain
  Chain-last elements p t x [] (e, low, at) = (
    x,
    subst (λ n. 0 < n) e low,
    subst (λ n. elements n ≡ some (record { curr = x; next = 0 })) e at,
  )
  Chain-last elements p t x (y ∷ xs) (r, low, up, below, at, rest) =
      Chain-last elements r t y xs rest

  pub write_self :
      (elements : ℕ → Option (Element A)) (p q : ℕ) (e : Element A)
      → p ≡ q
      → write p e elements q ≡ some e
  write_self elements p q e h = ap (λ b. if b then some e else elements q) ((==_iff p q).1 h)

  pub write_other :
      (elements : ℕ → Option (Element A)) (p q : ℕ) (e : Element A)
      → (p == q) ≡ false
      → write p e elements q ≡ elements q
  write_other elements p q e h = ap (λ b. if b then some e else elements q) h

  pub Chain-snoc :
      (elements : ℕ → Option (Element A)) (p t f : ℕ) (x v z : A) (xs : List A)
      → t < f
      → elements t ≡ some (record { curr = z; next = 0 })
      → Chain elements p t (x ∷ xs)
      → Chain
          (write t
            (record { curr = z; next = f })
            (write f (record { curr = v; next = 0 }) elements))
          p
          f
          ((x ∷ xs) ++ v ∷ [])
  unfolding Chain
  Chain-snoc elements p t f x v z [] h last (e, low, at) =
      let same : z ≡ x = ap (λ r. r.curr) (eq_of_some (sym last ∙ ap elements (sym e) ∙ at)) in
      let old = write f (record { curr = v; next = 0 }) elements in
      (
        f,
        low,
        omega arith,
        omega arith,
        write_self old t p (record { curr = z; next = f }) (sym e)
            ∙ ap (λ c. some (record { curr = c; next = f })) same,
        (
          refl,
          omega arith,
          write_other old t f (record { curr = z; next = f }) (ground arith)
              ∙ write_self elements f f (record { curr = v; next = 0 }) refl,
        ),
      )
  Chain-snoc elements p t f x v z (y ∷ xs) h last (r, low, up, below, at, rest) =
      let old = write f (record { curr = v; next = 0 }) elements in
      (
        r,
        low,
        up,
        omega arith,
        write_other old t p (record { curr = z; next = f }) (ground arith)
            ∙ write_other elements f p (record { curr = v; next = 0 }) (ground arith)
            ∙ at,
        Chain-snoc elements r t f y v z xs h last rest,
      )

  -- A push into a queue that holds a list ends, and the queue then holds the list with the command at
  -- its end.
  pub push-Queued :
      (q : QueueHead A) (xs : List A) (v : A)
      → Queued q xs
      → (q' : QueueHead A) × (push q v ≡ some q') × Queued q' (xs ++ v ∷ [])
  unfolding push init_queue_element Chain
  push-Queued q [] v h =
      let empty : (q.count == 0) ≡ true = ground (arith, h.count) in
      let q' : QueueHead A = record {
        count = q.count + 1;
        head = q.fresh;
        tail = q.fresh;
        elements = write q.fresh (record { curr = v; next = 0 }) q.elements;
        fresh = suc q.fresh;
      } in
      (
        q',
        if_true _ _ empty,
        record {
          count = omega (arith, h.count);
          below = omega arith;
          chain = (
            refl,
            omega (arith, h.below),
            write_self q.elements q.fresh q.fresh (record { curr = v; next = 0 }) refl,
          );
        },
      )
  push-Queued q (x ∷ xs) v h =
      let (z, low, last) = Chain-last q.elements q.head q.tail x xs h.chain in
      let old = write q.fresh (record { curr = v; next = 0 }) q.elements in
      let q' : QueueHead A = record {
        count = q.count + 1;
        head = q.head;
        tail = q.fresh;
        elements = write q.tail (record { curr = z; next = q.fresh }) old;
        fresh = suc q.fresh;
      } in
      let some_there : (q.count == 0) ≡ false = ground (arith, h.count) in
      let not_null : (q.tail == 0) ≡ false = ground arith in
      let other : (q.fresh == q.tail) ≡ false = ground (arith, h.below) in
      (
        q',
        if_false _ _ some_there
            ∙ >>=-some _ _
                (if_false _ _ not_null
                  ∙ write_other q.elements q.fresh q.tail (record { curr = v; next = 0 }) other
                  ∙ last)
                refl,
        record {
          count = omega (arith, h.count, length-append xs (v ∷ []));
          below = omega arith;
          chain = Chain-snoc q.elements q.head q.tail q.fresh x v z xs h.below last h.chain;
        },
      )

  -- A pop from a queue that holds a list ends. It returns NULL and leaves the queue as it is if the
  -- list is empty; otherwise it returns the first command, and the queue then holds the rest.
  pub pop-Queued :
      (q : QueueHead A) (xs : List A)
      → Queued q xs
      → (q' : QueueHead A) × (pop q ≡ some (get_elem? xs 0, q')) × Queued q' (drop 1 xs)
  unfolding pop Chain
  pop-Queued q [] h =
      let empty : (q.count == 0) ≡ true = ground (arith, h.count) in (q, if_true _ _ empty, h)
  pop-Queued q (x ∷ []) h =
      let q' : QueueHead A = record q { count = 0; head = 0; tail = 0 } in
      let some_there : (q.count == 0) ≡ false = ground (arith, h.count) in
      let single : (q.count == 1) ≡ true = ground (arith, h.count) in
      let not_null : (q.head == 0) ≡ false = ground (arith, h.chain.1) in
      (
        q',
        if_false _ _ some_there
            ∙ >>=-some _ _ (if_false _ _ not_null ∙ h.chain.2) (if_true _ _ single),
        record { count = refl; below = omega (arith, h.below); chain = tt },
      )
  pop-Queued q (x ∷ y ∷ xs) h =
      let (r, low, _, _, at, rest) = h.chain in
      let q' : QueueHead A = record q { count = q.count - 1; head = r } in
      let some_there : (q.count == 0) ≡ false = ground (arith, h.count) in
      let several : (q.count == 1) ≡ false = ground (arith, h.count) in
      let not_null : (q.head == 0) ≡ false = ground arith in
      (
        q',
        if_false _ _ some_there ∙ >>=-some _ _ (if_false _ _ not_null ∙ at) (if_false _ _ several),
        record { count = omega (arith, h.count); below = h.below; chain = rest },
      )
