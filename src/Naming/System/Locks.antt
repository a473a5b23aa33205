-- ===== src/Naming/System/Locks.antt =====
-- The locks of the threads: what a round gives back, and what it does not.
use network_file_system_in_c.Base.{
  Bool, ap, arith, if◌then◌else◌, ltb-true, pos_ne_zero, refl, subst, sym, true, ℕ, ◌+◌, ◌-◌, ◌<◌,
  ◌==◌, ◌||◌, ◌∙◌, ◌≡◌, ◌≢◌,
}
use network_file_system_in_c.Lru.{update}
use network_file_system_in_c.Naming.Copies.{Copies, mirrors_of, mirrors_of-lt}
use network_file_system_in_c.Naming.Dispatch.{post_red}
use network_file_system_in_c.Naming.Kept.Mirror.{MirrorEnds, Mirrored, SomeRecvBlocks, mirror-Keeps}
use network_file_system_in_c.Naming.Redundancy.{mirror, redundant_round, release_all, wait_red}
use network_file_system_in_c.Naming.State.{
  Network, Outcome, Server, and_then, done, post_server, stuck, undefined,
}
use network_file_system_in_c.Naming.State.Steps.{step, taken, wait_server_lem}

-- A semaphore that is taken from three servers.
abbrev pub taken_thrice : ℕ → Copies → (ℕ → ℕ) → ℕ → ℕ
taken_thrice i k f j = if (j == i) || (j == k.index1) || (j == k.index2) then f j - 1 else f j

-- What a round of redundant_copy of server `i` leaves, and what it holds where it waits for ever.
abbrev pub GivenBack : Network → ℕ → Server → Outcome Bool → Type 0
GivenBack net i s (done b s') =
    (s'.red_lock ≡ s.red_lock) × ((j : ℕ) → s'.block_server j ≡ s.block_server j)
GivenBack net i s (undefined s') = Unit
GivenBack net i s (stuck s') =
    SomeRecvBlocks net
    × (s'.red_lock ≡ s.red_lock - 1)
    × ((j : ℕ) → s'.block_server j ≡ taken_thrice i (mirrors_of i) s.block_server j)

-- A semaphore that is waited for, and one that is given back.
abbrev down : ℕ → (ℕ → ℕ) → ℕ → ℕ
down i f = update f i (f i - 1)

abbrev up : ℕ → (ℕ → ℕ) → ℕ → ℕ
up i f = update f i (f i + 1)

abbrev one_if : Bool → ℕ
one_if b = if b then 1 else 0

down_lem : (i : ℕ) (f : ℕ → ℕ) (j : ℕ) → down i f j ≡ f j - one_if (i == j)
down_lem i f j = ground arith

up_lem : (i : ℕ) (f : ℕ → ℕ) (j : ℕ) → up i f j ≡ f j + one_if (i == j)
up_lem i f j = ground arith

balanced :
    (f : ℕ → ℕ) (a b c j : ℕ)
    → a ≢ b
    → a ≢ c
    → b ≢ c
    → 0 < f a
    → 0 < f b
    → 0 < f c
    → f j
        - one_if (a == j)
        - one_if (b == j)
        - one_if (c == j)
        + one_if (c == j)
        + one_if (a == j)
        + one_if (b == j)
      ≡ f j
balanced f a b c j ab ac bc fa fb fc = ground arith

three_back :
    (f : ℕ → ℕ) (a b c j : ℕ)
    → a ≢ b
    → a ≢ c
    → b ≢ c
    → 0 < f a
    → 0 < f b
    → 0 < f c
    → up b (up a (up c (down c (down b (down a f))))) j ≡ f j
three_back f a b c j ab ac bc fa fb fc =
    let f1 : ℕ → ℕ = down a f in
    let f2 : ℕ → ℕ = down b f1 in
    let f3 : ℕ → ℕ = down c f2 in
    let f4 : ℕ → ℕ = up c f3 in
    up_lem b (up a f4) j
    ∙ ap (λ n. n + one_if (b == j))
        (up_lem a f4 j
          ∙ ap (λ n. n + one_if (a == j))
              (up_lem c f3 j
                ∙ ap (λ n. n + one_if (c == j))
                    (down_lem c f2 j
                      ∙ ap (λ n. n - one_if (c == j))
                          (down_lem b f1 j ∙ ap (λ n. n - one_if (b == j)) (down_lem a f j)))))
    ∙ balanced f a b c j ab ac bc fa fb fc

three_taken :
    (f : ℕ → ℕ) (i : ℕ) (k : Copies) (j : ℕ)
    → k.index1 ≢ i
    → k.index2 ≢ i
    → k.index1 ≢ k.index2
    → down i (down k.index2 (down k.index1 f)) j ≡ taken_thrice i k f j
three_taken f i k j ne1 ne2 ne12 = ground arith

wait_red_lem :
    (s : Server) → 0 < s.red_lock → wait_red s ≡ done tt (record s { red_lock = s.red_lock - 1 })
unfolding wait_red
wait_red_lem s free = rw (pos_ne_zero s.red_lock free) refl

still_free : (f : ℕ → ℕ) (a b : ℕ) → a ≢ b → 0 < f b → 0 < down a f b
still_free f a b ne free = ground arith

-- The end of a round, after what is done under the locks.
released_lem :
    (net : Network) (i : ℕ) (k : Copies) (f : ℕ → ℕ) (s s' : Server)
    → i < 6
    → k.index1 < 6
    → k.index2 < 6
    → s'.block_server ≡ down i (down k.index2 (down k.index1 f))
    → ((j : ℕ)
        → up k.index2 (up k.index1 (up i (down i (down k.index2 (down k.index1 f))))) j ≡ f j)
    → 0 < s.red_lock
    → s'.red_lock ≡ s.red_lock - 1
    → ((j : ℕ) → f j ≡ s.block_server j)
    → GivenBack net i s (release_all i k s')
unfolding release_all post_server post_red
released_lem net i k f s s' h lt1 lt2 same all red same_red before = rw (ltb-true i 6 h) (
    rw (ltb-true k.index1 6 lt1) (
      rw (ltb-true k.index2 6 lt2) (
        omega (arith, red, same_red),
        λ j. ap (λ g. up k.index2 (up k.index1 (up i g)) j) same ∙ all j ∙ before j,
      )))

-- A round of redundant_copy of a server that is up, with red_lock and all the servers free. If it
-- returns, then red_lock and the semaphores of all servers are as before. If it waits for ever, then
-- for what a recv does not bring, and it holds red_lock and the semaphores of the server and of the
-- two servers of its copies, and no other one. Nothing is said of undefined behaviour.
pub redundant_round_lem :
    (net : Network) (i : ℕ) (s : Server)
    → i < 6
    → s.server_available i ≡ true
    → 0 < s.red_lock
    → ((j : ℕ) → j < 6 → 0 < s.block_server j)
    → GivenBack net i s (redundant_round net i s)
unfolding redundant_round
redundant_round_lem net i s h there red free =
    let k = mirrors_of i in
    let (lt1, lt2, ne1, ne2, ne12) = mirrors_of-lt i h in
    let f = s.block_server in
    let s1 : Server = record s { red_lock = s.red_lock - 1 } in
    let s2 = taken k.index1 s1 in
    let s3 = taken k.index2 s2 in
    let s4 = taken i s3 in
    let free2 = still_free f k.index1 k.index2 ne12 (free k.index2 lt2) in
    let free3 =
      still_free (down k.index1 f) k.index2 i ne2 (still_free f k.index1 i ne1 (free i h)) in
    let back = λ (j : ℕ).
      three_back f k.index1 k.index2 i j ne12 ne1 ne2 (free k.index1 lt1) (free k.index2 lt2)
        (free i h) in
    rw there (
      subst (GivenBack net i s)
        (sym (
          step _ (wait_red_lem s red) (
            step _ (wait_server_lem k.index1 s1 lt1 (free k.index1 lt1)) (
              step _ (wait_server_lem k.index2 s2 lt2 free2)
                (step _ (wait_server_lem i s3 h free3) refl)))))
        (go (mirror net i k s4) (mirror-Keeps net i k s4) lt1 lt2 back))
  where
    go :
        (o : Outcome (Unit {0}))
        → MirrorEnds net
            (taken i (
              taken
                (mirrors_of i).index2
                (taken (mirrors_of i).index1 (record s { red_lock = s.red_lock - 1 }))))
            o
        → (mirrors_of i).index1 < 6
        → (mirrors_of i).index2 < 6
        → ((j : ℕ)
            → up
                (mirrors_of i).index2
                (up (mirrors_of i).index1 (
                  up i (
                    down i
                      (down (mirrors_of i).index2 (down (mirrors_of i).index1 s.block_server)))))
                j
              ≡ s.block_server j)
        → GivenBack net i s (and_then o (λ u. release_all i (mirrors_of i)))
    go (done u s') m lt1 lt2 back =
        let k : Mirrored
            (taken i (
              taken (mirrors_of i).index2
                (taken (mirrors_of i).index1 (record s { red_lock = s.red_lock - 1 }))))
            s' =
          m in
        released_lem net i (mirrors_of i) s.block_server s s' h lt1 lt2 k.servers back red
          k.handled.red (λ j. refl)
    go (undefined s') m lt1 lt2 back = tt
    go (stuck s') m lt1 lt2 back =
        let k : Mirrored
            (taken i (
              taken (mirrors_of i).index2
                (taken (mirrors_of i).index1 (record s { red_lock = s.red_lock - 1 }))))
            s' =
          m.0 in
        let (lt1', lt2', ne1, ne2, ne12) = mirrors_of-lt i h in
        (
          m.1,
          k.handled.red,
          λ j. ap (λ f. f j) k.servers ∙ three_taken s.block_server i (mirrors_of i) j ne1 ne2 ne12,
        )
