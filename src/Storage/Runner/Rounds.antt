-- ===== src/Storage/Runner/Rounds.antt =====
-- The rounds of NM_runner and of C_runner: the lock and the current directory.
use network_file_system_in_c.Base.{
  Bool-cases, arith, codes, false, if◌then◌else◌, inl, inr, is_neg, is_pos, not, pos_ne_zero, refl,
  subst, suc, true, ◌&&◌, ◌-◌, ◌<◌, ◌∙◌, ◌≡◌, ◌⊎◌,
}
use network_file_system_in_c.Storage.Disk.{enter, entry_at, is_folder}
use network_file_system_in_c.Storage.Machine.{
  Answer, Machine, S, World, chdir_home, exited, faulted, next_command, post_lock, returned, then_s,
  try_files, wait_lock, waiting, ◌>>=◌,
}
use network_file_system_in_c.Storage.Runner.{c_round, nm_round, order_of, run_command, run_request}
use network_file_system_in_c.Storage.Runner.Kept.{After, enter_dir-Keeps, if-Keeps, returned-Keeps}
use network_file_system_in_c.Storage.Runner.Served.{run_order-Keeps, run_request-Keeps}
use network_file_system_in_c.Storage.Transfer.{enter_dir}

-- A round that returns has given the lock back and left `home`; one that ends the process still holds
-- the lock, and so does one that waits for ever, which is for what a recv does not bring.
abbrev pub AfterRound : World → Machine → Answer (Unit {0}) → Type 0
AfterRound w m (returned u m') = (m'.lock ≡ m.lock) × (m'.home ≡ m.home)
AfterRound w m (exited m') = m'.lock ≡ m.lock - 1
AfterRound w m (faulted m') = Unit
AfterRound w m (waiting m') = (m'.lock ≡ m.lock - 1) × (w.blocks m'.recvs ≡ true)

-- The current directory is that of the start, unless that one is no folder any more or is refused.
abbrev pub IsHome : World → Machine → Answer (Unit {0}) → Type 0
IsHome w m (returned u m') =
    (m'.files.cwd ≡ m.home)
    ⊎ ((is_folder (entry_at m'.files.disk m.home) && w.allows m.home) ≡ false)
IsHome w m (exited m') = Unit
IsHome w m (faulted m') = Unit
IsHome w m (waiting m') = Unit

-- What holds inside, while the lock is held.
abbrev Held : Machine → Machine → Type 0
Held m m' = (m'.lock ≡ m.lock - 1) × (m'.home ≡ m.home)

abbrev Goal : World → Machine → Answer (Unit {0}) → Type 0
Goal w m o = AfterRound w m o × IsHome w m o

while_locked :
    {A : Type 0} (w : World) (m m1 : Machine) (o : Answer A) (k : A → S (Unit {0}))
    → Held m m1
    → After w m1 o
    → ((a : A) (m' : Machine) → Held m m' → Goal w m (k a m'))
    → Goal w m (then_s o k)
while_locked w m m1 (returned a m') k (l, h) (l', h') go_on = go_on a m' (l' ∙ l, h' ∙ h)
while_locked w m m1 (exited m') k (l, h) l' go_on = (l' ∙ l, tt)
while_locked w m m1 (faulted m') k inside u go_on = (tt, tt)
while_locked w m m1 (waiting m') k (l, h) (l', silent) go_on = ((l' ∙ l, silent), tt)

home_at_end :
    (w : World) (m m' : Machine)
    → 0 < m.lock
    → Held m m'
    → Goal w m ((chdir_home w >>= λ b. post_lock) m')
unfolding chdir_home try_files enter post_lock
home_at_end w m m' free (l, h) =
    elim (Bool-cases (is_folder (entry_at m'.files.disk m'.home) && w.allows m'.home)) [
      | inl c ↦ rw c ((omega (arith, l, free), h), inl h)
      | inr c ↦ rw c (
        (omega (arith, l, free), h),
        inr (subst (λ q. (is_folder (entry_at m'.files.disk q) && w.allows q) ≡ false) h c),
      )
    ]

-- A round of NM_runner to which a command has come, whatever it is, and that finds the lock free. If it
-- returns, the lock is given back, and the current directory is the one of the start, unless that one
-- is no folder any more or the system refuses it. If it ends the process, it still holds the lock. If
-- it waits for ever, then for what a recv does not bring, and it still holds the lock. Nothing is said
-- of undefined behaviour.
pub nm_round_lem :
    (w : World) (m : Machine)
    → 0 < m.lock
    → AfterRound w m (nm_round w m) × IsHome w m (nm_round w m)
unfolding nm_round next_command wait_lock
nm_round_lem w m free =
    let (r, c) = w.recv_command m.commands in
    let m1 : Machine = record m { lock = m.lock - 1; commands = suc m.commands } in
    rw (pos_ne_zero m.lock free) (elim (Bool-cases (not (is_pos r))) [
      | inl gone ↦ rw gone (refl, tt)
      | inr came ↦ rw came (
          while_locked w m m1 (enter_dir w (codes "main") m1) _ (refl, refl)
            (enter_dir-Keeps w (codes "main") m1)
            (λ b m2 inside.
              while_locked w m m2 (run_command w c m2) _ inside
                (run_order-Keeps w (order_of c.operation) c m2)
                (λ u m3 inside'. home_at_end w m m3 free inside')))
    ])

-- The same lock in a round of C_runner, with a command that has not come included.
pub c_round_lem : (w : World) (m : Machine) → 0 < m.lock → AfterRound w m (c_round w m)
unfolding c_round next_command wait_lock post_lock
c_round_lem w m free =
    let (r, c) = w.recv_command m.commands in
    let m1 : Machine = record m { lock = m.lock - 1; commands = suc m.commands } in
    rw (pos_ne_zero m.lock free) (
      posted ((if is_neg r then returned tt else run_request w c) m1) (
        if-Keeps w (is_neg r) (returned tt) (run_request w c) (returned-Keeps w tt)
          (run_request-Keeps w c) m1))
  where
    posted :
        (o : Answer (Unit {0}))
        → After w (record m { lock = m.lock - 1; commands = suc m.commands }) o
        → AfterRound w m (then_s o (λ u. post_lock))
    posted (returned u m') (l, h) = (omega (arith, l, free), h)
    posted (exited m') l = l
    posted (faulted m') u = tt
    posted (waiting m') left = left
