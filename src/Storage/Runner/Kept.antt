-- ===== src/Storage/Runner/Kept.antt =====
-- What every command of a storage server leaves: its lock, and the directory of the start.
use network_file_system_in_c.Base.{
  Bool, Bool-cases, List, Option, Str, [], false, if◌then◌else◌, inl, inr, is_neg, length, none,
  refl, some, suc, true, zero, ℕ, ◌∙◌, ◌∷◌, ◌≡◌,
}
use network_file_system_in_c.Storage.Disk.{Entry, Files, Place, Try, file, folder}
use network_file_system_in_c.Storage.Machine.{
  Answer, Machine, Peer, S, Sent, World, buffer, chdir_home, chdir_path, exited, faulted, on_files,
  recv_data, returned, send_to, size, then_s, try_files, waiting, ◌>>=◌,
}
use network_file_system_in_c.Storage.Transfer.{
  close_file, dir_buffer, enter_dir, fclose, file_buffer, fwrite, home_with, may_read,
  receive_rounds, send_buffers, send_found, send_kind, show_long,
}

-- A function that returns has left the lock and `home`; one that ends the process has left the lock,
-- and so has one that waits for ever, which is for what a recv does not bring.
abbrev pub After : World → {A : Type 0} → Machine → Answer A → Type 0
After w m (returned a m') = (m'.lock ≡ m.lock) × (m'.home ≡ m.home)
After w m (exited m') = m'.lock ≡ m.lock
After w m (faulted m') = Unit
After w m (waiting m') = (m'.lock ≡ m.lock) × (w.blocks m'.recvs ≡ true)

abbrev pub Keeps : World → {A : Type 0} → S A → Type 0
Keeps w f = (m : Machine) → After w m (f m)

pub then_s-After :
    (w : World)
    → {A : Type 0} {B : Type 0} (m : Machine) (o : Answer A) (k : A → S B) → After w m o
    → ((a : A) → Keeps w (k a))
    → After w m (then_s o k)
then_s-After w {B = B} m (returned a m') k (lock_, home_) next = moved (k a m') (next a m')
  where
    moved : (o : Answer B) → After w m' o → After w m o
    moved (returned b m2) (l, h) = (l ∙ lock_, h ∙ home_)
    moved (exited m2) l = l ∙ lock_
    moved (faulted m2) u = tt
    moved (waiting m2) (l, silent) = (l ∙ lock_, silent)
then_s-After w m (exited m') k l next = l
then_s-After w m (faulted m') k u next = tt
then_s-After w m (waiting m') k stuck_ next = stuck_

pub bind-Keeps :
    (w : World)
    → {A : Type 0} {B : Type 0} (f : S A) (k : A → S B) → Keeps w f
    → ((a : A) → Keeps w (k a))
    → Keeps w (f >>= k)
bind-Keeps w f k kept next m = then_s-After w m (f m) k (kept m) next

pub if-Keeps :
    (w : World)
    → {A : Type 0} (b : Bool) (f g : S A) → Keeps w f
    → Keeps w g
    → Keeps w (if b then f else g)
if-Keeps w true f g kept_f kept_g = kept_f
if-Keeps w false f g kept_f kept_g = kept_g

pub returned-Keeps : (w : World) → {A : Type 0} (a : A) → Keeps w (returned a)
returned-Keeps w a m = (refl, refl)

pub send_to-Keeps : (w : World) → (peer : Peer) (x : Sent) → Keeps w (send_to peer x)
unfolding send_to
send_to-Keeps w peer x m = (refl, refl)

pub on_files-Keeps : (w : World) → (call : Files → ℕ × Files) → Keeps w (on_files call)
unfolding on_files
on_files-Keeps w call m = (refl, refl)

pub try_files-Keeps : (w : World) → (call : Try) → Keeps w (try_files call)
unfolding try_files
try_files-Keeps w call m = (refl, refl)

pub fwrite-Keeps : (w : World) → (at : Option Place) (bytes : Str) → Keeps w (fwrite w at bytes)
unfolding fwrite
fwrite-Keeps w none bytes m = (refl, refl)
fwrite-Keeps w (some p) bytes m = (refl, refl)

fclose-Keeps : (w : World) → (at : Option Place) → Keeps w (fclose w at)
unfolding fclose
fclose-Keeps w none m = (refl, refl)
fclose-Keeps w (some p) m = (refl, refl)

send_buffers-Keeps : (w : World) → (peer : Peer) (ps : List Str) → Keeps w (send_buffers peer ps)
send_buffers-Keeps w peer [] = returned-Keeps w tt
send_buffers-Keeps w peer (p ∷ ps) =
    bind-Keeps w (send_to peer (buffer p)) (λ u. send_buffers peer ps)
      (send_to-Keeps w peer (buffer p)) (λ u. send_buffers-Keeps w peer ps)

module _ (w : World) where
  pub chdir_home-Keeps : Keeps w (chdir_home w)
  unfolding chdir_home try_files
  chdir_home-Keeps m = (refl, refl)

  pub enter_dir-Keeps : (dir : Str) → Keeps w (enter_dir w dir)
  unfolding chdir_path try_files
  enter_dir-Keeps dir =
      bind-Keeps w (chdir_home w) (λ b. chdir_path w dir) chdir_home-Keeps (λ b m. (refl, refl))

  pub recv_data-Keeps : Keeps w (recv_data w)
  unfolding recv_data
  recv_data-Keeps m = elim (Bool-cases (w.blocks m.recvs)) [
    | inl silent ↦ rw silent (refl, silent)
    | inr comes ↦ rw comes (refl, refl)
  ]

  pub home_with-Keeps : {A : Type 0} (a : A) → Keeps w (home_with w a)
  home_with-Keeps a =
      bind-Keeps w (chdir_home w) (λ b. returned a) chdir_home-Keeps (λ b. returned-Keeps w a)

  pub send_found-Keeps :
      (peer : Peer) (at : Option Place) (found : Option Entry)
      → Keeps w (send_found w peer at found)
  unfolding send_found
  send_found-Keeps peer at none = returned-Keeps w tt
  send_found-Keeps peer at (some folder) =
      bind-Keeps w _ (λ u. home_with w tt)
        (bind-Keeps w _ (λ u. send_to peer (buffer dir_buffer))
          (send_to-Keeps w peer (size (show_long 1)))
          (λ u. send_to-Keeps w peer (buffer dir_buffer)))
        (λ u. home_with-Keeps tt)
  send_found-Keeps peer at (some (file bytes)) =
      if-Keeps w (may_read w at) _ (returned tt)
        (bind-Keeps w _ (λ u. home_with w tt)
          (bind-Keeps w _ (λ u. send_buffers peer _)
            (send_to-Keeps w peer (size (show_long (length bytes))))
            (λ u. send_buffers-Keeps w peer _))
          (λ u. home_with-Keeps tt))
        (returned-Keeps w tt)

  pub send_kind-Keeps :
      (peer : Peer) (at : Option Place) (found : Option Entry) → Keeps w (send_kind w peer at found)
  unfolding send_kind
  send_kind-Keeps peer at none = returned-Keeps w tt
  send_kind-Keeps peer at (some folder) =
      bind-Keeps w _ (λ u. home_with w tt)
        (bind-Keeps w _ (λ u. send_to peer (buffer dir_buffer))
          (send_to-Keeps w peer (size (show_long 1)))
          (λ u. send_to-Keeps w peer (buffer dir_buffer)))
        (λ u. home_with-Keeps tt)
  send_kind-Keeps peer at (some (file bytes)) =
      if-Keeps w (may_read w at) _ (returned tt)
        (bind-Keeps w _ (λ u. home_with w tt)
          (bind-Keeps w _ (λ u. send_to peer (buffer file_buffer))
            (send_to-Keeps w peer (size (show_long (length bytes))))
            (λ u. send_to-Keeps w peer (buffer file_buffer)))
          (λ u. home_with-Keeps tt))
        (returned-Keeps w tt)

  pub close_file-Keeps : (at : Option Place) → Keeps w (close_file w at)
  unfolding close_file
  close_file-Keeps at = bind-Keeps w (fclose w at) _ (fclose-Keeps w at) (λ closed.
      if-Keeps w closed (home_with w 1) (returned 0) (home_with-Keeps 1)
        (returned-Keeps w {A = ℕ} 0))

  pub receive_rounds-Keeps : (at : Option Place) (k : ℕ) → Keeps w (receive_rounds w at k)
  unfolding receive_rounds
  receive_rounds-Keeps at zero = returned-Keeps w true
  receive_rounds-Keeps at (suc k) = bind-Keeps w (recv_data w) _ recv_data-Keeps (λ r.
      if-Keeps w (is_neg r.count) (returned false) _ (returned-Keeps w false) (
        bind-Keeps w (fwrite w at _) _ (fwrite-Keeps w at _) (λ went.
          if-Keeps w went (receive_rounds w at k) (returned false) (receive_rounds-Keeps at k)
            (returned-Keeps w false))))

  -- A function that works in a folder on a path, and what it does with what it finds there.
  pub in_dir-Keeps :
      {A B : Type 0} (dir : Str) (f : S A) (k : A → S B)
      → Keeps w f
      → ((a : A) → Keeps w (k a))
      → Keeps w (enter_dir w dir >>= λ b. f >>= k)
  in_dir-Keeps dir f k kept next =
      bind-Keeps w (enter_dir w dir) _ (enter_dir-Keeps dir) (λ b. bind-Keeps w f k kept next)
