-- ===== src/Naming/Kept/Mirror.antt =====
-- What redundant_copy does while it holds its locks: the trie and all locks stay.
use network_file_system_in_c.Base.{
  Bool, Bool-cases, List, Option, Str, [], codes, false, if◌then◌else◌, inl, inr, is_empty_str,
  is_neg, none, pos, refl, some, str_eq, suc, true, zero, ℕ, ◌∙◌, ◌∷◌, ◌≡◌,
}
use network_file_system_in_c.Naming.Copies.{Copies}
use network_file_system_in_c.Naming.Kept.{IsOrder}
use network_file_system_in_c.Naming.Kept.Primitives.{Handled, Handled-IsOrder, send-Keeps, still}
use network_file_system_in_c.Naming.Redundancy.{
  ask_kind, clear_copy, is_up, list_main, list_of, make_both, mirror, mirror_chunk, mirror_chunks,
  mirror_entries, mirror_entry, mirror_text, red_command, tell, text_of,
}
use network_file_system_in_c.Naming.State.{
  Command, M, Message, Network, Outcome, Server, and_then, chunk, command, done, lift_option, pure,
  recv, send, stuck, undefined, ◌>>=◌, ◌>>◌,
}
use network_file_system_in_c.Tries.Listing.{TrieContent}
use network_file_system_in_c.Tries.Node.{init_tries}
use network_file_system_in_c.Tries.Register.{copied_fn, tokenize_and_print}

-- The semaphores of the storage servers do not change either.
pub record Mirrored (s s' : Server) : Type 0 where
  pub handled : Handled s s'
  pub servers : s'.block_server ≡ s.block_server

pub Mirrored-IsOrder : IsOrder Mirrored
Mirrored-IsOrder = record {
  same = λ s. record { handled = Handled-IsOrder.same s; servers = refl };
  chain = λ {s} {t} {u} a b. record {
    handled = Handled-IsOrder.chain a.handled b.handled;
    servers = b.servers ∙ a.servers;
  };
}

-- A recv that never returns.
abbrev pub SomeRecvBlocks : Network → Type 0
SomeRecvBlocks net = (n : ℕ) × (net.blocks n ≡ true)

module _ (net : Network) where
  -- It waits for nothing but what a recv brings.
  abbrev pub MirrorEnds : {A : Type 0} → Server → Outcome A → Type 0
  MirrorEnds s (done a s') = Mirrored s s'
  MirrorEnds s (undefined s') = Unit
  MirrorEnds s (stuck s') = Mirrored s s' × SomeRecvBlocks net

  abbrev pub MirrorKeeps : {A : Type 0} → M A → Type 0
  MirrorKeeps f = (s : Server) → MirrorEnds s (f s)

  then_ends :
      {A B : Type 0} (s : Server) (o : Outcome A) (k : A → M B)
      → MirrorEnds s o
      → ((a : A) → MirrorKeeps (k a))
      → MirrorEnds s (and_then o k)
  then_ends {B = B} s (done a s') k before more = onwards (k a s') (more a s')
    where
      onwards : (o : Outcome B) → MirrorEnds s' o → MirrorEnds s o
      onwards (done b s2) after = Mirrored-IsOrder.chain before after
      onwards (undefined s2) after = tt
      onwards (stuck s2) after = (Mirrored-IsOrder.chain before after.0, after.1)
  then_ends s (undefined s') k before more = tt
  then_ends s (stuck s') k before more = before

  then_do :
      {A B : Type 0} (f : M A) (k : A → M B)
      → MirrorKeeps f
      → ((a : A) → MirrorKeeps (k a))
      → MirrorKeeps (f >>= k)
  then_do f k kept more s = then_ends s (f s) k (kept s) more

  either :
      {A : Type 0} (b : Bool) (f g : M A)
      → MirrorKeeps f
      → MirrorKeeps g
      → MirrorKeeps (if b then f else g)
  either true f g kept_f kept_g = kept_f
  either false f g kept_f kept_g = kept_g

  idle : {A : Type 0} (a : A) → MirrorKeeps (pure a)
  idle a s = Mirrored-IsOrder.same s

  taken_from : {A : Type 0} (o : Option A) → MirrorKeeps (lift_option o)
  taken_from none s = tt
  taken_from (some a) s = Mirrored-IsOrder.same s

  is_up-Keeps : (i : ℕ) → MirrorKeeps (is_up i)
  is_up-Keeps i s = Mirrored-IsOrder.same s

  sending : (m : Message) → MirrorKeeps (send net m)
  unfolding send
  sending m s = record { handled = send-Keeps net m s; servers = refl }

  receiving : MirrorKeeps (recv net)
  unfolding recv
  receiving s = elim (Bool-cases (net.blocks s.recvs)) [
    | inl silent ↦ rw silent (Mirrored-IsOrder.same s, (s.recvs, silent))
    | inr comes ↦ rw comes (record { handled = still s _ _ _ _ _ _ _ _ _ _; servers = refl })
  ]

  tell-Keeps : (i : ℕ) (c : Command) → MirrorKeeps (tell net i c)
  tell-Keeps i c =
      then_do (send net (command i c)) (λ s. pure tt) (sending (command i c)) (λ s. idle tt)

  clear_copy-Keeps : (i : ℕ) (copy : Str) → MirrorKeeps (clear_copy net i copy)
  unfolding clear_copy
  clear_copy-Keeps i copy = then_do (is_up i) _ (is_up-Keeps i) (λ up.
      either up (tell net i (red_command (codes "deletereddir") copy [])) (pure tt)
        (tell-Keeps i (red_command (codes "deletereddir") copy [])) (idle tt))

  listed_paths-Keeps :
      (i : ℕ)
      → MirrorKeeps (do
        tell net i (red_command (codes "getMain") [] [])
        r ← recv net
        text ← lift_option (list_of r)
        lift_option (tokenize_and_print init_tries text 10 (pos i)))
  listed_paths-Keeps i =
      then_do (tell net i (red_command (codes "getMain") [] [])) _
        (tell-Keeps i (red_command (codes "getMain") [] []))
        (λ u. then_do (recv net) _ receiving (λ r.
          then_do (lift_option (list_of r)) _ (taken_from (list_of r))
            (λ text. taken_from (tokenize_and_print init_tries text 10 (pos i)))))

  list_main-Keeps : (i : ℕ) → MirrorKeeps (list_main net i)
  unfolding list_main
  list_main-Keeps i = then_do (is_up i) _ (is_up-Keeps i) (λ up.
      either up
        (do
          tell net i (red_command (codes "getMain") [] [])
          r ← recv net
          text ← lift_option (list_of r)
          lift_option (tokenize_and_print init_tries text 10 (pos i)))
        (pure init_tries) (listed_paths-Keeps i) (idle init_tries))

  mirror_chunk-Keeps : (k : Copies) (path : Str) → MirrorKeeps (mirror_chunk net k path)
  unfolding mirror_chunk
  mirror_chunk-Keeps k path = then_do (recv net) _ receiving (λ r.
      then_do (lift_option (text_of r)) _ (taken_from (text_of r)) (λ text.
        then_do (tell net k.index1 _) _ (tell-Keeps k.index1 _) (λ u.
          then_do (tell net k.index2 _) _ (tell-Keeps k.index2 _) (λ u.
            then_do (send net (chunk k.index1 text)) _ (sending _)
              (λ s. then_do (send net (chunk k.index2 text)) _ (sending _) (λ s. idle tt))))))

  mirror_chunks-Keeps : (k : Copies) (path : Str) (n : ℕ) → MirrorKeeps (mirror_chunks net k path n)
  unfolding mirror_chunks
  mirror_chunks-Keeps k path zero = idle tt
  mirror_chunks-Keeps k path (suc n) =
      then_do (mirror_chunk net k path) _ (mirror_chunk-Keeps k path)
        (λ u. mirror_chunks-Keeps k path n)

  mirror_text-Keeps : (i : ℕ) (k : Copies) (path : Str) → MirrorKeeps (mirror_text net i k path)
  unfolding mirror_text
  mirror_text-Keeps i k path = then_do (tell net i _) _ (tell-Keeps i _) (λ u.
      then_do (recv net) _ receiving
        (λ r. either (is_neg r.count) _ _ (idle tt) (mirror_chunks-Keeps k path _)))

  make_both-Keeps :
      (k : Copies) (operation path : Str) → MirrorKeeps (make_both net k operation path)
  make_both-Keeps k operation path =
      then_do (tell net k.index1 _) _ (tell-Keeps k.index1 (red_command operation path k.p1))
        (λ u. tell-Keeps k.index2 (red_command operation path k.p2))

  ask_kind-Keeps : (i : ℕ) (path : Str) → MirrorKeeps (ask_kind net i path)
  unfolding ask_kind
  ask_kind-Keeps i path = then_do (tell net i _) _ (tell-Keeps i _) (λ u.
      then_do (recv net) _ receiving (λ r.
        either (is_neg r.count) _ _ (idle {A = Str} [])
          (then_do (recv net) _ receiving (λ r2. taken_from (text_of r2)))))

  mirror_entry-Keeps : (i : ℕ) (k : Copies) (e : TrieContent) → MirrorKeeps (mirror_entry net i k e)
  unfolding mirror_entry
  mirror_entry-Keeps i k e = then_do (ask_kind net i e.val) _ (ask_kind-Keeps i e.val) (λ text.
      either (str_eq text (codes "DIR")) _ _ (make_both-Keeps k _ e.val) (
        then_do (make_both net k _ e.val) _ (make_both-Keeps k _ e.val)
          (λ u. either (is_empty_str text) _ _ (idle tt) (mirror_text-Keeps i k e.val))))

  mirror_entries-Keeps :
      (i : ℕ) (k : Copies) (es : List TrieContent) → MirrorKeeps (mirror_entries net i k es)
  unfolding mirror_entries
  mirror_entries-Keeps i k [] = idle tt
  mirror_entries-Keeps i k (e ∷ es) =
      then_do (mirror_entry net i k e) _ (mirror_entry-Keeps i k e)
        (λ u. mirror_entries-Keeps i k es)

  pub mirror-Keeps : (i : ℕ) (k : Copies) → MirrorKeeps (mirror net i k)
  unfolding mirror
  mirror-Keeps i k = then_do (clear_copy net k.index1 k.p1) _ (clear_copy-Keeps k.index1 k.p1) (λ u.
      then_do (clear_copy net k.index2 k.p2) _ (clear_copy-Keeps k.index2 k.p2) (λ u.
        then_do (list_main net i) _ (list_main-Keeps i) (λ temp.
          then_do (lift_option (copied_fn temp [])) _ (taken_from (copied_fn temp []))
            (λ es. mirror_entries-Keeps i k es))))
