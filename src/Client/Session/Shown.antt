-- ===== src/Client/Session/Shown.antt =====
-- A client that reads what a storage server sends of a file (Client.c, read_function).
-- No NUL.
use mathlib.Core.List.{append_assoc}
use network_file_system_in_c.Base.{
  All, List, Str, [], ap, arith, drop, eq_int, false, is_neg, length, minus_one, or_true, pos, refl,
  suc, sym, take, true, ◌++◌, ◌+◌, ◌-◌, ◌/◌, ◌<◌, ◌==◌, ◌∙◌, ◌∷◌, ◌≡◌,
}
use network_file_system_in_c.Client.Session.{
  Session, ended, is_connected, print_chunks, read_file, read_function, shown_text, to_storage,
  told_stop, with_storage,
}
use network_file_system_in_c.Naming.Copy.{has_nul, pieces, zeros}
use network_file_system_in_c.Naming.Copy.Stored.{take_all}
use network_file_system_in_c.Naming.Copy.Text.{atoi, chunk_count}
use network_file_system_in_c.Naming.Copy.Text.Digits.{atoi-show_digits}
use network_file_system_in_c.Naming.CopyDir.{before_nul}
use network_file_system_in_c.Naming.State.{Command}
use network_file_system_in_c.Storage.Disk.Sound.{is_there}
use network_file_system_in_c.Storage.Transfer.{show_long}
use network_file_system_in_c.Storage.Transfer.Copied.{buffers_of, buffers_of-length}

abbrev pub IsText : Str → Type 0
IsText = All (λ c. (c == 0) ≡ false)

before_nul-text : (bytes behind : Str) → IsText bytes → before_nul (bytes ++ 0 ∷ behind) ≡ bytes
unfolding before_nul
before_nul-text [] behind is = refl
before_nul-text (c ∷ bytes) behind (is, are) =
    rw is (ap (λ s. c ∷ s) (before_nul-text bytes behind are))

has_nul-text : (bytes behind : Str) → has_nul (bytes ++ 0 ∷ behind) ≡ true
has_nul-text [] behind = refl
has_nul-text (c ∷ bytes) behind = rw (has_nul-text bytes behind) (or_true _)

take_all_of : (p : Str) → take (length p) p ≡ p
take_all_of p = take_all (length p) p (omega arith)

-- A text of less than 8192 bytes goes out in one buffer, with a NUL behind it.
one_buffer :
    (text : Str)
    → 0 < length text
    → length text < 8192
    → (behind : Str) × (buffers_of text ≡ (text ++ 0 ∷ behind) ∷ [])
unfolding pieces
one_buffer text is_there short =
    let one : (length text + 8191) / 8192 ≡ 1 = omega (arith, is_there, short) in
    let whole : take 8192 text ≡ text = take_all 8192 text (omega (arith, short)) in
    let room : 8192 - length text ≡ suc (8191 - length text) = omega (arith, short) in
    (zeros (8191 - length text), rw (one, whole, room) refl)

abbrev first_buffer : List Str → Str
first_buffer [] = []
first_buffer (p ∷ ps) = p

-- The storage server sends a text of less than 8192 bytes, and this comes to the client as it was sent: the
-- size, and one buffer. Then the client shows the text, no more and no less, and tells the naming
-- server to stop. The text has no NUL and is not empty, and the client must have been told the
-- storage server, have connected to it and have sent its command.
pub read_function-sent_file :
    (o : Session) (c : Command) (text b : Str)
    → is_neg o.came ≡ false
    → eq_int o.index minus_one ≡ false
    → is_connected o ≡ true
    → is_neg o.send_result ≡ false
    → IsText text
    → 0 < length text
    → length text < 8192
    → buffers_of text ≡ b ∷ []
    → o.blocks 0 ≡ false
    → o.answers 0 ≡ record { count = pos 32; text = show_long (length text) }
    → o.blocks 1 ≡ false
    → o.answers 1 ≡ record { count = pos (length b); text = b }
    → read_function o c
      ≡ ended (to_storage (record c { path2 = o.extra }) ∷ shown_text text ∷ told_stop [] ∷ [])
unfolding read_function with_storage read_file print_chunks
read_function-sent_file o c text b came there up went is is_there short sent comes size_came comes2
      chunk_came =
    let (behind, one) = one_buffer text is_there short in
    let behind' = behind ++ drop (length b) o.stack in
    let all_bytes : take (length b) b ++ drop (length b) o.stack ≡ text ++ 0 ∷ behind' =
      ap (λ s. s ++ drop (length b) o.stack) (take_all_of b ∙ ap first_buffer (sym sent ∙ one))
      ∙ append_assoc text (0 ∷ behind) (drop (length b) o.stack) in
    let size_read : atoi (show_long (length text)) ≡ pos (length text) =
      atoi-show_digits 19 (length text) (omega (arith, short)) in
    let one_round : chunk_count (pos (length text)) ≡ pos 1 =
      buffers_of-length text (omega (arith, short)) ∙ ap (λ bs. pos (length bs)) one in
    rw
      (
        came,
        there,
        up,
        went,
        comes,
        size_came,
        size_read,
        one_round,
        comes2,
        chunk_came,
        all_bytes,
        has_nul-text text behind',
        before_nul-text text behind' is,
      )
      refl
