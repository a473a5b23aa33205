-- ===== src/Client/Session/Stops.antt =====
-- The stop that the naming server waits for while it holds the storage server (Client.c).
use network_file_system_in_c.Base.{
  Bool, Bool-cases, List, Option, Str, [], ap, eq_int, false, if◌then◌else◌, inl, inr, is_neg,
  minus_one, none, not, pos_part, refl, some, suc, true, zero, ℕ, ◌&&◌, ◌++◌, ◌∙◌, ◌∷◌, ◌≡◌,
}
use network_file_system_in_c.Client.Session.{
  Event, Run, Session, after_event, and_at_end, buffer_after, ended, faulty, hung, info_function,
  is_connected, print_chunks, read_file, read_function, shown_stat, shown_text, to_storage,
  told_stop, typed_text, with_storage, write_function, write_text,
}
use network_file_system_in_c.Naming.Copy.{has_nul}
use network_file_system_in_c.Naming.Copy.Text.{atoi, chunk_count}
use network_file_system_in_c.Naming.CopyDir.{before_nul}
use network_file_system_in_c.Naming.State.{Command}

abbrev pub is_none : Option Str → Bool
is_none none = true
is_none (some text) = false

abbrev pub stops : List Event → ℕ
stops [] = 0
stops (told_stop path2 ∷ es) = suc (stops es)
stops (to_storage c ∷ es) = stops es
stops (typed_text text ∷ es) = stops es
stops (shown_text text ∷ es) = stops es
stops (shown_stat ∷ es) = stops es

-- So many stops from a function that returns, and none from one that waits for ever.
abbrev pub HasStops : ℕ → Run → Type 0
HasStops n (ended es) = stops es ≡ n
HasStops n (hung es) = stops es ≡ 0
HasStops n faulty = Unit

printed-HasStops :
    (text : Str) (r : Run) → HasStops 0 r → HasStops 0 (after_event (shown_text text) r)
printed-HasStops text (ended es) h = h
printed-HasStops text (hung es) h = h
printed-HasStops text faulty h = h

-- Printing sends no stop.
print_chunks-HasStops :
    (o : Session) (bytes : Str) (n k : ℕ) → HasStops 0 (print_chunks o bytes n k)
unfolding print_chunks
print_chunks-HasStops o bytes n zero = refl
print_chunks-HasStops o bytes n (suc k) =
    let bytes' = buffer_after bytes (o.answers n) in
    elim (Bool-cases (o.blocks n)) [
      | inl silent ↦ rw silent refl
      | inr comes ↦ elim (Bool-cases (has_nul bytes')) [
        | inl is ↦
            rw (comes, is)
              (printed-HasStops (before_nul bytes') (print_chunks o bytes' (suc n) k)
                (print_chunks-HasStops o bytes' (suc n) k))
        | inr is_not ↦ rw (comes, is_not) tt
      ]
    ]

stops-append : (es : List Event) (path2 : Str) → stops (es ++ told_stop path2 ∷ []) ≡ suc (stops es)
stops-append [] path2 = refl
stops-append (told_stop p ∷ es) path2 = ap suc (stops-append es path2)
stops-append (to_storage c ∷ es) path2 = stops-append es path2
stops-append (typed_text text ∷ es) path2 = stops-append es path2
stops-append (shown_text text ∷ es) path2 = stops-append es path2
stops-append (shown_stat ∷ es) path2 = stops-append es path2

read_file-HasStops : (o : Session) → HasStops 0 (read_file o)
unfolding read_file
read_file-HasStops o = elim (Bool-cases (o.blocks 0)) [
  | inl silent ↦ rw silent refl
  | inr comes ↦ elim (Bool-cases (is_neg (o.answers 0).count)) [
    | inl failed ↦ rw (comes, failed) refl
    | inr came ↦
        rw (comes, came)
          (print_chunks-HasStops o o.stack 1 (pos_part (chunk_count (atoi (o.answers 0).text))))
  ]
]

-- The naming server has told the client where the file is, and holds the storage server until it hears
-- a stop. write_function and info_function tell it exactly one, or wait for ever and tell none:
-- write_function if it has connected and no line is typed, info_function if it has connected, its
-- command is sent, and no answer comes. read_function tells exactly one if it returns, none if it
-- waits for ever, and none if it returns after its command could not be sent to the storage server;
-- nothing is said of a read_function that hits undefined behaviour.
pub sessions-HasStops :
    (o : Session) (c : Command)
    → is_neg o.came ≡ false
    → eq_int o.index minus_one ≡ false
    → let no_line = is_connected o && is_none o.input in
      let no_stat = is_connected o && not (is_neg o.send_result) && o.blocks 0 in
      ((es : List Event) × (write_function o c ≡ (if no_line then hung es else ended es))
        × (stops es ≡ (if no_line then 0 else 1)))
      × ((es : List Event) × (info_function o c ≡ (if no_stat then hung es else ended es))
          × (stops es ≡ (if no_stat then 0 else 1)))
      × HasStops (if is_connected o && is_neg o.send_result then 0 else 1) (read_function o c)
unfolding write_function write_text info_function read_function with_storage
sessions-HasStops o c came there = elim (Bool-cases (is_connected o)) [
  | inl up ↦ rw (came, there, up) (typed o.input, asked, read)
  | inr down ↦ rw (came, there, down) ((_, refl, refl), (_, refl, refl), refl)
]
  where
    typed :
        (line : Option Str)
        → (es : List Event) × (write_text c line ≡ (if is_none line then hung es else ended es))
          × (stops es ≡ (if is_none line then 0 else 1))
    typed none = (_, refl, refl)
    typed (some text) = (_, refl, refl)

    asked :
        (es : List Event) × ((if is_neg o.send_result
            then ended (to_storage c ∷ told_stop [] ∷ [])
            else if o.blocks 0
            then hung (to_storage c ∷ [])
            else ended (to_storage c ∷ shown_stat ∷ told_stop [] ∷ []))
          ≡ (if not (is_neg o.send_result) && o.blocks 0 then hung es else ended es))
        × (stops es ≡ (if not (is_neg o.send_result) && o.blocks 0 then 0 else 1))
    asked = elim (Bool-cases (is_neg o.send_result)) [
      | inl failed ↦ rw failed (_, refl, refl)
      | inr went ↦ elim (Bool-cases (o.blocks 0)) [
        | inl silent ↦ rw (went, silent) (_, refl, refl)
        | inr comes ↦ rw (went, comes) (_, refl, refl)
      ]
    ]

    stopped :
        (r : Run)
        → HasStops 0 r
        → HasStops 1 (
            after_event
              (to_storage (record c { path2 = o.extra }))
              (and_at_end (told_stop [] ∷ []) r))
    stopped (ended es) h = stops-append es [] ∙ ap suc h
    stopped (hung es) h = h
    stopped faulty h = tt

    read : HasStops (if is_neg o.send_result then 0 else 1) (
        if is_neg o.send_result
        then ended (to_storage (record c { path2 = o.extra }) ∷ [])
        else after_event
            (to_storage (record c { path2 = o.extra }))
            (and_at_end (told_stop [] ∷ []) (read_file o)))
    read = elim (Bool-cases (is_neg o.send_result)) [
      | inl failed ↦ rw failed refl
      | inr went ↦ rw went (stopped (read_file o) (read_file-HasStops o))
    ]
