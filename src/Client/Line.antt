-- ===== src/Client/Line.antt =====
-- The words of a line (Client.c, main).
-- A character that is part of a word.
use mathlib.Core.List.{append-nil, append_assoc}
use network_file_system_in_c.Base.{
  All, List, Str, [], ap, arith, false, is_empty_str, length, ltb-true, refl, some, sym, ℕ, ◌++◌,
  ◌<◌, ◌∙◌, ◌∷◌, ◌≡◌,
}
use network_file_system_in_c.Client.{
  are_words_short, arg, is_blank, is_end, read_command, words_from,
}

abbrev pub IsPlain : ℕ → Type 0
IsPlain c = (is_end c ≡ false) × (is_blank c ≡ false)

abbrev pub IsWord : Str → Type 0
IsWord word = (is_empty_str word ≡ false) × All IsPlain word

-- The words with a blank in between, and a newline.
abbrev pub line_of : List Str → Str
line_of [] = 10 ∷ []
line_of (word ∷ []) = word ++ 10 ∷ []
line_of (word ∷ more ∷ words) = word ++ 32 ∷ line_of (more ∷ words)

plain_word :
    (begun word inp : Str)
    → All IsPlain word
    → words_from begun (word ++ inp) ≡ words_from (begun ++ word) inp
unfolding words_from
plain_word begun [] inp plain = ap (λ w. words_from w inp) (sym (append-nil begun))
plain_word begun (c ∷ word) inp ((no_end, no_blank), plain) =
    rw (no_end, no_blank)
      (plain_word (begun ++ c ∷ []) word inp plain
        ∙ ap (λ w. words_from w inp) (append_assoc begun (c ∷ []) word))

words_from-line_of : (words : List Str) → All IsWord words → words_from [] (line_of words) ≡ words
unfolding words_from
words_from-line_of [] is = refl
words_from-line_of (word ∷ []) ((filled, plain), is) =
    plain_word [] word (10 ∷ []) plain ∙ rw filled refl
words_from-line_of (word ∷ more ∷ words) ((filled, plain), is) =
    plain_word [] word (32 ∷ line_of (more ∷ words)) plain
    ∙ rw (filled, words_from-line_of (more ∷ words) is) refl

-- A command of three words that is typed with a blank between them is the command of these words: its
-- operation has at most 31 bytes, and each path at most 499.
pub read_command-line_of :
    (port : ℕ) (operation path1 path2 : Str)
    → All IsWord (operation ∷ path1 ∷ path2 ∷ [])
    → length operation < 32
    → length path1 < 500
    → length path2 < 500
    → read_command port (line_of (operation ∷ path1 ∷ path2 ∷ []))
      ≡ some (record { operation = operation; path1 = path1; path2 = path2; port = port })
unfolding read_command are_words_short arg
read_command-line_of port operation path1 path2 is short short1 short2 =
    rw
      (
        words_from-line_of (operation ∷ path1 ∷ path2 ∷ []) is,
        ltb-true (length operation) 500 (omega (arith, short)),
        ltb-true (length path1) 500 short1,
        ltb-true (length path2) 500 short2,
        ltb-true (length operation) 32 short,
      )
      refl
