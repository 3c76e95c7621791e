-- ===== src/Text/Windows1251/RoundTrip.antt =====
-- What the two conversions of include/windows_1251.hpp make of each other.
use worms2lobby_server_cpp.Base.{
  ℕ, ◌<◌, ◌≡◌, refl, ap₂, ◌∙◌, arith, ltb, leb, ◌==◌, Bool, true, ◌||◌, if◌then◌else◌, none, some,
  List, [], ◌∷◌, map, All, any_of,
}
use worms2lobby_server_cpp.Base.Tables.{passes_all, passes_all_lem}
use worms2lobby_server_cpp.Text.Utf8.{utf8_to_codepoint, append_utf8}
use worms2lobby_server_cpp.Text.CodePage.Laws.{
  encodes, encode_with-decode_with, encode_strict_with_ascii, IsAscii,
}
use worms2lobby_server_cpp.Text.Windows1251.{
  unicode_to_windows_1251, windows_1251_to_unicode, encode, encode_strict, decode,
}

-- The bytes that the encoder can produce: ASCII, the letters from 0xC0 on, Ё, ё and №.
abbrev pub is_kept : ℕ → Bool
is_kept c = ltb c 0x80 || leb 0xC0 c || c == 0xA8 || c == 0xB8 || c == 0xB9

-- All others come back as a question mark.
abbrev pub kept : ℕ → ℕ
kept c = if is_kept c then c else b'?'

byte_table :
    passes_all
      (λ c. encodes unicode_to_windows_1251 (append_utf8 [] (windows_1251_to_unicode c)) (kept c))
      256
    ≡ true
unfolding passes_all encodes unicode_to_windows_1251 append_utf8 windows_1251_to_unicode
    utf8_to_codepoint
byte_table = refl

byte_encodes :
    (input : List ℕ)
    → All (λ c. c < 256) input
    → All
        (λ c.
          encodes unicode_to_windows_1251 (append_utf8 [] (windows_1251_to_unicode c)) (kept c)
          ≡ true)
        input
byte_encodes [] h = tt
byte_encodes (c ∷ input) (h, hs) = (passes_all_lem _ 256 byte_table c h, byte_encodes input hs)

kept-IsKept : (input : List ℕ) → All (λ c. is_kept c ≡ true) input → map kept input ≡ input
kept-IsKept [] h = refl
kept-IsKept (c ∷ input) (h, hs) = ap₂ ◌∷◌ (ground arith) (kept-IsKept input hs)

-- Any text in the code page that is decoded and encoded again keeps its length and its supported
-- bytes; each other byte is a question mark.
pub encode-decode :
    (input : List ℕ) → All (λ c. c < 256) input → encode (decode input) ≡ map kept input
unfolding encode decode
encode-decode input h = encode_with-decode_with _ _ kept input (byte_encodes input h)

-- A text of bytes that the encoder supports is not changed at all.
pub encode-decode_kept :
    (input : List ℕ)
    → All (λ c. c < 256) input
    → All (λ c. is_kept c ≡ true) input
    → encode (decode input) ≡ input
encode-decode_kept input h k = encode-decode input h ∙ kept-IsKept input k

plain_byte : (c : ℕ) → c < 0x80 → unicode_to_windows_1251 c ≡ c
unfolding unicode_to_windows_1251
plain_byte c h = ground arith

-- On ASCII text the strict encoder changes nothing, and it refuses every text with a question
-- mark, which it takes for the mark of an unsupported character.
pub encode_strict_ascii :
    (input : List ℕ)
    → IsAscii input
    → encode_strict input ≡ (if any_of (λ c. c == b'?') input then none else some input)
unfolding encode_strict
encode_strict_ascii input h = encode_strict_with_ascii _ plain_byte input h
