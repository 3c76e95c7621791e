-- ===== src/Text/Windows1252/RoundTrip.antt =====
-- What the two conversions of include/windows_1252.hpp make of each other.
use worms2lobby_server_cpp.Base.{
  ℕ, ◌<◌, ◌≡◌, refl, arith, ◌==◌, true, ◌||◌, if◌then◌else◌, none, some, List, [], ◌∷◌, map, All,
  any_of,
}
use worms2lobby_server_cpp.Base.Tables.{passes_all, passes_all_lem}
use worms2lobby_server_cpp.Text.Utf8.{utf8_to_codepoint, append_utf8}
use worms2lobby_server_cpp.Text.CodePage.Laws.{
  encodes, encode_with-decode_with, encode_strict_with_ascii, IsAscii,
}
use worms2lobby_server_cpp.Text.Windows1252.{
  unicode_to_cp_1252, cp_1252_to_unicode, encode, encode_strict, decode,
}

-- The five bytes that the code page leaves undefined all become the first of them.
abbrev pub kept : ℕ → ℕ
kept c = if c == 0x8D || c == 0x8F || c == 0x90 || c == 0x9D then 0x81 else c

byte_table :
    passes_all
      (λ c. encodes unicode_to_cp_1252 (append_utf8 [] (cp_1252_to_unicode c)) (kept c))
      256
    ≡ true
unfolding passes_all encodes unicode_to_cp_1252 append_utf8 cp_1252_to_unicode utf8_to_codepoint
byte_table = refl

byte_encodes :
    (input : List ℕ)
    → All (λ c. c < 256) input
    → All
        (λ c. encodes unicode_to_cp_1252 (append_utf8 [] (cp_1252_to_unicode c)) (kept c) ≡ true)
        input
byte_encodes [] h = tt
byte_encodes (c ∷ input) (h, hs) = (passes_all_lem _ 256 byte_table c h, byte_encodes input hs)

-- Any text in the code page survives decoding and encoding, but for the undefined bytes 0x8D,
-- 0x8F, 0x90 and 0x9D, each of which becomes 0x81.
pub encode-decode_1252 :
    (input : List ℕ) → All (λ c. c < 256) input → encode (decode input) ≡ map kept input
unfolding encode decode
encode-decode_1252 input h = encode_with-decode_with _ _ kept input (byte_encodes input h)

plain_byte : (c : ℕ) → c < 0x80 → unicode_to_cp_1252 c ≡ c
unfolding unicode_to_cp_1252
plain_byte c h = ground arith

-- On ASCII text the strict encoder of Windows-1252 changes nothing, and it refuses every text with
-- a question mark.
pub encode_strict_ascii_1252 :
    (input : List ℕ)
    → IsAscii input
    → encode_strict input ≡ (if any_of (λ c. c == b'?') input then none else some input)
unfolding encode_strict
encode_strict_ascii_1252 input h = encode_strict_with_ascii _ plain_byte input h
