-- ===== src/Tests/TextRuns.antt =====
-- The code pages on concrete texts.
use worms2lobby_server_cpp.Base.{ℕ, ◌≡◌, arith, none, some, List, [], ◌∷◌}
use worms2lobby_server_cpp.Text.Utf8.{utf8_to_codepoint, append_utf8}
use worms2lobby_server_cpp.Text.Windows1251
use worms2lobby_server_cpp.Text.Windows1252
use worms2lobby_server_cpp.Text.Windows1251.{unicode_to_windows_1251, windows_1251_to_unicode}
use worms2lobby_server_cpp.Text.Windows1252.{unicode_to_cp_1252, cp_1252_to_unicode}
use worms2lobby_server_cpp.Text.Utf8.Standard.{utf8_char, utf8, utf8_helpers_standard}
use worms2lobby_server_cpp.Text.CodePage.Unicode.{IsUnicode}
use worms2lobby_server_cpp.Text.Windows1251.RoundTrip.{encode-decode}
use worms2lobby_server_cpp.Text.Windows1251.Standard.{standard_1251}
use worms2lobby_server_cpp.Text.Windows1252.RoundTrip.{encode-decode_1252}
use worms2lobby_server_cpp.Text.Windows1252.Standard.{standard_1252}

-- "Да" and the sign §, which the encoder does not know.
abbrev cyrillic : List ℕ
cyrillic = 0xC4 ∷ 0xE0 ∷ 0xA7 ∷ []

encode-decode_example : Windows1251.encode (Windows1251.decode cyrillic) ≡ 0xC4 ∷ 0xE0 ∷ b'?' ∷ []
encode-decode_example = encode-decode cyrillic (omega arith, (omega arith, (omega arith, tt)))

-- The euro sign, and an undefined byte.
encode-decode_1252_example :
    Windows1252.encode (Windows1252.decode (0x80 ∷ 0x8D ∷ [])) ≡ 0x80 ∷ 0x81 ∷ []
encode-decode_1252_example = encode-decode_1252 (0x80 ∷ 0x8D ∷ []) (omega arith, (omega arith, tt))

-- "Д€?" and a flag sign, which has four bytes.
abbrev mixed : List ℕ
mixed = 0x414 ∷ 0x20AC ∷ b'?' ∷ 0x1F3F4 ∷ []

mixed-IsUnicode : IsUnicode mixed
mixed-IsUnicode = (omega arith, (omega arith, (omega arith, (omega arith, tt))))

standard_1251_example :
    (Windows1251.encode (utf8 mixed) ≡ 0xC4 ∷ b'?' ∷ b'?' ∷ b'?' ∷ b'?' ∷ b'?' ∷ b'?' ∷ [])
    × (Windows1251.encode_strict (utf8 mixed) ≡ none)
    × (Windows1251.decode cyrillic ≡ utf8 (0x414 ∷ 0x430 ∷ 0xA7 ∷ []))
standard_1251_example =
    standard_1251 mixed cyrillic mixed-IsUnicode (omega arith, (omega arith, (omega arith, tt)))

standard_1252_example :
    (Windows1252.encode (utf8 (0xE9 ∷ 0x20AC ∷ [])) ≡ 0xE9 ∷ 0x80 ∷ [])
    × (Windows1252.encode_strict (utf8 (0xE9 ∷ 0x20AC ∷ [])) ≡ some (0xE9 ∷ 0x80 ∷ []))
    × (Windows1252.decode (0x80 ∷ []) ≡ utf8 (0x20AC ∷ []))
standard_1252_example =
    standard_1252 (0xE9 ∷ 0x20AC ∷ []) (0x80 ∷ []) (omega arith, (omega arith, tt))
      (omega arith, tt)

-- A Cyrillic letter behind a question mark and before an exclamation mark.
utf8_helpers_standard_example :
    (append_utf8 (63 ∷ []) 0x411 ≡ 63 ∷ 0xD0 ∷ 0x91 ∷ [])
    × (utf8_to_codepoint (0xD0 ∷ 0x91 ∷ 33 ∷ []) ≡ (2, 0x411))
unfolding utf8_char
utf8_helpers_standard_example = utf8_helpers_standard 0x411 (omega arith) (63 ∷ []) (33 ∷ [])
