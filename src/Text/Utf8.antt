-- ===== src/Text/Utf8.antt =====
-- The UTF-8 helpers that include/windows_1251.hpp and include/windows_1252.hpp both hold.
-- `>> 6` is `/ 64`, `<< 6` is `* 64`; `[]` stands for the end of the input.
pub mod RoundTrip
pub mod Standard
use worms2lobby_server_cpp.Base.{
  ℕ, ◌*◌, ◌/◌, bit_and, bit_or, ltb, leb, ◌==◌, ◌&&◌, if◌then◌else◌, List, [], ◌∷◌, ◌++◌, length,
  get_or,
}

-- The number of bytes that the first code point takes (0 if it is none that is supported), and the
-- code point. The list is the input from `pos` on.
unfoldable pub utf8_to_codepoint : List ℕ → ℕ × ℕ
utf8_to_codepoint [] = (0, 0)
utf8_to_codepoint (first ∷ rest) =
    if bit_and first 0x80 == 0x00
    then (1, first)
    else if bit_and first 0xE0 == 0xC0 && ltb 0 (length rest)
    then (2, bit_or (bit_and first 0x1F * 64) (bit_and (get_or rest 0 0) 0x3F))
    else if bit_and first 0xF0 == 0xE0 && ltb 1 (length rest)
    then (
      3,
      bit_or (bit_or (bit_and first 0x0F * 4096) (bit_and (get_or rest 0 0) 0x3F * 64))
          (bit_and (get_or rest 1 0) 0x3F),
    )
    else (0, 0)

unfoldable pub append_utf8 : List ℕ → ℕ → List ℕ
append_utf8 str cp =
    if leb cp 0x7F
    then str ++ cp ∷ []
    else if leb cp 0x7FF
    then str ++ bit_or 0xC0 (cp / 64) ∷ bit_or 0x80 (bit_and cp 0x3F) ∷ []
    else if leb cp 0xFFFF
    then str
      ++ bit_or 0xE0 (bit_and (cp / 4096) 0x0F)
        ∷ bit_or 0x80 (bit_and (cp / 64) 0x3F)
        ∷ bit_or 0x80 (bit_and cp 0x3F)
        ∷ []
    else str ++ b'?' ∷ []
