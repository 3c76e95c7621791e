-- ===== src/Text/Windows1252.antt =====
-- include/windows_1252.hpp: the Western European code page.
pub mod RoundTrip
pub mod Standard
use worms2lobby_server_cpp.Base.{
  ℕ, suc, ◌+◌, ◌-◌, ltb, leb, ◌==◌, ◌&&◌, if◌then◌else◌, Option, List, [], ◌∷◌, get_or,
}
use worms2lobby_server_cpp.Text.CodePage.{encode_with, encode_strict_with, decode_with}

-- The code points of the bytes 0x80 to 0x9F.
abbrev pub cp_1252_table : List ℕ
cp_1252_table =
    0x20AC ∷ 0xFFFD ∷ 0x201A ∷ 0x0192 ∷ 0x201E ∷ 0x2026 ∷ 0x2020 ∷ 0x2021 ∷ 0x02C6 ∷ 0x2030 ∷ 0x0160
    ∷ 0x2039 ∷ 0x0152 ∷ 0xFFFD ∷ 0x017D ∷ 0xFFFD ∷ 0xFFFD ∷ 0x2018 ∷ 0x2019 ∷ 0x201C ∷ 0x201D
    ∷ 0x2022 ∷ 0x2013 ∷ 0x2014 ∷ 0x02DC ∷ 0x2122 ∷ 0x0161 ∷ 0x203A ∷ 0x0153 ∷ 0xFFFD ∷ 0x017E
    ∷ 0x0178 ∷ []

unfoldable pub cp_1252_to_unicode : ℕ → ℕ
cp_1252_to_unicode byte =
    if ltb byte 0x80
    then byte
    else if leb 0xA0 byte
    then byte
    else get_or cp_1252_table (byte - 0x80) 0

-- The search through the table from entry `i` on.
unfoldable pub find_entry : ℕ → ℕ → List ℕ → ℕ
find_entry cp i [] = b'?'
find_entry cp i (entry ∷ entries) = if entry == cp then i + 0x80 else find_entry cp (suc i) entries

unfoldable pub unicode_to_cp_1252 : ℕ → ℕ
unfolding find_entry
unicode_to_cp_1252 cp =
    if ltb cp 0x80
    then cp
    else if leb 0xA0 cp && leb cp 0xFF
    then cp
    else find_entry cp 0 cp_1252_table

unfoldable pub encode : List ℕ → List ℕ
unfolding encode_with unicode_to_cp_1252
encode = encode_with unicode_to_cp_1252

unfoldable pub encode_strict : List ℕ → Option (List ℕ)
unfolding encode_strict_with unicode_to_cp_1252
encode_strict = encode_strict_with unicode_to_cp_1252

unfoldable pub decode : List ℕ → List ℕ
unfolding decode_with cp_1252_to_unicode
decode = decode_with cp_1252_to_unicode
