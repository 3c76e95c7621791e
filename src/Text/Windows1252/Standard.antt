-- ===== src/Text/Windows1252/Standard.antt =====
-- The three conversions of include/windows_1252.hpp on texts of Unicode and on bytes of the page, against
-- the page itself, which is written down here by its characters.
use worms2lobby_server_cpp.Base.{
  ℕ, suc, ◌+◌, ◌-◌, ◌<◌, ◌≤◌, ◌≡◌, refl, sym, ap, ap₂, ◌∙◌, fun_ext, arith, ltb, leb, ◌==◌,
  ==_equal, Bool, not, ◌&&◌, ◌||◌, true, if◌then◌else◌, List, [], ◌∷◌, ◌++◌, map, length, All,
  get_or, ◌⊎◌, inl, inr, Bool-cases,
}
use worms2lobby_server_cpp.Base.Literals.{codes}
use worms2lobby_server_cpp.Base.Tables.{passes_all, passes_all_lem}
use worms2lobby_server_cpp.Text.Utf8.Standard.{utf8}
use worms2lobby_server_cpp.Text.CodePage.Page.{
  byte_of, IsEncoder, answer_known, answer_tested, IsEncoder-byte_of,
}
use worms2lobby_server_cpp.Text.CodePage.Unicode.{
  IsUnicode, marks, strict_marks, encode_with-utf8, encode_strict_with-utf8, decode_with-utf8,
  All-narrow,
}
use worms2lobby_server_cpp.Text.Windows1252.{
  cp_1252_table, cp_1252_to_unicode, find_entry, unicode_to_cp_1252, encode, encode_strict, decode,
}

-- The characters of the bytes from 0x80 on. The five bytes that have none stand for U+FFFD, the
-- replacement character; 0xA0 and 0xAD are the no-break space and the soft hyphen.
abbrev characters_1252 : List ℕ
characters_1252 =
    codes "€"
    ++ 0xFFFD ∷ codes "‚ƒ„…†‡ˆ‰Š‹Œ"
    ++ 0xFFFD ∷ codes "Ž"
    ++ 0xFFFD ∷ 0xFFFD ∷ codes "‘’“”•–—˜™š›œ"
    ++ 0xFFFD ∷ codes "žŸ"
    ++ 0xA0 ∷ codes "¡¢£¤¥¦§¨©ª«¬"
    ++ 0xAD ∷ codes "®¯"
    ++ codes "°±²³´µ¶·¸¹º»¼½¾¿"
    ++ codes "ÀÁÂÃÄÅÆÇÈÉÊËÌÍÎÏ"
    ++ codes "ÐÑÒÓÔÕÖ×ØÙÚÛÜÝÞß"
    ++ codes "àáâãäåæçèéêëìíîï"
    ++ codes "ðñòóôõö÷øùúûüýþÿ"

-- Windows-1252: the character of each byte.
abbrev pub page_1252 : ℕ → ℕ
page_1252 c = if ltb c 0x80 then c else get_or characters_1252 (c - 0x80) 0

-- Of the bytes for U+FFFD the encoder knows 0x81.
abbrev pub is_known_1252 : ℕ → Bool
is_known_1252 c = not (c == 0x8D || c == 0x8F || c == 0x90 || c == 0x9D)

decoder_table : passes_all (λ c. cp_1252_to_unicode c == page_1252 c) 256 ≡ true
unfolding passes_all cp_1252_to_unicode
decoder_table = refl

narrow_table : passes_all (λ c. ltb (cp_1252_to_unicode c) 0x10000) 256 ≡ true
unfolding passes_all cp_1252_to_unicode
narrow_table = refl

decoder-page :
    (input : List ℕ) → All (λ c. c < 256) input → map cp_1252_to_unicode input ≡ map page_1252 input
decoder-page [] h = refl
decoder-page (c ∷ input) (h, hs) =
    ap₂ ◌∷◌ (==_equal (passes_all_lem _ 256 decoder_table c h)) (decoder-page input hs)

known_table :
    passes_all (λ c. if is_known_1252 c then unicode_to_cp_1252 (page_1252 c) == c else true) 256
    ≡ true
unfolding passes_all unicode_to_cp_1252
known_table = refl

latin_table : passes_all (λ i. page_1252 (0xA0 + i) == 0xA0 + i) 0x60 ≡ true
unfolding passes_all
latin_table = refl

latin : (cp : ℕ) → 0xA0 ≤ cp → cp ≤ 0xFF → page_1252 cp ≡ cp
latin cp l h =
    let k : cp - 0xA0 < 0x60 = omega arith in
    let e : cp ≡ 0xA0 + (cp - 0xA0) = omega arith in
    let p : page_1252 (0xA0 + (cp - 0xA0)) ≡ 0xA0 + (cp - 0xA0) =
      ==_equal (passes_all_lem _ 0x60 latin_table (cp - 0xA0) k) in
    ap page_1252 e ∙ p ∙ sym e

-- A search that succeeds, through entries from `i` on.
record Found (cp i : ℕ) (entries : List ℕ) : Type 0 where
  place : ℕ
  below : place < length entries
  entry : get_or entries place 0 ≡ cp

find_entry-cases :
    (cp i : ℕ) (entries : List ℕ) → (find_entry cp i entries ≡ b'?') ⊎ Found cp i entries
unfolding find_entry
find_entry-cases cp i [] = inl refl
find_entry-cases cp i (entry ∷ entries) = elim (Bool-cases (entry == cp)) [
  | inl e ↦ inr (record { place = 0; below = omega arith; entry = ==_equal e })
  | inr e ↦ elim (find_entry-cases cp (suc i) entries) [
    | inl n ↦ inl (rw (find_entry, e) n)
    | inr f ↦ inr (record { place = suc f.place; below = omega (arith, f.below); entry = f.entry })
  ]
]

-- What is said of the answer for a character.
abbrev is_answer : ℕ → Bool
is_answer cp = let b = unicode_to_cp_1252 cp in ltb b 256 && is_known_1252 b && page_1252 b == cp

entries_table : passes_all (λ i. is_answer (get_or cp_1252_table i 0)) 32 ≡ true
unfolding passes_all unicode_to_cp_1252
entries_table = refl

abbrev Answers : ℕ → ℕ → Type 0
Answers cp b = (b ≡ b'?') ⊎ ((b < 256) × (is_known_1252 b ≡ true) × (page_1252 b ≡ cp))

Found-Answers : (cp : ℕ) → Found cp 0 cp_1252_table → Answers cp (unicode_to_cp_1252 cp)
Found-Answers cp f =
    answer_tested page_1252 is_known_1252 (unicode_to_cp_1252 cp) cp
      (ap is_answer (sym f.entry) ∙ passes_all_lem _ 32 entries_table f.place f.below)

only_known : (cp : ℕ) → Answers cp (unicode_to_cp_1252 cp)
unfolding unicode_to_cp_1252
only_known cp = elim (Bool-cases (ltb cp 0x80)) [
  | inl a ↦ rw a (inr (ground arith, ground arith, rw a refl))
  | inr a ↦ elim (Bool-cases (leb 0xA0 cp && leb cp 0xFF)) [
    | inl b ↦
        answer_known page_1252 is_known_1252 _ cp cp (rw (a, b) refl)
          (ground arith, ground arith, latin cp (ground arith) (ground arith))
    | inr b ↦ elim (find_entry-cases cp 0 cp_1252_table) [
      | inl n ↦ inl (rw (a, b) n)
      | inr f ↦ Found-Answers cp f
    ]
  ]
]

-- The encoder knows all bytes but four of those for U+FFFD.
unicode_to_cp_1252-IsEncoder : IsEncoder page_1252 is_known_1252 unicode_to_cp_1252
unicode_to_cp_1252-IsEncoder = record {
  known = λ c l k. (let h = passes_all_lem _ 256 known_table c l in ground arith);
  only_known = only_known;
}

-- Of a text of Unicode in the standard's UTF-8 the encoder of Windows-1252 makes, of each
-- character, its byte in the page, where it has one, the byte 0x81 of U+FFFD, for which the page's
-- undefined bytes stand, four question marks where the character is beyond 16 bits, and one
-- question mark otherwise; the strict encoder makes the same bytes, and refuses the text where a
-- character is beyond 16 bits or is made a question mark, also where it is a question mark itself;
-- and the decoder makes the standard's UTF-8 of the characters that the bytes have in the page.
pub standard_1252 :
    (cps input : List ℕ)
    → IsUnicode cps
    → All (λ c. c < 256) input
    → (encode (utf8 cps) ≡ marks (byte_of page_1252 is_known_1252) cps)
      × (encode_strict (utf8 cps) ≡ strict_marks (byte_of page_1252 is_known_1252) cps)
      × (decode input ≡ utf8 (map page_1252 input))
unfolding encode encode_strict decode
standard_1252 cps input h b =
    let e : unicode_to_cp_1252 ≡ byte_of page_1252 is_known_1252 =
      fun_ext (IsEncoder-byte_of page_1252 is_known_1252 _ unicode_to_cp_1252-IsEncoder) in
    (
      encode_with-utf8 unicode_to_cp_1252 cps h ∙ ap (λ f. marks f cps) e,
      encode_strict_with-utf8 unicode_to_cp_1252 cps h ∙ ap (λ f. strict_marks f cps) e,
      decode_with-utf8 cp_1252_to_unicode input (All-narrow cp_1252_to_unicode narrow_table input b)
          ∙ ap utf8 (decoder-page input b),
    )
