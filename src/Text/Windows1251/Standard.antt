-- ===== src/Text/Windows1251/Standard.antt =====
-- The three conversions of include/windows_1251.hpp on texts of Unicode and on bytes of the page, against
-- the page itself, which is written down here by its characters.
use worms2lobby_server_cpp.Base.{
  ℕ, ◌+◌, ◌-◌, ◌<◌, ◌≤◌, ◌≡◌, refl, sym, ap, ◌∙◌, fun_ext, arith, ltb, leb, ◌==◌, ==_equal, ◌&&◌,
  true, if◌then◌else◌, List, ◌∷◌, ◌++◌, map, All, get_or, ◌⊎◌, inl, inr, Bool-cases,
}
use worms2lobby_server_cpp.Base.Literals.{codes}
use worms2lobby_server_cpp.Base.Tables.{passes_all, passes_all_lem}
use worms2lobby_server_cpp.Text.Utf8.Standard.{utf8}
use worms2lobby_server_cpp.Text.CodePage.{decode_with}
use worms2lobby_server_cpp.Text.CodePage.Page.{byte_of, IsEncoder, answer_known, IsEncoder-byte_of}
use worms2lobby_server_cpp.Text.CodePage.Unicode.{
  IsUnicode, marks, strict_marks, encode_with-utf8, encode_strict_with-utf8, decode_with-utf8,
  All-narrow,
}
use worms2lobby_server_cpp.Text.Windows1251.{
  unicode_to_windows_1251, windows_1251_to_unicode, encode, encode_strict, decode,
}
use worms2lobby_server_cpp.Text.Windows1251.RoundTrip.{is_kept}

-- The characters of the bytes from 0x80 on. 0x98 has none of its own, 0xA0 and 0xAD are the
-- no-break space and the soft hyphen.
abbrev characters_1251 : List ℕ
characters_1251 =
    codes "ЂЃ‚ѓ„…†‡€‰Љ‹ЊЌЋЏ"
    ++ codes "ђ‘’“”•–—"
    ++ 0x98 ∷ codes "™љ›њќћџ"
    ++ 0xA0 ∷ codes "ЎўЈ¤Ґ¦§Ё©Є«¬"
    ++ 0xAD ∷ codes "®Ї"
    ++ codes "°±Ііґµ¶·ё№є»јЅѕї"
    ++ codes "АБВГДЕЖЗИЙКЛМНОПРСТУФХЦЧШЩЪЫЬЭЮЯ"
    ++ codes "абвгдежзийклмнопрстуфхцчшщъыьэюя"

-- Windows-1251: the character of each byte.
abbrev pub page_1251 : ℕ → ℕ
page_1251 c = if ltb c 0x80 then c else get_or characters_1251 (c - 0x80) 0

decoder-page : windows_1251_to_unicode ≡ page_1251
unfolding windows_1251_to_unicode
decoder-page = refl

known_table :
    passes_all (λ c. if is_kept c then unicode_to_windows_1251 (page_1251 c) == c else true) 256
    ≡ true
unfolding passes_all unicode_to_windows_1251
known_table = refl

letters_table : passes_all (λ i. page_1251 (0xC0 + i) == 0x410 + i) 64 ≡ true
unfolding passes_all
letters_table = refl

letter : (cp : ℕ) → 0x410 ≤ cp → cp ≤ 0x44F → page_1251 (cp - 0x410 + 0xC0) ≡ cp
letter cp l h =
    let k : cp - 0x410 < 64 = omega arith in
    let e : cp - 0x410 + 0xC0 ≡ 0xC0 + (cp - 0x410) = omega arith in
    let t = passes_all_lem _ 64 letters_table (cp - 0x410) k in
    let p : page_1251 (0xC0 + (cp - 0x410)) ≡ 0x410 + (cp - 0x410) = ==_equal t in
    ap page_1251 e ∙ p ∙ omega arith

only_known :
    (cp : ℕ)
    → (unicode_to_windows_1251 cp ≡ b'?')
      ⊎ ((unicode_to_windows_1251 cp < 256)
          × (is_kept (unicode_to_windows_1251 cp) ≡ true)
          × (page_1251 (unicode_to_windows_1251 cp) ≡ cp))
unfolding unicode_to_windows_1251
only_known cp = elim (Bool-cases (ltb cp 0x80)) [
  | inl a ↦ rw a (inr (ground arith, rw a refl, rw a refl))
  | inr a ↦ elim (Bool-cases (leb 0x410 cp && leb cp 0x44F)) [
    | inl b ↦
        let c = cp - 0x410 + 0xC0 in
        answer_known page_1251 is_kept _ c cp (rw (a, b) refl)
          (ground arith, ground arith, letter cp (ground arith) (ground arith))
    | inr b ↦ elim (Bool-cases (cp == 0x2116)) [
      | inl e ↦
          answer_known page_1251 is_kept _ 0xB9 cp (rw (a, b, e) refl)
            (omega arith, refl, sym (==_equal e))
      | inr e ↦ elim (Bool-cases (cp == 0x401)) [
        | inl f ↦
            answer_known page_1251 is_kept _ 0xA8 cp (rw (a, b, e, f) refl)
              (omega arith, refl, sym (==_equal f))
        | inr f ↦ elim (Bool-cases (cp == 0x451)) [
          | inl g ↦
              answer_known page_1251 is_kept _ 0xB8 cp (rw (a, b, e, f, g) refl)
                (omega arith, refl, sym (==_equal g))
          | inr g ↦ inl (rw (a, b, e, f, g) refl)
        ]
      ]
    ]
  ]
]

-- The encoder knows ASCII, the Russian letters and the number sign, and nothing else.
unicode_to_windows_1251-IsEncoder : IsEncoder page_1251 is_kept unicode_to_windows_1251
unicode_to_windows_1251-IsEncoder = record {
  known = λ c l k. (let h = passes_all_lem _ 256 known_table c l in ground arith);
  only_known = only_known;
}

narrow_table : passes_all (λ c. ltb (page_1251 c) 0x10000) 256 ≡ true
unfolding passes_all
narrow_table = refl

-- Of a text of Unicode in the standard's UTF-8 the encoder makes, of each character, its byte in
-- Windows-1251, where this is one of ASCII, the letters from А to я, Ё, ё and №, four question
-- marks where the character is beyond 16 bits, and one question mark otherwise; the strict encoder
-- makes the same bytes, and refuses the text where a character is beyond 16 bits or is made a
-- question mark, also where it is a question mark itself; and the decoder makes the standard's
-- UTF-8 of the characters that the bytes have in Windows-1251.
pub standard_1251 :
    (cps input : List ℕ)
    → IsUnicode cps
    → All (λ c. c < 256) input
    → (encode (utf8 cps) ≡ marks (byte_of page_1251 is_kept) cps)
      × (encode_strict (utf8 cps) ≡ strict_marks (byte_of page_1251 is_kept) cps)
      × (decode input ≡ utf8 (map page_1251 input))
unfolding encode encode_strict decode
standard_1251 cps input h b =
    let e : unicode_to_windows_1251 ≡ byte_of page_1251 is_kept =
      fun_ext (IsEncoder-byte_of page_1251 is_kept _ unicode_to_windows_1251-IsEncoder) in
    (
      encode_with-utf8 unicode_to_windows_1251 cps h ∙ ap (λ f. marks f cps) e,
      encode_strict_with-utf8 unicode_to_windows_1251 cps h ∙ ap (λ f. strict_marks f cps) e,
      ap (λ f. decode_with f input) decoder-page
          ∙ decode_with-utf8 page_1251 input (All-narrow page_1251 narrow_table input b),
    )
