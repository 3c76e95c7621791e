-- ===== src/Text/Utf8/Standard.antt =====
-- The UTF-8 helpers of include/windows_1251.hpp and include/windows_1252.hpp against the encoding form
-- of the Unicode standard.
use worms2lobby_server_cpp.Base.{
  ℕ, ◌+◌, ◌/◌, ◌%◌, ◌<◌, ◌≡◌, ◌≢◌, ◌∙◌, refl, ap, arith, ltb, leb, ◌==◌, str_eq, str_eq_sound, Bool,
  true, ◌&&◌, ◌||◌, not, if◌then◌else◌, List, [], ◌∷◌, ◌++◌, length, bit_and,
}
use worms2lobby_server_cpp.Base.Tables.{passes_all, passes_all_lem}
use worms2lobby_server_cpp.Text.Utf8.{utf8_to_codepoint, append_utf8}
use worms2lobby_server_cpp.Text.CodePage.Laws.{utf8_to_codepoint-append, append_utf8-append}

-- One to four bytes: the bits of the number in groups of six, the highest first.
unfoldable pub utf8_char : ℕ → List ℕ
utf8_char cp =
    if ltb cp 0x80
    then cp ∷ []
    else if ltb cp 0x800
    then (0xC0 + cp / 64) ∷ (0x80 + cp % 64) ∷ []
    else if ltb cp 0x10000
    then (0xE0 + cp / 4096) ∷ (0x80 + cp / 64 % 64) ∷ (0x80 + cp % 64) ∷ []
    else (0xF0 + cp / 262144)
      ∷ (0x80 + cp / 4096 % 64)
      ∷ (0x80 + cp / 64 % 64)
      ∷ (0x80 + cp % 64)
      ∷ []

-- A text of Unicode as bytes.
abbrev pub utf8 : List ℕ → List ℕ
utf8 [] = []
utf8 (cp ∷ cps) = utf8_char cp ++ utf8 cps

is_standard : ℕ → Bool
unfolding utf8_to_codepoint append_utf8 utf8_char
is_standard cp =
    let (len, read) = utf8_to_codepoint (utf8_char cp) in
    len == length (utf8_char cp)
    && read == cp
    && ltb 0 len
    && str_eq (append_utf8 [] cp) (utf8_char cp)

all_standard : passes_all is_standard 0x10000 ≡ true
unfolding passes_all is_standard utf8_to_codepoint append_utf8 utf8_char str_eq
all_standard = refl

parts :
    (chunk written : List ℕ) (len read cp : ℕ)
    → (len == length chunk && read == cp && ltb 0 len && str_eq written chunk) ≡ true
    → (len ≡ length chunk) × (read ≡ cp) × (length chunk ≢ 0) × (str_eq written chunk ≡ true)
parts chunk written len read cp h = (ground arith, ground arith, λ e. ground arith, ground arith)

standard :
    (cp : ℕ)
    → is_standard cp ≡ true
    → (utf8_to_codepoint (utf8_char cp) ≡ (length (utf8_char cp), cp))
      × (length (utf8_char cp) ≢ 0)
      × (append_utf8 [] cp ≡ utf8_char cp)
unfolding is_standard
standard cp h =
    let (e, f, n, w) =
      parts (utf8_char cp) (append_utf8 [] cp) (utf8_to_codepoint (utf8_char cp)).0
        (utf8_to_codepoint (utf8_char cp)).1 cp h in
    (λ i. (e i, f i), n, str_eq_sound _ _ w)

module _ (cp : ℕ) (b : cp < 0x10000) where
  pub read_char :
      (utf8_to_codepoint (utf8_char cp) ≡ (length (utf8_char cp), cp))
      × (length (utf8_char cp) ≢ 0)
      × (append_utf8 [] cp ≡ utf8_char cp)
  read_char = standard cp (passes_all_lem is_standard 0x10000 all_standard cp b)

  -- For a code point of 16 bits the helpers are those of the standard: the writer appends its
  -- UTF-8, and the reader reads it back from there, whatever follows, with its length.
  pub utf8_helpers_standard :
      (str rest : List ℕ)
      → (append_utf8 str cp ≡ str ++ utf8_char cp)
        × (utf8_to_codepoint (utf8_char cp ++ rest) ≡ (length (utf8_char cp), cp))
  utf8_helpers_standard str rest = (
    append_utf8-append str cp ∙ ap (◌++◌ str) (read_char.2),
    utf8_to_codepoint-append (utf8_char cp) rest _ cp read_char.0 read_char.1,
  )

-- The bytes that begin no code point that the helpers know.
abbrev pub is_stray : ℕ → Bool
is_stray b = (leb 0x80 b && ltb b 0xC0) || (leb 0xF0 b && ltb b 0x100)

stray_table :
    passes_all
      (λ b.
        not (is_stray b)
        || (not (bit_and b 0x80 == 0x00)
            && not (bit_and b 0xE0 == 0xC0)
            && not (bit_and b 0xF0 == 0xE0)))
      0x100
    ≡ true
unfolding passes_all
stray_table = refl

pub utf8_to_codepoint-is_stray :
    (b : ℕ) (rest : List ℕ) → is_stray b ≡ true → utf8_to_codepoint (b ∷ rest) ≡ (0, 0)
unfolding utf8_to_codepoint
utf8_to_codepoint-is_stray b rest h =
    let t =
      passes_all_lem
        (λ b.
          not (is_stray b)
          || (not (bit_and b 0x80 == 0x00)
              && not (bit_and b 0xE0 == 0xC0)
              && not (bit_and b 0xF0 == 0xE0)))
        0x100 stray_table b (ground arith) in
    ground arith
