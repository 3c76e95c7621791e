-- ===== src/Text/CodePage/Unicode.antt =====
-- What the conversion loops of include/windows_1251.hpp and include/windows_1252.hpp make of any text of
-- Unicode, for any code page.
use worms2lobby_server_cpp.Base.{
  ℕ, zero, suc, ◌+◌, ◌/◌, ◌%◌, ◌≤◌, ◌<◌, ◌≡◌, refl, ap, ap₂, ◌∙◌, arith, ltb, leb, ◌==◌, Bool, true,
  false, ◌||◌, if◌then◌else◌, Option, none, some, List, [], ◌∷◌, ◌++◌, map, length, length-append,
  ltb→lt, ◌≢◌, drop, drop-append, All, any_of, inl, inr, Bool-cases,
}
use worms2lobby_server_cpp.Base.Tables.{passes_all, passes_all_lem}
use worms2lobby_server_cpp.Text.Utf8.{utf8_to_codepoint}
use worms2lobby_server_cpp.Text.Utf8.Standard.{
  utf8_char, utf8, read_char, is_stray, utf8_to_codepoint-is_stray,
}
use worms2lobby_server_cpp.Text.CodePage.{
  encode_loop, encode_with, encode_strict_loop, encode_strict_with, decode_with,
}
use worms2lobby_server_cpp.Text.CodePage.Laws.{
  utf8_to_codepoint-append, encodes, encode_loop_step, decoded, decode_with-decoded,
}

-- A text of Unicode: its code points, which have 21 bits.
abbrev pub IsUnicode : List ℕ → Type 0
IsUnicode = All (λ cp. cp < 0x110000)

module _ (from : ℕ → ℕ) where
  -- What is made of a character: its byte, or four question marks beyond 16 bits.
  abbrev pub mark : ℕ → List ℕ
  mark cp = if ltb cp 0x10000 then from cp ∷ [] else b'?' ∷ b'?' ∷ b'?' ∷ b'?' ∷ []

  abbrev pub marks : List ℕ → List ℕ
  marks [] = []
  marks (cp ∷ cps) = mark cp ++ marks cps

  -- Whether a character has no byte, or the question mark's.
  abbrev pub is_refused : ℕ → Bool
  is_refused cp = leb 0x10000 cp || from cp == b'?'

  encodes-utf8_char : (cp : ℕ) → cp < 0x10000 → encodes from (utf8_char cp) (from cp) ≡ true
  unfolding encodes
  encodes-utf8_char cp b =
      let (e, n, w) = read_char cp b in
      let l : (utf8_to_codepoint (utf8_char cp)).0 ≡ length (utf8_char cp) =
        ap (λ (p : ℕ × ℕ). p.0) e in
      let c : (utf8_to_codepoint (utf8_char cp)).1 ≡ cp = ap (λ (p : ℕ × ℕ). p.1) e in ground arith

  -- A round at a byte that begins no code point.
  encode_loop_stray :
      (fuel b : ℕ) (rest : List ℕ)
      → is_stray b ≡ true
      → encode_loop from (suc fuel) (b ∷ rest) ≡ b'?' ∷ encode_loop from fuel rest
  unfolding encode_loop
  encode_loop_stray fuel b rest h = rw (utf8_to_codepoint-is_stray b rest h)

  encode_strict_loop_stray :
      (fuel b : ℕ) (rest : List ℕ)
      → is_stray b ≡ true
      → encode_strict_loop from (suc fuel) (b ∷ rest) ≡ none
  unfolding encode_strict_loop
  encode_strict_loop_stray fuel b rest h = rw (utf8_to_codepoint-is_stray b rest h)

  -- The four bytes of a character beyond 16 bits.
  record Four (cp : ℕ) : Type 0 where
    a : ℕ
    b : ℕ
    c : ℕ
    d : ℕ
    bytes : utf8_char cp ≡ a ∷ b ∷ c ∷ d ∷ []
    stray_a : is_stray a ≡ true
    stray_b : is_stray b ≡ true
    stray_c : is_stray c ≡ true
    stray_d : is_stray d ≡ true

  four : (cp : ℕ) → cp < 0x110000 → ltb cp 0x10000 ≡ false → Four cp
  unfolding utf8_char
  four cp h f = record {
    a = 0xF0 + cp / 262144;
    b = 0x80 + cp / 4096 % 64;
    c = 0x80 + cp / 64 % 64;
    d = 0x80 + cp % 64;
    bytes = ground arith;
    stray_a = ground arith;
    stray_b = ground arith;
    stray_c = ground arith;
    stray_d = ground arith;
  }

  module _ (cp : ℕ) (h : Four cp) (rest : List ℕ) where
    open h use {a, b, c, d, bytes, stray_a, stray_b, stray_c, stray_d}

    encode_loop_four :
        (fuel : ℕ)
        → encode_loop from (suc (suc (suc (suc fuel)))) (utf8_char cp ++ rest)
          ≡ b'?' ∷ b'?' ∷ b'?' ∷ b'?' ∷ encode_loop from fuel rest
    encode_loop_four fuel = rw (
      bytes,
      encode_loop_stray (suc (suc (suc fuel))) a (b ∷ c ∷ d ∷ rest) stray_a,
      encode_loop_stray (suc (suc fuel)) b (c ∷ d ∷ rest) stray_b,
      encode_loop_stray (suc fuel) c (d ∷ rest) stray_c,
      encode_loop_stray fuel d rest stray_d,
    )

    encode_strict_loop_four :
        (fuel : ℕ) → encode_strict_loop from (suc fuel) (utf8_char cp ++ rest) ≡ none
    encode_strict_loop_four fuel =
        rw (bytes, encode_strict_loop_stray fuel a (b ∷ c ∷ d ∷ rest) stray_a)

    length-four : length (utf8_char cp ++ rest) ≡ 4 + length rest
    length-four = rw bytes (omega arith)

  length-char :
      (cp : ℕ) (cps : List ℕ) → cp < 0x10000 → length (utf8 cps) < length (utf8 (cp ∷ cps))
  length-char cp cps b =
      let n = (read_char cp b).1 in omega (arith, length-append (utf8_char cp) (utf8 cps))

  encode_loop-utf8 :
      (fuel : ℕ) (cps : List ℕ)
      → IsUnicode cps
      → length (utf8 cps) ≤ fuel
      → encode_loop from fuel (utf8 cps) ≡ marks cps
  encode_loop-utf8 zero [] h b = unfold encode_loop in refl
  encode_loop-utf8 (suc fuel) [] h b = unfold encode_loop in refl
  encode_loop-utf8 fuel (cp ∷ cps) (h, hs) b = elim (Bool-cases (ltb cp 0x10000)) [
    | inl e ↦ rw e (small fuel b (ltb→lt _ _ e) (λ fuel' l. encode_loop-utf8 fuel' cps hs l))
    | inr e ↦ rw e (large fuel b (four cp h e) (λ fuel' l. encode_loop-utf8 fuel' cps hs l))
  ]
    where
      small :
          (fuel : ℕ)
          → length (utf8 (cp ∷ cps)) ≤ fuel
          → cp < 0x10000
          → ((fuel' : ℕ)
              → length (utf8 cps) ≤ fuel'
              → encode_loop from fuel' (utf8 cps) ≡ marks cps)
          → encode_loop from fuel (utf8 (cp ∷ cps)) ≡ from cp ∷ marks cps
      small zero b l more = absurd (omega (arith, length-char cp cps l))
      small (suc fuel) b l more =
          encode_loop_step from fuel (utf8_char cp) (utf8 cps) (from cp) (encodes-utf8_char cp l)
          ∙ ap (◌∷◌ (from cp)) (more fuel (omega (arith, length-char cp cps l)))

      large :
          (fuel : ℕ)
          → length (utf8 (cp ∷ cps)) ≤ fuel
          → Four cp
          → ((fuel' : ℕ)
              → length (utf8 cps) ≤ fuel'
              → encode_loop from fuel' (utf8 cps) ≡ marks cps)
          → encode_loop from fuel (utf8 (cp ∷ cps)) ≡ b'?' ∷ b'?' ∷ b'?' ∷ b'?' ∷ marks cps
      large zero b q more = absurd (omega (arith, length-four cp q (utf8 cps)))
      large (suc zero) b q more = absurd (omega (arith, length-four cp q (utf8 cps)))
      large (suc (suc zero)) b q more = absurd (omega (arith, length-four cp q (utf8 cps)))
      large (suc (suc (suc zero))) b q more = absurd (omega (arith, length-four cp q (utf8 cps)))
      large (suc (suc (suc (suc fuel)))) b q more =
          encode_loop_four cp q (utf8 cps) fuel
          ∙ ap (λ t. b'?' ∷ b'?' ∷ b'?' ∷ b'?' ∷ t)
              (more fuel (omega (arith, length-four cp q (utf8 cps))))

  -- Any text is encoded character by character.
  pub encode_with-utf8 : (cps : List ℕ) → IsUnicode cps → encode_with from (utf8 cps) ≡ marks cps
  unfolding encode_with
  encode_with-utf8 cps h = encode_loop-utf8 _ cps h (omega arith)

  -- A character's byte before the rest, where both are accepted.
  abbrev accept : ℕ → Option (List ℕ) → Option (List ℕ)
  accept ch rest =
      if ch == b'?' then none else elim rest [ none ↦ none | some result ↦ some (ch ∷ result) ]

  abbrev round : ℕ × ℕ → (ℕ → Option (List ℕ)) → Option (List ℕ)
  round p rest = if p.0 == 0 then none else accept (from p.1) (rest p.0)

  encode_strict_loop-round :
      (fuel c : ℕ) (input : List ℕ)
      → encode_strict_loop from (suc fuel) (c ∷ input)
        ≡ round
            (utf8_to_codepoint (c ∷ input))
            (λ len. encode_strict_loop from fuel (drop len (c ∷ input)))
  unfolding encode_strict_loop
  encode_strict_loop-round fuel c input = refl

  encode_strict_loop_at :
      (fuel : ℕ) (chunk rest : List ℕ) (cp : ℕ)
      → utf8_to_codepoint chunk ≡ (length chunk, cp)
      → length chunk ≢ 0
      → encode_strict_loop from (suc fuel) (chunk ++ rest)
        ≡ accept (from cp) (encode_strict_loop from fuel rest)
  encode_strict_loop_at fuel [] rest cp e n = absurd (n refl)
  encode_strict_loop_at fuel (c ∷ chunk) rest cp e n =
      let z : (length (c ∷ chunk) == 0) ≡ false = ground arith in
      encode_strict_loop-round fuel c (chunk ++ rest)
      ∙ ap (λ p. round p (λ len. encode_strict_loop from fuel (drop len (c ∷ chunk ++ rest))))
          (utf8_to_codepoint-append (c ∷ chunk) rest _ cp e n)
      ∙ rw (z, drop-append (c ∷ chunk) rest) refl

  -- A text is refused where one character is, and is encoded character by character otherwise.
  abbrev pub strict_marks : List ℕ → Option (List ℕ)
  strict_marks cps = if any_of is_refused cps then none else some (map from cps)

  encode_strict_loop-utf8 :
      (fuel : ℕ) (cps : List ℕ)
      → IsUnicode cps
      → length (utf8 cps) ≤ fuel
      → encode_strict_loop from fuel (utf8 cps) ≡ strict_marks cps
  encode_strict_loop-utf8 zero [] h b = unfold encode_strict_loop in refl
  encode_strict_loop-utf8 (suc fuel) [] h b = unfold encode_strict_loop in refl
  encode_strict_loop-utf8 zero (cp ∷ cps) (h, hs) b = elim (Bool-cases (ltb cp 0x10000)) [
    | inl e ↦ absurd (omega (arith, length-char cp cps (ltb→lt _ _ e)))
    | inr e ↦ absurd (omega (arith, length-four cp (four cp h e) (utf8 cps)))
  ]
  encode_strict_loop-utf8 (suc fuel) (cp ∷ cps) (h, hs) b = elim (Bool-cases (ltb cp 0x10000)) [
    | inl e ↦
        let l : cp < 0x10000 = ltb→lt _ _ e in
        let (r, n, w) = read_char cp l in
        encode_strict_loop_at fuel (utf8_char cp) (utf8 cps) cp r n
        ∙ ap (accept (from cp))
            (encode_strict_loop-utf8 fuel cps hs (omega (arith, length-char cp cps l)))
        ∙ ground arith
    | inr e ↦
        encode_strict_loop_four cp (four cp h e) (utf8 cps) fuel
        ∙ (let q : leb 0x10000 cp ≡ true = ground arith in rw q refl)
  ]

  pub encode_strict_with-utf8 :
      (cps : List ℕ) → IsUnicode cps → encode_strict_with from (utf8 cps) ≡ strict_marks cps
  unfolding encode_strict_with
  encode_strict_with-utf8 cps h = encode_strict_loop-utf8 _ cps h (omega arith)

module _ (to : ℕ → ℕ) where
  decoded-utf8 :
      (input : List ℕ) → All (λ c. to c < 0x10000) input → decoded to input ≡ utf8 (map to input)
  decoded-utf8 [] h = refl
  decoded-utf8 (c ∷ input) (h, hs) = ap₂ ◌++◌ (read_char (to c) h).2 (decoded-utf8 input hs)

  -- The text of a page is decoded byte by byte.
  pub decode_with-utf8 :
      (input : List ℕ)
      → All (λ c. to c < 0x10000) input
      → decode_with to input ≡ utf8 (map to input)
  decode_with-utf8 input h = decode_with-decoded to input ∙ decoded-utf8 input h

  -- All bytes of a page have a character of 16 bits where the 256 bytes have one.
  pub All-narrow :
      passes_all (λ c. ltb (to c) 0x10000) 256 ≡ true
      → (input : List ℕ) → All (λ c. c < 256) input
      → All (λ c. to c < 0x10000) input
  All-narrow t [] h = tt
  All-narrow t (c ∷ input) (h, hs) =
      (ltb→lt _ _ (passes_all_lem _ 256 t c h), All-narrow t input hs)
