-- ===== src/Text/CodePage/Laws.antt =====
-- What the conversion loops do, for any code page.
use worms2lobby_server_cpp.Base.{
  ℕ, zero, suc, ◌≤◌, ◌<◌, ◌≡◌, ◌≢◌, refl, sym, ap, ap₂, ◌∙◌, arith, ◌==◌, not, Bool, true, false,
  ◌&&◌, if◌then◌else◌, none, some, List, [], ◌∷◌, ◌++◌, map, length, length-append, drop,
  drop-append, All, any_of, bit_and, append-nil, append_assoc,
}
use worms2lobby_server_cpp.Base.Tables.{passes_all, passes_all_lem}
use worms2lobby_server_cpp.Text.Utf8.{utf8_to_codepoint, append_utf8}
use worms2lobby_server_cpp.Text.CodePage.{
  encode_loop, encode_with, encode_strict_loop, encode_strict_with, decode_loop, decode_with,
}

-- Reading a code point does not look past it.
pub utf8_to_codepoint-append :
    (s rest : List ℕ) (len cp : ℕ)
    → utf8_to_codepoint s ≡ (len, cp)
    → len ≢ 0
    → utf8_to_codepoint (s ++ rest) ≡ (len, cp)
unfolding utf8_to_codepoint
utf8_to_codepoint-append [] rest len cp e h = absurd (h (sym (ap (λ (p : ℕ × ℕ). p.0) e)))
utf8_to_codepoint-append (a ∷ []) rest len cp e h = ground arith
utf8_to_codepoint-append (a ∷ b ∷ []) rest len cp e h = ground arith
utf8_to_codepoint-append (a ∷ b ∷ c ∷ s) rest len cp e h = ground arith

pub append_utf8-append : (str : List ℕ) (cp : ℕ) → append_utf8 str cp ≡ str ++ append_utf8 [] cp
unfolding append_utf8
append_utf8-append str cp = ground arith

-- The bytes are one whole code point, which the code page takes to `k`.
unfoldable pub encodes : (ℕ → ℕ) → List ℕ → ℕ → Bool
encodes from chunk k =
    let (len, cp) = utf8_to_codepoint chunk in len == length chunk && not (len == 0) && from cp == k

module _ (to_unicode : ℕ → ℕ) where
  -- What `decode` appends, byte by byte.
  abbrev pub decoded : List ℕ → List ℕ
  decoded [] = []
  decoded (c ∷ input) = append_utf8 [] (to_unicode c) ++ decoded input

  decode_loop-decoded :
      (result input : List ℕ) → decode_loop to_unicode result input ≡ result ++ decoded input
  unfolding decode_loop
  decode_loop-decoded result [] = sym (append-nil result)
  decode_loop-decoded result (c ∷ input) =
      decode_loop-decoded (append_utf8 result (to_unicode c)) input
      ∙ rw (append_utf8-append result (to_unicode c), append_assoc)

  pub decode_with-decoded : (input : List ℕ) → decode_with to_unicode input ≡ decoded input
  unfolding decode_with
  decode_with-decoded input = decode_loop-decoded [] input

module _ (from : ℕ → ℕ) where
  encodes_parts :
      (chunk : List ℕ) (k : ℕ)
      → encodes from chunk k ≡ true
      → (cp : ℕ) × (utf8_to_codepoint chunk ≡ (length chunk, cp))
        × (length chunk ≢ 0)
        × (from cp ≡ k)
  unfolding encodes
  encodes_parts chunk k h = ((utf8_to_codepoint chunk).1, ground arith, ground arith, ground arith)

  -- One round of each loop, where the input begins with a code point.
  encode_loop_at :
      (fuel c : ℕ) (input : List ℕ) (len cp : ℕ)
      → utf8_to_codepoint (c ∷ input) ≡ (len, cp)
      → (len == 0) ≡ false
      → encode_loop from (suc fuel) (c ∷ input)
        ≡ from cp ∷ encode_loop from fuel (drop len (c ∷ input))
  unfolding encode_loop
  encode_loop_at fuel c input len cp e h = rw (e, h)

  encode_strict_loop_at :
      (fuel c : ℕ) (input : List ℕ) (len cp : ℕ) (r : List ℕ)
      → utf8_to_codepoint (c ∷ input) ≡ (len, cp)
      → (len == 0) ≡ false
      → (from cp == b'?') ≡ false
      → encode_strict_loop from fuel (drop len (c ∷ input)) ≡ some r
      → encode_strict_loop from (suc fuel) (c ∷ input) ≡ some (from cp ∷ r)
  unfolding encode_strict_loop
  encode_strict_loop_at fuel c input len cp r e h q t = rw (e, h, q, t) (rw e)

  pub encode_loop_step :
      (fuel : ℕ) (chunk rest : List ℕ) (k : ℕ)
      → encodes from chunk k ≡ true
      → encode_loop from (suc fuel) (chunk ++ rest) ≡ k ∷ encode_loop from fuel rest
  encode_loop_step fuel [] rest k h = let (cp, e, ne, f) = encodes_parts [] k h in absurd (ne refl)
  encode_loop_step fuel (c ∷ chunk) rest k h =
      let (cp, e, ne, f) = encodes_parts (c ∷ chunk) k h in
      encode_loop_at fuel c (chunk ++ rest) (length (c ∷ chunk)) cp
        (utf8_to_codepoint-append (c ∷ chunk) rest _ cp e ne) (ground arith)
      ∙ ap₂ ◌∷◌ f (ap (encode_loop from fuel) (drop-append (c ∷ chunk) rest))

  encode_strict_loop_step :
      (fuel : ℕ) (chunk rest r : List ℕ) (k : ℕ)
      → encodes from chunk k ≡ true
      → (k == b'?') ≡ false
      → encode_strict_loop from fuel rest ≡ some r
      → encode_strict_loop from (suc fuel) (chunk ++ rest) ≡ some (k ∷ r)
  encode_strict_loop_step fuel [] rest r k h q t =
      let (cp, e, ne, f) = encodes_parts [] k h in absurd (ne refl)
  encode_strict_loop_step fuel (c ∷ chunk) rest r k h q t =
      let (cp, e, ne, f) = encodes_parts (c ∷ chunk) k h in
      encode_strict_loop_at fuel c (chunk ++ rest) (length (c ∷ chunk)) cp r
        (utf8_to_codepoint-append (c ∷ chunk) rest _ cp e ne) (ground arith) (rw f q)
        (ap (encode_strict_loop from fuel) (drop-append (c ∷ chunk) rest) ∙ t)
      ∙ ap (λ (x : ℕ). some (x ∷ r)) f

module _ (from to canon : ℕ → ℕ) where
  abbrev pub Maps : List ℕ → Type 0
  Maps = All (λ c. encodes from (append_utf8 [] (to c)) (canon c) ≡ true)

  decoded_longer :
      (c : ℕ) (input : List ℕ)
      → encodes from (append_utf8 [] (to c)) (canon c) ≡ true
      → length (decoded to input) < length (decoded to (c ∷ input))
  decoded_longer c input h =
      let (cp, e, ne, f) = encodes_parts from (append_utf8 [] (to c)) (canon c) h in
      omega (arith, length-append (append_utf8 [] (to c)) (decoded to input))

  encode_loop-decoded :
      (fuel : ℕ) (input : List ℕ)
      → Maps input
      → length (decoded to input) ≤ fuel
      → encode_loop from fuel (decoded to input) ≡ map canon input
  encode_loop-decoded zero [] h b = unfold encode_loop in refl
  encode_loop-decoded (suc fuel) [] h b = unfold encode_loop in refl
  encode_loop-decoded zero (c ∷ input) (h, hs) b = absurd (omega (arith, decoded_longer c input h))
  encode_loop-decoded (suc fuel) (c ∷ input) (h, hs) b =
      encode_loop_step from fuel (append_utf8 [] (to c)) (decoded to input) (canon c) h
      ∙ ap (◌∷◌ (canon c))
          (encode_loop-decoded fuel input hs (omega (arith, decoded_longer c input h)))

  -- Decoding bytes and encoding the text again gives what the page makes of each byte.
  pub encode_with-decode_with :
      (input : List ℕ) → Maps input → encode_with from (decode_with to input) ≡ map canon input
  unfolding encode_with
  encode_with-decode_with input h =
      rw (decode_with-decoded to input) (encode_loop-decoded _ input h (omega arith))

  encode_strict_loop-decoded :
      (fuel : ℕ) (input : List ℕ)
      → Maps input
      → All (λ c. (canon c == b'?') ≡ false) input
      → length (decoded to input) ≤ fuel
      → encode_strict_loop from fuel (decoded to input) ≡ some (map canon input)
  encode_strict_loop-decoded zero [] h q b = unfold encode_strict_loop in refl
  encode_strict_loop-decoded (suc fuel) [] h q b = unfold encode_strict_loop in refl
  encode_strict_loop-decoded zero (c ∷ input) (h, hs) q b =
      absurd (omega (arith, decoded_longer c input h))
  encode_strict_loop-decoded (suc fuel) (c ∷ input) (h, hs) (q, qs) b =
      encode_strict_loop_step from fuel (append_utf8 [] (to c)) (decoded to input) (map canon input)
        (canon c) h q
        (encode_strict_loop-decoded fuel input hs qs (omega (arith, decoded_longer c input h)))

  pub encode_strict_with-decode_with :
      (input : List ℕ)
      → Maps input
      → All (λ c. (canon c == b'?') ≡ false) input
      → encode_strict_with from (decode_with to input) ≡ some (map canon input)
  unfolding encode_strict_with
  encode_strict_with-decode_with input h q =
      rw (decode_with-decoded to input) (encode_strict_loop-decoded _ input h q (omega arith))

-- ASCII text, which every page leaves alone.
abbrev pub IsAscii : List ℕ → Type 0
IsAscii = All (λ c. c < 0x80)

ascii_table : passes_all (λ c. bit_and c 0x80 == 0) 0x80 ≡ true
unfolding passes_all
ascii_table = refl

utf8_to_codepoint_ascii :
    (c : ℕ) (input : List ℕ) → c < 0x80 → utf8_to_codepoint (c ∷ input) ≡ (1, c)
unfolding utf8_to_codepoint
utf8_to_codepoint_ascii c input h =
    rw (passes_all_lem (λ c. bit_and c 0x80 == 0) 0x80 ascii_table c h)

module _ (from : ℕ → ℕ) (plain : (c : ℕ) → c < 0x80 → from c ≡ c) where
  encode_strict_loop_ascii :
      (fuel : ℕ) (input : List ℕ)
      → IsAscii input
      → length input ≤ fuel
      → encode_strict_loop from fuel input
        ≡ (if any_of (λ c. c == b'?') input then none else some input)
  unfolding encode_strict_loop
  encode_strict_loop_ascii zero [] h b = refl
  encode_strict_loop_ascii zero (c ∷ input) h b = absurd (omega arith)
  encode_strict_loop_ascii (suc fuel) [] h b = refl
  encode_strict_loop_ascii (suc fuel) (c ∷ input) (h, hs) b =
      rw
        (
          utf8_to_codepoint_ascii c input h,
          plain c h,
          encode_strict_loop_ascii fuel input hs (omega arith),
        )
        (ground (arith, utf8_to_codepoint_ascii c input h, plain c h))

  pub encode_strict_with_ascii :
      (input : List ℕ)
      → IsAscii input
      → encode_strict_with from input ≡ (if any_of (λ c. c == b'?') input then none else some input)
  unfolding encode_strict_with
  encode_strict_with_ascii input h = encode_strict_loop_ascii _ input h (omega arith)
