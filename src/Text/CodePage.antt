-- ===== src/Text/CodePage.antt =====
-- The conversion loops that Windows1251 and Windows1252 share, over the byte conversions of one code
-- page. `i` is the part of the input that is not read yet; each round takes at least one byte, so
-- the length of the input is fuel enough.
pub mod Laws
pub mod Page
pub mod Unicode
use worms2lobby_server_cpp.Base.{
  ℕ, zero, suc, ◌==◌, Bool, if◌then◌else◌, Option, none, some, List, [], ◌∷◌, ◌++◌, length, drop,
}
use worms2lobby_server_cpp.Text.Utf8.{utf8_to_codepoint, append_utf8}

module _ (from_unicode : ℕ → ℕ) where
  unfoldable pub encode_loop : ℕ → List ℕ → List ℕ
  encode_loop zero input = []
  encode_loop (suc fuel) [] = []
  encode_loop (suc fuel) (c ∷ input) =
      let (len, codepoint) = utf8_to_codepoint (c ∷ input) in
      (if len == 0 then b'?' else from_unicode codepoint)
      ∷ encode_loop fuel (drop (if len == 0 then 1 else len) (c ∷ input))

  unfoldable pub encode_with : List ℕ → List ℕ
  unfolding encode_loop
  encode_with input = encode_loop (length input) input

  unfoldable pub encode_strict_loop : ℕ → List ℕ → Option (List ℕ)
  encode_strict_loop zero input = some []
  encode_strict_loop (suc fuel) [] = some []
  encode_strict_loop (suc fuel) (c ∷ input) =
      let (len, codepoint) = utf8_to_codepoint (c ∷ input) in
      let ch = from_unicode codepoint in
      let rest = encode_strict_loop fuel (drop len (c ∷ input)) in
      if len == 0
      then none
      else if ch == b'?'
      then none
      else elim rest [ none ↦ none | some result ↦ some (ch ∷ result) ]

  unfoldable pub encode_strict_with : List ℕ → Option (List ℕ)
  unfolding encode_strict_loop
  encode_strict_with input = encode_strict_loop (length input) input

module _ (to_unicode : ℕ → ℕ) where
  unfoldable pub decode_loop : List ℕ → List ℕ → List ℕ
  decode_loop result [] = result
  decode_loop result (c ∷ input) = decode_loop (append_utf8 result (to_unicode c)) input

  unfoldable pub decode_with : List ℕ → List ℕ
  unfolding decode_loop
  decode_with input = decode_loop [] input
