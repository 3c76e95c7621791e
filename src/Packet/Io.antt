-- ===== src/Packet/Io.antt =====
-- The packet library of the build (PacketIO: `net::packet_reader`, `net::packet_writer`), which is
-- not part of the repository. A reader is the list of the bytes that are still to be read, a writer
-- the list of the bytes written so far. Of a read past the end nothing is assumed.
use worms2lobby_server_cpp.Base.{
  ℕ, ◌+◌, ◌*◌, ◌/◌, ◌%◌, ◌≤◌, ◌≡◌, leb, Bool, Option, none, some, List, [], ◌∷◌, ◌++◌, length, take,
  drop,
}

-- The four bytes of a 32-bit number, lowest first.
abbrev pub le_32 : ℕ → List ℕ
le_32 v = (v % 256) ∷ (v / 256 % 256) ∷ (v / 65536 % 256) ∷ (v / 16777216 % 256) ∷ []

pub record PacketIo : Type 0 where
  pub can_read : List ℕ → ℕ → Bool
  pub read_u8 : List ℕ → Option (ℕ × List ℕ)
  pub read_u32 : List ℕ → Option (ℕ × List ℕ)
  pub read_bytes : List ℕ → ℕ → Option (List ℕ × List ℕ)
  pub write_u8 : List ℕ → ℕ → List ℕ
  pub write_u32 : List ℕ → ℕ → List ℕ
  pub write_bytes : List ℕ → List ℕ → List ℕ
  pub can_read_lem : (s : List ℕ) (n : ℕ) → can_read s n ≡ leb n (length s)
  pub read_u8_lem : (a : ℕ) (s : List ℕ) → read_u8 (a ∷ s) ≡ some (a, s)
  pub read_u32_lem :
      (a b c d : ℕ) (s : List ℕ)
      → read_u32 (a ∷ b ∷ c ∷ d ∷ s) ≡ some (a + b * 256 + c * 65536 + d * 16777216, s)
  pub read_bytes_lem :
      (s : List ℕ) (n : ℕ) → n ≤ length s → read_bytes s n ≡ some (take n s, drop n s)
  pub write_u8_lem : (w : List ℕ) (v : ℕ) → write_u8 w v ≡ w ++ v ∷ []
  pub write_u32_lem : (w : List ℕ) (v : ℕ) → write_u32 w v ≡ w ++ le_32 v
  pub write_bytes_lem : (w bytes : List ℕ) → write_bytes w bytes ≡ w ++ bytes

-- What `deserialization_result::error` says.
pub data ParseError : Type 0 where
  unknown_packet_code data_length_too_big : ℕ → ParseError
  missing_null_terminator encoded_data_too_long decoded_data_too_long : ParseError
  encoded_name_too_long decoded_name_too_long invalid_session_info : ParseError

-- `deserialization_result`, with the reader's position where the parse is complete. `fault` is the
-- undefined behaviour of reading `*` of an empty optional.
pub data ParseResult {ℓ} (A : Type ℓ) : Type ℓ where
  complete : A → List ℕ → ParseResult A
  partial : ParseResult A
  error : ParseError → ParseResult A
  fault : ParseResult A

abbrev pub and_then {ℓ κ} :
    {A : Type ℓ} {B : Type κ} → ParseResult A → (A → List ℕ → ParseResult B) → ParseResult B
and_then (complete a s) f = f a s
and_then partial f = partial
and_then (error e) f = error e
and_then fault f = fault

abbrev pub Parser {ℓ} : Type ℓ → Type ℓ
Parser A = List ℕ → ParseResult A

infixl 5 ◌>>=◌ ◌>>◌
abbrev pub ◌>>=◌ {ℓ κ} : {A : Type ℓ} {B : Type κ} → Parser A → (A → Parser B) → Parser B
◌>>=◌ m f s = and_then (m s) f

abbrev pub ◌>>◌ {ℓ} : {B : Type ℓ} → Parser (Unit {0}) → Parser B → Parser B
◌>>◌ m k s = and_then (m s) (λ _. k)

abbrev pub pure {ℓ} : {A : Type ℓ} → A → Parser A
pure a s = complete a s

abbrev pub fail {ℓ} : {A : Type ℓ} → ParseError → Parser A
fail e s = error e

-- `*reader.read…`
abbrev pub deref {ℓ} : {A : Type ℓ} → Option (A × List ℕ) → ParseResult A
deref none = fault
deref (some (a, s)) = complete a s

unfoldable pub check : Bool → ParseError → Parser (Unit {0})
check Bool.true e s = complete tt s
check Bool.false e s = error e

module _ (io : PacketIo) where
  -- `if (!reader.can_read(n)) return partial;`
  unfoldable pub need : ℕ → Parser (Unit {0})
  need n s = elim (io.can_read s n) [ Bool.true ↦ complete tt s | Bool.false ↦ partial ]

  unfoldable pub get_u8 : Parser ℕ
  get_u8 s = deref (io.read_u8 s)

  unfoldable pub get_u32 : Parser ℕ
  get_u32 s = deref (io.read_u32 s)

  unfoldable pub get_bytes : ℕ → Parser (List ℕ)
  get_bytes n s = deref (io.read_bytes s n)
