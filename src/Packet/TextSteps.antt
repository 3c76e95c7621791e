-- ===== src/Packet/TextSteps.antt =====
-- The name and the data of a packet, read back from the bytes that were written for them.
use worms2lobby_server_cpp.Base.{
  ℕ, ◌+◌, ◌-◌, ◌%◌, ◌≤◌, ◌<◌, ◌≡◌, arith, le→leb, ◌==◌, false, Option, none, some, List, [], ◌∷◌,
  ◌++◌, length, take, replicate, min, length-append, length-replicate, length-take, take-append,
  take_all, is_some,
}
use worms2lobby_server_cpp.Text.StringUtils.{from_bytes, c_string}
use worms2lobby_server_cpp.Packet.Io.{PacketIo, complete, check, le_32}
use worms2lobby_server_cpp.Packet.Rules.{need_enough}
use worms2lobby_server_cpp.Packet.Flags.{PacketFlags, has_flag}
use worms2lobby_server_cpp.Packet.Fields.{
  WormsPacket, Settings, data_length, set_data_length, encode_string, decode_string,
}
use worms2lobby_server_cpp.Packet.Write.{name_buffer}
use worms2lobby_server_cpp.Packet.Layout.{data_bytes, name_bytes}
use worms2lobby_server_cpp.Packet.Steps.{
  NoNul, c_string-zeros, from_bytes_lem, ends_with_nul-append, get_bytes-exact, value_body-le_32,
}
use worms2lobby_server_cpp.Packet.Read.{
  ends_with_nul, decode_data, decode_name, value_body, length_body, read_data_length, data_body,
  read_data, name_body, read_name,
}
use worms2lobby_server_cpp.Packet.Read

-- The packet can carry the name: the code page has its characters, and it fits both ways.
abbrev pub CanName : Settings → Option (List ℕ) → Type 0
CanName settings none = Unit {0}
CanName settings (some name) =
    NoNul (encode_string settings name)
    × (length (encode_string settings name) ≤ 20)
    × (decode_string settings (encode_string settings name) ≡ name)
    × (length name ≤ 20)

-- The packet can carry the data, with its terminator.
abbrev pub CanData : Settings → Option (List ℕ) → Type 0
CanData settings none = Unit {0}
CanData settings (some str) =
    (length (encode_string settings str) < 0x200)
    × (decode_string settings (encode_string settings str) ≡ str)
    × (length str ≤ 0x200)

name_buffer_short : (s : List ℕ) → length s ≤ 20 → name_buffer s ≡ s ++ replicate (20 - length s) 0
unfolding name_buffer
name_buffer_short s h =
    let e : min (length s) 20 ≡ length s = omega arith in
    rw (e, take_all (length s) s (omega arith))

-- The buffer of a name always has 20 bytes.
pub length-name_buffer : (s : List ℕ) → length (name_buffer s) ≡ 20
unfolding name_buffer
length-name_buffer s = omega (
  arith,
  length-append (take (min (length s) 20) s) (replicate (20 - min (length s) 20) 0),
  length-take (min (length s) 20) s,
  length-replicate {A = ℕ} (20 - min (length s) 20) 0,
)

c_string-name_buffer :
    (s : List ℕ) → NoNul s → length s ≤ 20 → from_bytes (c_string (name_buffer s)) ≡ s
c_string-name_buffer s nul h =
    rw (name_buffer_short s h, c_string-zeros (20 - length s) s nul) (from_bytes_lem s)

decode_name-buffer :
    (settings : Settings) (name rest : List ℕ)
    → CanName settings (some name)
    → decode_name settings (name_buffer (encode_string settings name)) rest ≡ complete name rest
unfolding decode_name check
decode_name-buffer settings name rest (nul, short, back, small) = rw (
  c_string-name_buffer (encode_string settings name) nul short,
  back,
  le→leb _ 20 short,
  le→leb _ 20 small,
)

init-append : (s : List ℕ) → take (length (s ++ 0 ∷ []) - 1) (s ++ 0 ∷ []) ≡ s
init-append s =
    let e : length (s ++ 0 ∷ []) - 1 ≡ length s = omega (arith, length-append s (0 ∷ [])) in
    rw e (take-append s (0 ∷ []))

decode_data-terminated :
    (settings : Settings) (str rest : List ℕ)
    → CanData settings (some str)
    → decode_data settings (encode_string settings str ++ 0 ∷ []) rest ≡ complete str rest
unfolding decode_data check
decode_data-terminated settings str rest (short, back, small) = rw (
  ends_with_nul-append (encode_string settings str),
  init-append (encode_string settings str),
  from_bytes_lem (encode_string settings str),
  back,
  le→leb (length (encode_string settings str)) 0x200 (omega arith),
  le→leb _ 0x200 small,
)

-- The packet once its length is read, and the bytes that are left of the data.
abbrev pub with_length : Settings → WormsPacket → Option (List ℕ) → WormsPacket
with_length settings packet none = packet
with_length settings packet (some str) =
    set_data_length packet (length (encode_string settings str) + 1)

abbrev pub payload : Settings → Option (List ℕ) → List ℕ
payload settings none = []
payload settings (some str) = encode_string settings str ++ 0 ∷ []

module _ (io : PacketIo) (settings : Settings) (flags : ℕ) where
  pub read_name-bytes :
      (name : Option (List ℕ))
      → CanName settings name
      → has_flag flags PacketFlags.name ≡ is_some name
      → (rest : List ℕ)
      → read_name io settings flags (name_bytes settings name ++ rest) ≡ complete name rest
  unfolding read_name name_body
  read_name-bytes none c e rest = rw e
  read_name-bytes (some name) c e rest =
      let buffer = name_buffer (encode_string settings name) in
      let len : length buffer ≡ 20 = length-name_buffer (encode_string settings name) in
      rw (
        e,
        need_enough io 20 (buffer ++ rest) (omega (arith, length-append buffer rest)),
        get_bytes-exact io buffer 20 len rest,
        decode_name-buffer settings name rest c,
      )

  length_body-le_32 :
      (len : ℕ)
      → len ≤ 0x200
      → (rest : List ℕ) → length_body io (le_32 (len % 0x1_0000_0000) ++ rest) ≡ complete len rest
  unfolding length_body check
  length_body-le_32 len h rest =
      let e : len % 0x1_0000_0000 ≡ len = omega arith in
      rw (e, value_body-le_32 io len (omega arith) rest, le→leb len 0x200 h)

  data_body-payload :
      (str : List ℕ)
      → CanData settings (some str)
      → (rest : List ℕ)
      → data_body io settings
          (length (encode_string settings str) + 1)
          (payload settings (some str) ++ rest)
        ≡ complete str rest
  unfolding data_body Read.data_bytes
  data_body-payload str c rest =
      let enc = encode_string settings str in
      let len : length (enc ++ 0 ∷ []) ≡ length enc + 1 = length-append enc (0 ∷ []) in
      let ne : (length enc + 1 == 0) ≡ false = ground arith in
      rw (
        need_enough io (length enc + 1) ((enc ++ 0 ∷ []) ++ rest)
            (omega (arith, length-append (enc ++ 0 ∷ []) rest)),
        ne,
        get_bytes-exact io (enc ++ 0 ∷ []) (length enc + 1) len rest,
        decode_data-terminated settings str rest c,
      )

  pub read_data_length-bytes :
      (packet : WormsPacket) (content : Option (List ℕ))
      → CanData settings content
      → has_flag flags PacketFlags.data_length ≡ is_some content
      → (rest : List ℕ)
      → read_data_length io flags packet (data_bytes settings content ++ rest)
        ≡ complete (with_length settings packet content) (payload settings content ++ rest)
  unfolding read_data_length length_body check
  read_data_length-bytes packet none c e rest = rw e
  read_data_length-bytes packet (some str) c e rest =
      let m : length (encode_string settings str) < 0x200 = c.0 in
      rw (e, length_body-le_32 (length (encode_string settings str) + 1) (omega arith))

  pub read_data-payload :
      (packet : WormsPacket) (content : Option (List ℕ))
      → CanData settings content
      → has_flag flags PacketFlags.content ≡ is_some content
      → (rest : List ℕ)
      → read_data io settings flags
          (with_length settings packet content)
          (payload settings content ++ rest)
        ≡ complete content rest
  unfolding read_data data_body Read.data_bytes data_length set_data_length
  read_data-payload packet none c e rest = rw e
  read_data-payload packet (some str) c e rest =
      let m : length (encode_string settings str) < 0x200 = c.0 in
      let l : (length (encode_string settings str) + 1) % 0x1_0000_0000
          ≡ length (encode_string settings str) + 1 =
        omega arith in
      rw (e, l, data_body-payload str c rest)
