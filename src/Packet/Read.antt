-- ===== src/Packet/Read.antt =====
-- src/worms_packet.cpp: `WormsPacket::readFrom`.
use worms2lobby_server_cpp.Base.{
  ℕ, ◌-◌, leb, ◌==◌, Bool, false, if◌then◌else◌, Option, none, some, List, [], ◌∷◌, length, take,
}
use worms2lobby_server_cpp.Text.StringUtils.{from_bytes, c_string}
use worms2lobby_server_cpp.Packet.Io.{
  PacketIo, Parser, ◌>>=◌, ◌>>◌, pure, check, need, get_u32, get_bytes, unknown_packet_code,
  data_length_too_big, missing_null_terminator, encoded_data_too_long, decoded_data_too_long,
  encoded_name_too_long, decoded_name_too_long,
}
use worms2lobby_server_cpp.Packet.Code.{PacketCode, packet_code_exists, code_of_value}
use worms2lobby_server_cpp.Packet.Flags.{PacketFlags, has_flag}
use worms2lobby_server_cpp.Packet.SessionInfo
use worms2lobby_server_cpp.Packet.SessionInfo.{SessionInfo}
use worms2lobby_server_cpp.Packet.Fields.{
  WormsPacket, no_fields, new_packet, data_length, set_data_length, Settings, decode_string,
  max_data_length, max_name_length,
}

-- `!bytes.empty() && bytes.back() == 0`
unfoldable pub ends_with_nul : List ℕ → Bool
ends_with_nul [] = false
ends_with_nul (b ∷ []) = b == 0
ends_with_nul (b ∷ c ∷ bytes) = ends_with_nul (c ∷ bytes)

-- `if (HasFlag(flags, flag)) { field = …; }`
abbrev pub when_flag : {A : Type 0} → ℕ → PacketFlags → Parser A → Parser (Option A)
when_flag flags flag body = if has_flag flags flag then (body >>= λ v. pure (some v)) else pure none

-- The bytes of the data field, the terminator included.
unfoldable pub decode_data : Settings → List ℕ → Parser (List ℕ)
decode_data settings bytes = do
  check (ends_with_nul bytes) missing_null_terminator
  let encoded = from_bytes (take (length bytes - 1) bytes)
  check (leb (length encoded) max_data_length) encoded_data_too_long
  let decoded = decode_string settings encoded
  check (leb (length decoded) max_data_length) decoded_data_too_long
  pure decoded

-- The name's bytes up to the first zero, or all of them.
unfoldable pub decode_name : Settings → List ℕ → Parser (List ℕ)
decode_name settings bytes = do
  let encoded = from_bytes (c_string bytes)
  check (leb (length encoded) max_name_length) encoded_name_too_long
  let decoded = decode_string settings encoded
  check (leb (length decoded) max_name_length) decoded_name_too_long
  pure decoded

module _ (io : PacketIo) where
  unfoldable pub value_body : Parser ℕ
  value_body = do need io 4; get_u32 io

  -- One of the blocks that read a 32-bit value.
  unfoldable pub read_value : ℕ → PacketFlags → Parser (Option ℕ)
  unfolding value_body
  read_value flags flag = when_flag flags flag value_body

  unfoldable pub length_body : Parser ℕ
  unfolding value_body
  length_body = do
    len ← value_body
    check (leb len max_data_length) (data_length_too_big len)
    pure len

  -- The packet keeps its length and its flag.
  unfoldable pub read_data_length : ℕ → WormsPacket → Parser WormsPacket
  unfolding length_body
  read_data_length flags packet =
      if has_flag flags PacketFlags.data_length
      then (length_body >>= λ len. pure (set_data_length packet len))
      else pure packet

  unfoldable pub data_bytes : Settings → ℕ → Parser (List ℕ)
  unfolding decode_data
  data_bytes settings len =
      if len == 0 then pure [] else (get_bytes io len >>= decode_data settings)

  unfoldable pub data_body : Settings → ℕ → Parser (List ℕ)
  unfolding data_bytes
  data_body settings len = do need io len; data_bytes settings len

  unfoldable pub read_data : Settings → ℕ → WormsPacket → Parser (Option (List ℕ))
  unfolding data_body
  read_data settings flags packet =
      when_flag flags PacketFlags.content (data_body settings (data_length packet))

  unfoldable pub name_body : Settings → Parser (List ℕ)
  unfolding decode_name
  name_body settings = do
    need io max_name_length
    bytes ← get_bytes io max_name_length
    decode_name settings bytes

  unfoldable pub read_name : Settings → ℕ → Parser (Option (List ℕ))
  unfolding name_body
  read_name settings flags = when_flag flags PacketFlags.name (name_body settings)

  unfoldable pub info_body : Settings → Parser SessionInfo
  info_body settings = do
    need io 50
    info ← SessionInfo.read_from io settings.little_endian
    pure (record info { game_release = 49 })

  unfoldable pub read_info : Settings → ℕ → Parser (Option SessionInfo)
  unfolding info_body
  read_info settings flags = when_flag flags PacketFlags.session_info (info_body settings)

module _ (io : PacketIo) (settings : Settings) where
  -- The body of the packet, after its code and its flags.
  unfoldable pub read_fields : PacketCode → ℕ → Parser WormsPacket
  unfolding read_value read_data_length read_data read_name read_info
  read_fields code flags = do
    value0 ← read_value io flags PacketFlags.value0
    value1 ← read_value io flags PacketFlags.value1
    value2 ← read_value io flags PacketFlags.value2
    value3 ← read_value io flags PacketFlags.value3
    value4 ← read_value io flags PacketFlags.value4
    value10 ← read_value io flags PacketFlags.value10
    packet ← read_data_length io flags (
        new_packet code (record no_fields {
          value0 = value0;
          value1 = value1;
          value2 = value2;
          value3 = value3;
          value4 = value4;
          value10 = value10;
        }))
    content ← read_data io settings flags packet
    error ← read_value io flags PacketFlags.error
    name ← read_name io settings flags
    info ← read_info io settings flags
    pure (record packet {
      fields = record packet.fields { content = content; error = error; name = name; info = info };
    })

  unfoldable pub read_from : Parser WormsPacket
  unfolding read_fields
  read_from = do
    need io 8
    code_value ← get_u32 io
    check (packet_code_exists code_value) (unknown_packet_code code_value)
    flags ← get_u32 io
    read_fields (code_of_value code_value) flags
