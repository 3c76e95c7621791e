-- ===== src/Packet/Write.antt =====
-- src/worms_packet.cpp: `WormsPacket::writeTo` and `WormsPacket::freeze`.
use worms2lobby_server_cpp.Base.{
  ℕ, ◌+◌, ◌-◌, ◌%◌, Option, none, some, List, [], ◌++◌, length, take, replicate, min,
}
use worms2lobby_server_cpp.Packet.Io.{PacketIo}
use worms2lobby_server_cpp.Packet.Code.{PacketCode, code_value}
use worms2lobby_server_cpp.Packet.SessionInfo
use worms2lobby_server_cpp.Packet.SessionInfo.{SessionInfo}
use worms2lobby_server_cpp.Packet.Fields.{
  PacketFields, WormsPacket, new_packet, get_flags_from_fields, Settings, encode_string,
  max_name_length,
}

-- `if (fields_.value) { writer.write_le(*fields_.value); }`
unfoldable pub write_value : PacketIo → Option ℕ → List ℕ → List ℕ
write_value io none writer = writer
write_value io (some v) writer = io.write_u32 writer v

unfoldable pub write_data : PacketIo → Settings → Option (List ℕ) → List ℕ → List ℕ
write_data io settings none writer = writer
write_data io settings (some str) writer =
    let encoded = encode_string settings str in
    let w = io.write_u32 writer ((length encoded + 1) % 0x1_0000_0000) in
    io.write_u8 (io.write_bytes w encoded) 0

-- The name's bytes over a buffer of zeros.
unfoldable pub name_buffer : List ℕ → List ℕ
name_buffer encoded =
    let len = min (length encoded) max_name_length in
    take len encoded ++ replicate (max_name_length - len) 0

unfoldable pub write_name : PacketIo → Settings → Option (List ℕ) → List ℕ → List ℕ
write_name io settings none writer = writer
write_name io settings (some name) writer =
    io.write_bytes writer (name_buffer (encode_string settings name))

unfoldable pub write_info : PacketIo → Option SessionInfo → List ℕ → List ℕ
write_info io none writer = writer
write_info io (some info) writer = SessionInfo.write_to io info writer

unfoldable pub write_to : PacketIo → Settings → WormsPacket → List ℕ → List ℕ
unfolding write_value write_data write_name write_info
write_to io settings packet writer =
    let f = packet.fields in
    let w = io.write_u32 writer (code_value packet.code) in
    let w = io.write_u32 w (get_flags_from_fields f) in
    let w = write_value io f.value0 w in
    let w = write_value io f.value1 w in
    let w = write_value io f.value2 w in
    let w = write_value io f.value3 w in
    let w = write_value io f.value4 w in
    let w = write_value io f.value10 w in
    let w = write_data io settings f.content w in
    let w = write_value io f.error w in
    let w = write_name io settings f.name w in write_info io f.info w

-- A frozen packet is the bytes that the writer holds.
unfoldable pub freeze : PacketIo → Settings → PacketCode → PacketFields → List ℕ
unfolding write_to new_packet
freeze io settings code fields = write_to io settings (new_packet code fields) []
