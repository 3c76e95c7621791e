-- ===== src/Packet/Fields.antt =====
-- include/worms_packet.hpp: the fields of a packet, its flags and the choice of the code page.
use worms2lobby_server_cpp.Base.{
  ℕ, ◌||◌, ◌%◌, Bool, if◌then◌else◌, Option, none, some, List, bit_or, is_some, value_or,
}
use worms2lobby_server_cpp.Packet.Code.{PacketCode}
use worms2lobby_server_cpp.Packet.Flags.{PacketFlags, set_flag, flag_value}
use worms2lobby_server_cpp.Packet.SessionInfo.{SessionInfo}
use worms2lobby_server_cpp.Text.Windows1251
use worms2lobby_server_cpp.Text.Windows1252

abbrev pub max_data_length : ℕ
max_data_length = 0x200

abbrev pub max_name_length : ℕ
max_name_length = 20

pub record PacketFields : Type 0 where
  pub value0 : Option ℕ
  pub value1 : Option ℕ
  pub value2 : Option ℕ
  pub value3 : Option ℕ
  pub value4 : Option ℕ
  pub value10 : Option ℕ
  pub data_length : Option ℕ
  pub name : Option (List ℕ)
  pub content : Option (List ℕ)
  pub info : Option SessionInfo
  pub error : Option ℕ

-- `PacketFields fields = {}`
abbrev pub no_fields : PacketFields
no_fields = record {
  value0 = none;
  value1 = none;
  value2 = none;
  value3 = none;
  value4 = none;
  value10 = none;
  data_length = none;
  name = none;
  content = none;
  info = none;
  error = none;
}

pub record WormsPacket : Type 0 where
  pub code : PacketCode
  pub flags : ℕ
  pub fields : PacketFields

unfoldable pub new_packet : PacketCode → PacketFields → WormsPacket
new_packet code fields = record { code = code; flags = 0; fields = fields }

unfoldable pub data_length : WormsPacket → ℕ
data_length packet = value_or packet.fields.data_length 0

unfoldable pub set_data_length : WormsPacket → ℕ → WormsPacket
set_data_length packet len = record packet {
  flags = bit_or packet.flags (flag_value PacketFlags.data_length);
  fields = record packet.fields { data_length = some (len % 0x1_0000_0000) };
}

unfoldable pub get_flags_from_fields : PacketFields → ℕ
get_flags_from_fields f =
    let flags = set_flag (is_some f.value0) PacketFlags.value0 0 in
    let flags = set_flag (is_some f.value1) PacketFlags.value1 flags in
    let flags = set_flag (is_some f.value2) PacketFlags.value2 flags in
    let flags = set_flag (is_some f.value3) PacketFlags.value3 flags in
    let flags = set_flag (is_some f.value4) PacketFlags.value4 flags in
    let flags = set_flag (is_some f.value10) PacketFlags.value10 flags in
    let flags =
      set_flag (is_some f.data_length || is_some f.content) PacketFlags.data_length flags in
    let flags = set_flag (is_some f.content) PacketFlags.content flags in
    let flags = set_flag (is_some f.error) PacketFlags.error flags in
    let flags = set_flag (is_some f.name) PacketFlags.name flags in
    set_flag (is_some f.info) PacketFlags.session_info flags

-- What the build and the process choose: `useWindows1252Encoding`, and the byte order of the host.
pub record Settings : Type 0 where
  pub use_windows_1252 : Bool
  pub little_endian : Bool

unfoldable pub encode_string : Settings → List ℕ → List ℕ
encode_string settings input =
    if settings.use_windows_1252 then Windows1252.encode input else Windows1251.encode input

unfoldable pub decode_string : Settings → List ℕ → List ℕ
decode_string settings input =
    if settings.use_windows_1252 then Windows1252.decode input else Windows1251.decode input
