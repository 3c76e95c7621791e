-- ===== src/Tests/PacketRuns.antt =====
-- The wire format on concrete packets.
use worms2lobby_server_cpp.Base.{◌≡◌, ◌≢◌, refl, arith, [], ◌∷◌, ◌++◌, replicate}
use worms2lobby_server_cpp.Text.Utf8.{utf8_to_codepoint, append_utf8}
use worms2lobby_server_cpp.Text.CodePage.{encode_loop, encode_with, decode_loop, decode_with}
use worms2lobby_server_cpp.Text.Windows1251
use worms2lobby_server_cpp.Text.Windows1251.{unicode_to_windows_1251, windows_1251_to_unicode}
use worms2lobby_server_cpp.Packet.Io.{complete, partial, fault}
use worms2lobby_server_cpp.Packet.Code.{PacketCode, packet_code_exists}
use worms2lobby_server_cpp.Packet.SessionInfo
use worms2lobby_server_cpp.Packet.SessionInfo.{SessionInfo, verify_session_info}
use worms2lobby_server_cpp.Packet.Fields.{encode_string, decode_string, get_flags_from_fields}
use worms2lobby_server_cpp.Packet.Write.{freeze}
use worms2lobby_server_cpp.Packet.Read.{read_from}
use worms2lobby_server_cpp.Packet.Layout.{layout, freeze-layout}
use worms2lobby_server_cpp.Packet.FlagTable.{Describes, get_flags_from_fields-Describes}
use worms2lobby_server_cpp.Packet.Safety.{read_from-ne-fault, read_from-ne-partial}
use worms2lobby_server_cpp.Packet.RoundTrip.{CanSend, received, read_from-freeze}
use worms2lobby_server_cpp.Tests.Samples.{sample_io, sample_settings, room_fields}

can_send : CanSend sample_settings room_fields
unfolding encode_string decode_string Windows1251.encode Windows1251.decode encode_with encode_loop
    decode_with decode_loop unicode_to_windows_1251 windows_1251_to_unicode utf8_to_codepoint
    append_utf8 SessionInfo.new verify_session_info
can_send = record {
  u32_value0 = tt;
  u32_value1 = omega arith;
  u32_value2 = tt;
  u32_value3 = tt;
  u32_value4 = omega arith;
  u32_value10 = tt;
  u32_error = tt;
  no_bare_length = refl;
  can_content = (omega arith, refl, omega arith);
  can_name = ((refl, (refl, (refl, tt))), omega arith, refl, omega arith);
  can_info = (refl, omega arith, omega arith, refl);
}

read_from-freeze_example :
    read_from sample_io sample_settings
      (freeze sample_io sample_settings PacketCode.create_room room_fields ++ 1 ∷ [])
    ≡ complete (received sample_settings PacketCode.create_room room_fields) (1 ∷ [])
unfolding packet_code_exists
read_from-freeze_example =
    read_from-freeze sample_io sample_settings PacketCode.create_room room_fields (1 ∷ []) refl
      can_send

-- A packet that is cut off.
read_from-ne-fault_example :
    read_from sample_io sample_settings (88 ∷ 2 ∷ 0 ∷ 0 ∷ 1 ∷ 0 ∷ 0 ∷ 0 ∷ 5 ∷ []) ≢ fault
read_from-ne-fault_example =
    read_from-ne-fault sample_io sample_settings (88 ∷ 2 ∷ 0 ∷ 0 ∷ 1 ∷ 0 ∷ 0 ∷ 0 ∷ 5 ∷ [])

read_from-ne-partial_example : read_from sample_io sample_settings (replicate 622 255) ≢ partial
read_from-ne-partial_example =
    read_from-ne-partial sample_io sample_settings (replicate 622 255) (omega arith)

freeze-layout_example :
    freeze sample_io sample_settings PacketCode.create_room room_fields
    ≡ layout sample_settings PacketCode.create_room room_fields
freeze-layout_example = freeze-layout sample_io sample_settings PacketCode.create_room room_fields

get_flags_from_fields-Describes_example : Describes (get_flags_from_fields room_fields) room_fields
get_flags_from_fields-Describes_example = get_flags_from_fields-Describes room_fields
