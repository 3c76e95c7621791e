-- ===== src/Packet/RoundTrip.antt =====
-- `WormsPacket::readFrom` on what `WormsPacket::freeze` wrote.
use worms2lobby_server_cpp.Base.{
  ℕ, ◌<◌, ◌≡◌, ◌∙◌, arith, true, ◌||◌, List, ◌++◌, append_assoc, is_some,
}
use worms2lobby_server_cpp.Packet.Io.{PacketIo, complete, check, le_32}
use worms2lobby_server_cpp.Packet.Rules.{need_enough}
use worms2lobby_server_cpp.Packet.Code.{
  PacketCode, code_value, packet_code_exists, code_of_value, code_of_value-code_value,
  code_value-lt,
}
use worms2lobby_server_cpp.Packet.Flags.{PacketFlags}
use worms2lobby_server_cpp.Packet.FlagTable.{
  Describes, get_flags_from_fields-Describes, get_flags_from_fields-lt,
}
use worms2lobby_server_cpp.Packet.Fields.{
  PacketFields, WormsPacket, no_fields, new_packet, get_flags_from_fields, Settings,
}
use worms2lobby_server_cpp.Packet.Write.{freeze}
use worms2lobby_server_cpp.Packet.Layout.{fields_bytes, freeze-layout}
use worms2lobby_server_cpp.Packet.Steps.{
  IsU32, get_u32-le_32, read_value-bytes, CanRead, seen_info, read_info-bytes,
}
use worms2lobby_server_cpp.Packet.TextSteps.{
  CanName, CanData, with_length, read_data_length-bytes, read_data-payload, read_name-bytes,
}
use worms2lobby_server_cpp.Packet.Read.{read_fields, read_from}

-- The fields that a packet can carry: numbers of 32 bits, a length only with data, texts that the
-- code page has and that fit, and a session info that passes the reader's check.
pub record CanSend (settings : Settings) (f : PacketFields) : Type 0 where
  pub u32_value0 : IsU32 f.value0
  pub u32_value1 : IsU32 f.value1
  pub u32_value2 : IsU32 f.value2
  pub u32_value3 : IsU32 f.value3
  pub u32_value4 : IsU32 f.value4
  pub u32_value10 : IsU32 f.value10
  pub u32_error : IsU32 f.error
  pub no_bare_length : (is_some f.data_length || is_some f.content) ≡ is_some f.content
  pub can_content : CanData settings f.content
  pub can_name : CanName settings f.name
  pub can_info : CanRead settings f.info

-- What the reader makes of the fields: it fills in the length of the data, the flag of that length,
-- and the game release 49.
abbrev pub values : PacketCode → PacketFields → WormsPacket
values code f = new_packet code (record no_fields {
  value0 = f.value0;
  value1 = f.value1;
  value2 = f.value2;
  value3 = f.value3;
  value4 = f.value4;
  value10 = f.value10;
})

abbrev pub received : Settings → PacketCode → PacketFields → WormsPacket
received settings code f =
    let packet = with_length settings (values code f) f.content in
    record packet {
      fields = record packet.fields {
        content = f.content;
        error = f.error;
        name = f.name;
        info = seen_info f.info;
      };
    }

module _ (io : PacketIo) (settings : Settings) where
  read_fields-bytes :
      (code : PacketCode) (flags : ℕ) (f : PacketFields)
      → CanSend settings f
      → Describes flags f
      → (rest : List ℕ)
      → read_fields io settings code flags (fields_bytes settings f ++ rest)
        ≡ complete (received settings code f) rest
  unfolding read_fields
  read_fields-bytes code flags f c d rest = simp append_assoc (
      rw (
        read_value-bytes io flags PacketFlags.value0 f.value0 c.u32_value0 d.on_value0,
        read_value-bytes io flags PacketFlags.value1 f.value1 c.u32_value1 d.on_value1,
        read_value-bytes io flags PacketFlags.value2 f.value2 c.u32_value2 d.on_value2,
        read_value-bytes io flags PacketFlags.value3 f.value3 c.u32_value3 d.on_value3,
        read_value-bytes io flags PacketFlags.value4 f.value4 c.u32_value4 d.on_value4,
        read_value-bytes io flags PacketFlags.value10 f.value10 c.u32_value10 d.on_value10,
        read_data_length-bytes io settings flags (values code f) f.content c.can_content
            (d.on_data_length ∙ c.no_bare_length),
        read_data-payload io settings flags (values code f) f.content c.can_content d.on_content,
        read_value-bytes io flags PacketFlags.error f.error c.u32_error d.on_error,
        read_name-bytes io settings flags f.name c.can_name d.on_name,
        read_info-bytes io settings flags f.info c.can_info d.on_info,
      ))

  -- The code and the flags are taken off, and the rest is left to the fields.
  read_from_header :
      (code flags : ℕ) (body : List ℕ)
      → code < 0x1_0000_0000
      → flags < 0x1_0000_0000
      → packet_code_exists code ≡ true
      → read_from io settings (le_32 code ++ (le_32 flags ++ body))
        ≡ read_fields io settings (code_of_value code) flags body
  unfolding read_from check
  read_from_header code flags body h g k = rw (
    need_enough io 8 (le_32 code ++ (le_32 flags ++ body)) (omega arith),
    get_u32-le_32 io code h,
    k,
    get_u32-le_32 io flags g,
  )

  -- Every packet of a client's code that can be sent is read back, whatever bytes follow it, which
  -- the reader leaves.
  pub read_from-freeze :
      (code : PacketCode) (f : PacketFields) (rest : List ℕ)
      → packet_code_exists (code_value code) ≡ true
      → CanSend settings f
      → read_from io settings (freeze io settings code f ++ rest)
        ≡ complete (received settings code f) rest
  read_from-freeze code f rest k c =
      let small : get_flags_from_fields f < 0x800 = get_flags_from_fields-lt f in
      let short : code_value code < 0x1_0000 = code_value-lt code in
      rw (freeze-layout, append_assoc, append_assoc)
        (read_from_header (code_value code) (get_flags_from_fields f) _ (omega arith) (omega arith)
            k
          ∙ rw (code_of_value-code_value code k)
              (read_fields-bytes code _ f c (get_flags_from_fields-Describes f) rest))
