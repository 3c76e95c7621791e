-- ===== src/Packet/Layout.antt =====
-- The bytes of a packet, as one expression: what src/worms_packet.cpp and src/session_info.cpp write.
use worms2lobby_server_cpp.Base.{
  ℕ, ◌+◌, ◌%◌, ◌≡◌, Option, none, some, List, [], ◌∷◌, ◌++◌, length, append-nil, append_assoc,
}
use worms2lobby_server_cpp.Packet.Io.{PacketIo, le_32}
use worms2lobby_server_cpp.Packet.Code.{PacketCode, code_value}
use worms2lobby_server_cpp.Packet.SessionInfo
use worms2lobby_server_cpp.Packet.SessionInfo.{SessionInfo}
use worms2lobby_server_cpp.Packet.Fields.{
  PacketFields, new_packet, get_flags_from_fields, Settings, encode_string,
}
use worms2lobby_server_cpp.Packet.Write.{
  write_value, write_data, name_buffer, write_name, write_info, write_to, freeze,
}

abbrev pub info_bytes : SessionInfo → List ℕ
info_bytes i =
    le_32 i.crc1
    ++ (le_32 i.crc2
        ++ (i.player_nation ∷ i.game_version ∷ i.game_release ∷ i.kind ∷ i.access ∷ i.always_one
            ∷ i.always_zero ∷ i.padding))

abbrev pub value_bytes : Option ℕ → List ℕ
value_bytes none = []
value_bytes (some v) = le_32 v

abbrev pub data_bytes : Settings → Option (List ℕ) → List ℕ
data_bytes settings none = []
data_bytes settings (some str) =
    le_32 ((length (encode_string settings str) + 1) % 0x1_0000_0000)
    ++ (encode_string settings str ++ 0 ∷ [])

abbrev pub name_bytes : Settings → Option (List ℕ) → List ℕ
name_bytes settings none = []
name_bytes settings (some name) = name_buffer (encode_string settings name)

abbrev pub optional_info_bytes : Option SessionInfo → List ℕ
optional_info_bytes none = []
optional_info_bytes (some info) = info_bytes info

abbrev pub fields_bytes : Settings → PacketFields → List ℕ
fields_bytes settings f =
    value_bytes f.value0
    ++ (value_bytes f.value1
        ++ (value_bytes f.value2
            ++ (value_bytes f.value3
                ++ (value_bytes f.value4
                    ++ (value_bytes f.value10
                        ++ (data_bytes settings f.content
                            ++ (value_bytes f.error
                                ++ (name_bytes settings f.name ++ optional_info_bytes f.info))))))))

abbrev pub layout : Settings → PacketCode → PacketFields → List ℕ
layout settings code fields =
    le_32 (code_value code)
    ++ (le_32 (get_flags_from_fields fields) ++ fields_bytes settings fields)

module _ (io : PacketIo) where
  session_info_write :
      (i : SessionInfo) (w : List ℕ) → SessionInfo.write_to io i w ≡ w ++ info_bytes i
  unfolding SessionInfo.write_to
  session_info_write i w =
      simp (io.write_u32_lem, io.write_u8_lem, io.write_bytes_lem, append_assoc)

  write_value-bytes : (v : Option ℕ) (w : List ℕ) → write_value io v w ≡ w ++ value_bytes v
  unfolding write_value
  write_value-bytes none w = simp append-nil
  write_value-bytes (some v) w = io.write_u32_lem w v

  module _ (settings : Settings) where
    write_data-bytes :
        (d : Option (List ℕ)) (w : List ℕ) → write_data io settings d w ≡ w ++ data_bytes settings d
    unfolding write_data
    write_data-bytes none w = simp append-nil
    write_data-bytes (some str) w =
        simp (io.write_u32_lem, io.write_u8_lem, io.write_bytes_lem, append_assoc)

    write_name-bytes :
        (d : Option (List ℕ)) (w : List ℕ) → write_name io settings d w ≡ w ++ name_bytes settings d
    unfolding write_name
    write_name-bytes none w = simp append-nil
    write_name-bytes (some name) w = io.write_bytes_lem w _

  write_info-bytes :
      (i : Option SessionInfo) (w : List ℕ) → write_info io i w ≡ w ++ optional_info_bytes i
  unfolding write_info
  write_info-bytes none w = simp append-nil
  write_info-bytes (some i) w = session_info_write i w

  -- A frozen packet is its code, its flags and its fields, in that order.
  pub freeze-layout :
      (settings : Settings) (code : PacketCode) (fields : PacketFields)
      → freeze io settings code fields ≡ layout settings code fields
  unfolding freeze write_to new_packet
  freeze-layout settings code fields = simp (
    write_value-bytes, write_data-bytes, write_name-bytes, write_info-bytes, io.write_u32_lem,
    append_assoc,
  )
