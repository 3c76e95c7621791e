-- ===== src/Packet/Safety.antt =====
-- `WormsPacket::readFrom` and `SessionInfo::readFrom` on any bytes.
use worms2lobby_server_cpp.Base.{
  ℕ, ◌≤◌, ◌<◌, ◌≡◌, ◌≢◌, refl, subst, arith, leb→le, ◌==◌, ==_iff, Bool, true, false, if◌then◌else◌,
  none, some, List, length, Bool-cases, inl, inr,
}
use worms2lobby_server_cpp.Packet.Io.{PacketIo, partial, fault, Parser, ◌>>=◌, pure}
use worms2lobby_server_cpp.Packet.Rules.{
  Takes, Fitting, Fits, Any, Takes-bind, Fits-bind, Fits-then, Takes-then, After-bind, After-check,
  After-here, need-After, Fits-mono, Fits-check, Takes-verdict, Takes-check, get_u8-Takes,
  get_u32-Takes, get_bytes-Takes, need-Fits,
}
use worms2lobby_server_cpp.Packet.Code.{PacketCode}
use worms2lobby_server_cpp.Packet.Flags.{PacketFlags, has_flag}
use worms2lobby_server_cpp.Packet.SessionInfo
use worms2lobby_server_cpp.Packet.Fields.{
  WormsPacket, Settings, data_length, set_data_length, new_packet,
}
use worms2lobby_server_cpp.Packet.Read.{
  when_flag, decode_data, decode_name, value_body, read_value, length_body, read_data_length,
  data_bytes, data_body, read_data, name_body, read_name, info_body, read_info, read_fields,
  read_from,
}

by_flag :
    {A : Type 0} (b : Bool) (n : ℕ) (p : Parser A)
    → Fits Any n p
    → Fits Any n (if b then (p >>= λ v. pure (some v)) else pure none)
by_flag true n p h s = Fits-then Any Any n p _ h (λ a _ t. (tt, omega arith)) s
by_flag false n p h s = (tt, omega arith)

module _ (io : PacketIo) where
  session_info-Takes : (little_endian : Bool) → Takes 50 (SessionInfo.read_from io little_endian)
  unfolding SessionInfo.read_from
  session_info-Takes little_endian = Takes-bind 4 46 _ _ (get_u32-Takes io) λ crc1.
      Takes-bind 4 42 _ _ (get_u32-Takes io) λ crc2. Takes-bind 1 41 _ _ (get_u8-Takes io) λ nation.
        Takes-bind 1 40 _ _ (get_u8-Takes io) λ version.
          Takes-bind 1 39 _ _ (get_u8-Takes io) λ release.
            Takes-bind 1 38 _ _ (get_u8-Takes io) λ kind.
              Takes-bind 1 37 _ _ (get_u8-Takes io) λ access.
                Takes-bind 1 36 _ _ (get_u8-Takes io) λ one.
                  Takes-bind 1 35 _ _ (get_u8-Takes io) λ zero.
                    Takes-bind 35 0 _ _ (get_bytes-Takes io 35) λ padding. Takes-verdict _ _ _

  decode_data-Takes : (settings : Settings) (bytes : List ℕ) → Takes 0 (decode_data settings bytes)
  unfolding decode_data
  decode_data-Takes settings bytes =
      Takes-check 0 _ _ _ (Takes-check 0 _ _ _ (Takes-check 0 _ _ _ (λ s b. omega arith)))

  decode_name-Takes : (settings : Settings) (bytes : List ℕ) → Takes 0 (decode_name settings bytes)
  unfolding decode_name
  decode_name-Takes settings bytes = Takes-check 0 _ _ _ (Takes-check 0 _ _ _ (λ s b. omega arith))

  data_bytes-Takes : (settings : Settings) (len : ℕ) → Takes len (data_bytes io settings len)
  unfolding data_bytes
  data_bytes-Takes settings len s b = elim (Bool-cases (len == 0)) [
    | inl e ↦ let z : len ≡ 0 = (==_iff len 0).0 e in rw e (omega arith)
    | inr e ↦ rw e (Takes-then len _ _ (get_bytes-Takes io len) (decode_data-Takes settings) s b)
  ]

  data_body-Fits : (settings : Settings) (len : ℕ) → Fits Any len (data_body io settings len)
  unfolding data_body
  data_body-Fits settings len = need-Fits io len _ (data_bytes-Takes settings len)

  value_body-Fits : Fits Any 4 (value_body io)
  unfolding value_body
  value_body-Fits = need-Fits io 4 _ (get_u32-Takes io)

  length_body-Fits : Fits (λ len. len ≤ 0x200) 4 (length_body io)
  unfolding length_body
  length_body-Fits =
      Fits-bind Any (λ len. len ≤ 0x200) 4 0 _ _ value_body-Fits
        λ len _. Fits-check (λ len. len ≤ 0x200) 0 _ _ _ λ h s. (leb→le _ _ h, omega arith)

  name_body-Fits : (settings : Settings) → Fits Any 20 (name_body io settings)
  unfolding name_body
  name_body-Fits settings =
      need-Fits io 20 _ (Takes-bind 20 0 _ _ (get_bytes-Takes io 20) (decode_name-Takes settings))

  info_body-Fits : (settings : Settings) → Fits Any 50 (info_body io settings)
  unfolding info_body
  info_body-Fits settings =
      need-Fits io 50 _
        (Takes-bind 50 0 _ _ (session_info-Takes settings.little_endian) (λ info s b. omega arith))

  when_flag-Fits :
      {A : Type 0} (n flags : ℕ) (flag : PacketFlags) (p : Parser A)
      → Fits Any n p
      → Fits Any n (when_flag flags flag p)
  when_flag-Fits n flags flag p h s = by_flag (has_flag flags flag) n p h s

  read_value-Fits : (flags : ℕ) (flag : PacketFlags) → Fits Any 4 (read_value io flags flag)
  unfolding read_value
  read_value-Fits flags flag = when_flag-Fits 4 flags flag (value_body io) value_body-Fits

  read_data_length-Fits :
      (flags : ℕ) (packet : WormsPacket)
      → data_length packet ≡ 0
      → Fits (λ q. data_length q ≤ 0x200) 4 (read_data_length io flags packet)
  unfolding read_data_length data_length set_data_length
  read_data_length-Fits flags packet h s =
      elim (Bool-cases (has_flag flags PacketFlags.data_length)) [
        | inl e ↦ rw e (
            Fits-then (λ len. len ≤ 0x200) (λ q. data_length q ≤ 0x200) 4 _ _ length_body-Fits
              (λ len b t. (omega arith, omega arith)) s)
        | inr e ↦ rw e (omega arith, omega arith)
      ]

  read_data-Fits :
      (settings : Settings) (flags : ℕ) (packet : WormsPacket)
      → Fits Any (data_length packet) (read_data io settings flags packet)
  unfolding read_data
  read_data-Fits settings flags packet =
      when_flag-Fits _ flags PacketFlags.content _ (data_body-Fits settings (data_length packet))

  read_name-Fits : (settings : Settings) (flags : ℕ) → Fits Any 20 (read_name io settings flags)
  unfolding read_name
  read_name-Fits settings flags =
      when_flag-Fits 20 flags PacketFlags.name _ (name_body-Fits settings)

  read_info-Fits : (settings : Settings) (flags : ℕ) → Fits Any 50 (read_info io settings flags)
  unfolding read_info
  read_info-Fits settings flags =
      when_flag-Fits 50 flags PacketFlags.session_info _ (info_body-Fits settings)

  -- The longest packet: 614 bytes after its code and its flags.
  read_fields-Fits :
      (settings : Settings) (code : PacketCode) (flags : ℕ)
      → Fits Any 614 (read_fields io settings code flags)
  unfolding read_fields data_length new_packet
  read_fields-Fits settings code flags =
      Fits-bind Any Any 4 610 _ _ (read_value-Fits flags PacketFlags.value0) λ v0 _.
        Fits-bind Any Any 4 606 _ _ (read_value-Fits flags PacketFlags.value1) λ v1 _.
          Fits-bind Any Any 4 602 _ _ (read_value-Fits flags PacketFlags.value2) λ v2 _.
            Fits-bind Any Any 4 598 _ _ (read_value-Fits flags PacketFlags.value3) λ v3 _.
              Fits-bind Any Any 4 594 _ _ (read_value-Fits flags PacketFlags.value4) λ v4 _.
                Fits-bind Any Any 4 590 _ _ (read_value-Fits flags PacketFlags.value10) λ v10 _.
                  Fits-bind (λ q. data_length q ≤ 0x200) Any 4 586 _ _
                    (read_data_length-Fits flags _ refl)
                    λ packet b.
                      Fits-bind Any Any 512 74 _ _
                        (Fits-mono Any _ 512 _ b (read_data-Fits settings flags packet))
                        λ content _.
                          Fits-bind Any Any 4 70 _ _ (read_value-Fits flags PacketFlags.error)
                            λ err _.
                              Fits-bind Any Any 20 50 _ _ (read_name-Fits settings flags) λ name _.
                                Fits-then Any Any 50 _ _ (read_info-Fits settings flags)
                                  λ info _ s. (tt, omega arith)

  pub read_from-Fits : (settings : Settings) → Fits Any 622 (read_from io settings)
  unfolding read_from
  read_from-Fits settings = need-After io Any 8 614 _ (
      After-bind Any 4 4 614 _ _ (get_u32-Takes io) λ code_value. After-check Any 4 614 _ _ _ (
        After-bind Any 4 0 614 _ _ (get_u32-Takes io)
          λ flags. After-here Any 614 _ (read_fields-Fits settings _ flags)))

  -- Reading a packet never dereferences a missing value: the guards cover every read.
  pub read_from-ne-fault : (settings : Settings) (s : List ℕ) → read_from io settings s ≢ fault
  read_from-ne-fault settings s e = subst (Fitting Any 622 s) e (read_from-Fits settings s)

  -- With 622 bytes or more in the buffer, reading a packet never asks for more of them.
  pub read_from-ne-partial :
      (settings : Settings) (s : List ℕ) → 622 ≤ length s → read_from io settings s ≢ partial
  read_from-ne-partial settings s b e =
      let h : length s < 622 = subst (Fitting Any 622 s) e (read_from-Fits settings s) in
      absurd (omega arith)
