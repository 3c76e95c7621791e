-- ===== src/Packet/Stream.antt =====
-- `WormsPacket::readFrom` on a buffer that grows.
use worms2lobby_server_cpp.Base.{
  ℕ, ◌+◌, ◌≡◌, ◌≢◌, refl, arith, ◌==◌, Bool, true, false, if◌then◌else◌, none, some, List, [], ◌∷◌,
  ◌++◌, Bool-cases, inl, inr,
}
use worms2lobby_server_cpp.Packet.Io.{
  PacketIo, ParseResult, complete, partial, error, fault, Parser, ◌>>=◌, pure,
}
use worms2lobby_server_cpp.Packet.Rules.{get_u8-Takes, get_u32-Takes}
use worms2lobby_server_cpp.Packet.Steady.{
  Extended, Steady, Steady-weaken, Steady-pure, Steady-verdict, Steady-check, Steady-bind,
  Steady-then, get_u8-Steady, get_u32-Steady, get_bytes-Steady, need-Steady,
}
use worms2lobby_server_cpp.Packet.Code.{PacketCode}
use worms2lobby_server_cpp.Packet.Flags.{PacketFlags, has_flag}
use worms2lobby_server_cpp.Packet.SessionInfo
use worms2lobby_server_cpp.Packet.Fields.{WormsPacket, Settings, data_length}
use worms2lobby_server_cpp.Packet.Read.{
  when_flag, decode_data, decode_name, value_body, read_value, length_body, read_data_length,
  data_bytes, data_body, read_data, name_body, read_name, info_body, read_info, read_fields,
  read_from,
}
use worms2lobby_server_cpp.Packet.Safety.{read_from-ne-fault}

suffix-ne-nil : (u t : List ℕ) → t ≢ [] → u ++ t ≢ []
suffix-ne-nil [] t n e = n e
suffix-ne-nil (x ∷ u) t n e = cc

by_flag :
    {A : Type 0} (b : Bool) (p : Parser A)
    → Steady 0 0 p
    → Steady 0 0 (if b then (p >>= λ v. pure (some v)) else pure none)
by_flag true p h = Steady-bind 0 0 0 p _ h (λ a. Steady-pure 0 (some a))
by_flag false p h = Steady-pure 0 none

module _ (io : PacketIo) where
  session_info-Steady :
      (little_endian : Bool) → Steady 50 50 (SessionInfo.read_from io little_endian)
  unfolding SessionInfo.read_from
  session_info-Steady little_endian =
      Steady-then 4 46 46 _ _ (get_u32-Takes io) (get_u32-Steady io) λ crc1.
        Steady-then 4 42 42 _ _ (get_u32-Takes io) (get_u32-Steady io) λ crc2.
          Steady-then 1 41 41 _ _ (get_u8-Takes io) (get_u8-Steady io) λ nation.
            Steady-then 1 40 40 _ _ (get_u8-Takes io) (get_u8-Steady io) λ version.
              Steady-then 1 39 39 _ _ (get_u8-Takes io) (get_u8-Steady io) λ release.
                Steady-then 1 38 38 _ _ (get_u8-Takes io) (get_u8-Steady io) λ kind.
                  Steady-then 1 37 37 _ _ (get_u8-Takes io) (get_u8-Steady io) λ access.
                    Steady-then 1 36 36 _ _ (get_u8-Takes io) (get_u8-Steady io) λ one.
                      Steady-then 1 35 35 _ _ (get_u8-Takes io) (get_u8-Steady io) λ zero.
                        Steady-bind 35 35 0 _ _ (get_bytes-Steady io 35)
                          λ padding. Steady-verdict 0 _ _ _

  decode_data-Steady :
      (settings : Settings) (bytes : List ℕ) → Steady 0 0 (decode_data settings bytes)
  unfolding decode_data
  decode_data-Steady settings bytes =
      Steady-check 0 0 _ _ _ (Steady-check 0 0 _ _ _ (Steady-check 0 0 _ _ _ (Steady-pure 0 _)))

  decode_name-Steady :
      (settings : Settings) (bytes : List ℕ) → Steady 0 0 (decode_name settings bytes)
  unfolding decode_name
  decode_name-Steady settings bytes =
      Steady-check 0 0 _ _ _ (Steady-check 0 0 _ _ _ (Steady-pure 0 _))

  data_bytes-Steady : (settings : Settings) (len : ℕ) → Steady len 0 (data_bytes io settings len)
  unfolding data_bytes
  data_bytes-Steady settings len s t b = elim (Bool-cases (len == 0)) [
    | inl e ↦ rw e (refl, omega arith)
    | inr e ↦ rw e (
        Steady-weaken len (len + 0) _
          (Steady-bind len len 0 _ _ (get_bytes-Steady io len) (decode_data-Steady settings)) s t b)
  ]

  value_body-Steady : Steady 0 0 (value_body io)
  unfolding value_body
  value_body-Steady = Steady-weaken 0 4 _ (need-Steady io 4 4 _ (get_u32-Steady io))

  length_body-Steady : Steady 0 0 (length_body io)
  unfolding length_body
  length_body-Steady =
      Steady-bind 0 0 0 _ _ value_body-Steady λ len. Steady-check 0 0 _ _ _ (Steady-pure 0 len)

  name_body-Steady : (settings : Settings) → Steady 0 0 (name_body io settings)
  unfolding name_body
  name_body-Steady settings = Steady-weaken 0 20 _ (
      need-Steady io 20 20 _
        (Steady-bind 20 20 0 _ _ (get_bytes-Steady io 20) (decode_name-Steady settings)))

  info_body-Steady : (settings : Settings) → Steady 0 0 (info_body io settings)
  unfolding info_body
  info_body-Steady settings = Steady-weaken 0 50 _ (
      need-Steady io 50 50 _ (
        Steady-bind 50 50 0 _ _ (session_info-Steady settings.little_endian)
          (λ info. Steady-pure 0 _)))

  when_flag-Steady :
      {A : Type 0} (flags : ℕ) (flag : PacketFlags) (p : Parser A)
      → Steady 0 0 p
      → Steady 0 0 (when_flag flags flag p)
  when_flag-Steady flags flag p h = by_flag (has_flag flags flag) p h

  read_value-Steady : (flags : ℕ) (flag : PacketFlags) → Steady 0 0 (read_value io flags flag)
  unfolding read_value
  read_value-Steady flags flag = when_flag-Steady flags flag (value_body io) value_body-Steady

  read_data_length-Steady :
      (flags : ℕ) (packet : WormsPacket) → Steady 0 0 (read_data_length io flags packet)
  unfolding read_data_length
  read_data_length-Steady flags packet s t b =
      elim (Bool-cases (has_flag flags PacketFlags.data_length)) [
        | inl e ↦ rw e (Steady-bind 0 0 0 _ _ length_body-Steady (λ len. Steady-pure 0 _) s t b)
        | inr e ↦ rw e (refl, omega arith)
      ]

  read_data-Steady :
      (settings : Settings) (flags : ℕ) (packet : WormsPacket)
      → Steady 0 0 (read_data io settings flags packet)
  unfolding read_data data_body
  read_data-Steady settings flags packet =
      when_flag-Steady flags PacketFlags.content _
        (need-Steady io (data_length packet) 0 _ (data_bytes-Steady settings (data_length packet)))

  read_name-Steady : (settings : Settings) (flags : ℕ) → Steady 0 0 (read_name io settings flags)
  unfolding read_name
  read_name-Steady settings flags =
      when_flag-Steady flags PacketFlags.name _ (name_body-Steady settings)

  read_info-Steady : (settings : Settings) (flags : ℕ) → Steady 0 0 (read_info io settings flags)
  unfolding read_info
  read_info-Steady settings flags =
      when_flag-Steady flags PacketFlags.session_info _ (info_body-Steady settings)

  read_fields-Steady :
      (settings : Settings) (code : PacketCode) (flags : ℕ)
      → Steady 0 0 (read_fields io settings code flags)
  unfolding read_fields
  read_fields-Steady settings code flags =
      Steady-bind 0 0 0 _ _ (read_value-Steady flags PacketFlags.value0) λ v0.
        Steady-bind 0 0 0 _ _ (read_value-Steady flags PacketFlags.value1) λ v1.
          Steady-bind 0 0 0 _ _ (read_value-Steady flags PacketFlags.value2) λ v2.
            Steady-bind 0 0 0 _ _ (read_value-Steady flags PacketFlags.value3) λ v3.
              Steady-bind 0 0 0 _ _ (read_value-Steady flags PacketFlags.value4) λ v4.
                Steady-bind 0 0 0 _ _ (read_value-Steady flags PacketFlags.value10) λ v10.
                  Steady-bind 0 0 0 _ _ (read_data_length-Steady flags _) λ packet.
                    Steady-bind 0 0 0 _ _ (read_data-Steady settings flags packet) λ content.
                      Steady-bind 0 0 0 _ _ (read_value-Steady flags PacketFlags.error) λ err.
                        Steady-bind 0 0 0 _ _ (read_name-Steady settings flags) λ name.
                          Steady-bind 0 0 0 _ _ (read_info-Steady settings flags)
                            λ info. Steady-pure 0 _

  -- What is read stays so, whatever follows, and takes at least the eight bytes of the header.
  pub read_from-Steady : (settings : Settings) → Steady 0 8 (read_from io settings)
  unfolding read_from
  read_from-Steady settings = need-Steady io 8 8 _ (
      Steady-then 4 4 4 _ _ (get_u32-Takes io) (get_u32-Steady io) λ code_value.
        Steady-check 4 4 _ _ _
          (Steady-bind 4 4 0 _ _ (get_u32-Steady io) λ flags. read_fields-Steady settings _ flags))

  -- A packet that is cut short is never refused and never taken for another: the reader waits.
  pub read_from-prefix :
      (settings : Settings) (s t : List ℕ) (p : WormsPacket)
      → read_from io settings (s ++ t) ≡ complete p []
      → t ≢ []
      → read_from io settings s ≡ partial
  read_from-prefix settings s t p e n =
      cut (read_from io settings s) (read_from-Steady settings s t (omega arith))
        (read_from-ne-fault io settings s)
    where
      cut :
          (r : ParseResult WormsPacket)
          → Extended 8 s t r (read_from io settings (s ++ t))
          → r ≢ fault
          → r ≡ partial
      cut (complete q u) (f, _) ok = absurd (suffix-ne-nil u t n (cc))
      cut partial f ok = refl
      cut (error x) f ok = cc
      cut fault f ok = absurd (ok refl)
