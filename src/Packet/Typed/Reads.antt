-- ===== src/Packet/Typed/Reads.antt =====
-- The blocks of `WormsPacket::readFrom` of src/worms_packet.cpp and `SessionInfo::readFrom` of
-- src/session_info.cpp on any bytes: what their values are.
use worms2lobby_server_cpp.Base.{
  ℕ, zero, suc, ◌+◌, ◌≤◌, ◌<◌, ◌≡◌, refl, arith, leb→le, ◌==◌, ==_iff, not, false, List, [], ◌∷◌,
  All, any_of, take, drop, length, length-take, length-drop, Bool-cases, inl, inr,
}
use worms2lobby_server_cpp.Packet.Io.{PacketIo, Parser, ◌>>=◌, get_u8, get_u32, get_bytes}
use worms2lobby_server_cpp.Packet.SessionInfo
use worms2lobby_server_cpp.Packet.SessionInfo.{SessionInfo, expected_crc2, verify_session_info}
use worms2lobby_server_cpp.Packet.Fields.{Settings}
use worms2lobby_server_cpp.Packet.Read.{
  decode_data, decode_name, value_body, length_body, data_bytes, data_body, name_body, info_body,
}
use worms2lobby_server_cpp.Packet.Typed.{
  AreBytes, Gives, GivesBy, Gives-bind, GivesBy-bind, GivesBy-then, pure-GivesBy, GivesBy-check,
  GivesBy-verdict, Gives-check, need-Gives,
}

abbrev pub IsU8 : ℕ → Type 0
IsU8 v = v < 256

abbrev pub IsWord : ℕ → Type 0
IsWord v = v < 0x1_0000_0000

abbrev pub IsAtMost : ℕ → List ℕ → Type 0
IsAtMost n text = length text ≤ n

-- What the check of a session info leaves: the marks of the protocol, four bytes that are not
-- looked at, and the release 49 whatever was sent.
pub record IsGenuine (settings : Settings) (info : SessionInfo) : Type 0 where
  pub crc1 : info.crc1 ≡ 0x17171717
  pub crc2 : info.crc2 ≡ expected_crc2 settings.little_endian
  pub always_one : info.always_one ≡ 1
  pub always_zero : info.always_zero ≡ 0
  pub padding : All (λ b. b ≡ 0) info.padding
  pub padded : length info.padding ≡ 35
  pub nation : IsU8 info.player_nation
  pub version : IsU8 info.game_version
  pub kind : IsU8 info.kind
  pub access : IsU8 info.access
  pub release : info.game_release ≡ 49

AreBytes-take : (n : ℕ) (s : List ℕ) → AreBytes s → AreBytes (take n s)
AreBytes-take zero s h = tt
AreBytes-take (suc n) [] h = tt
AreBytes-take (suc n) (b ∷ s) (h, hs) = (h, AreBytes-take n s hs)

pub AreBytes-drop : (n : ℕ) (s : List ℕ) → AreBytes s → AreBytes (drop n s)
AreBytes-drop zero s h = h
AreBytes-drop (suc n) [] h = tt
AreBytes-drop (suc n) (b ∷ s) (h, hs) = AreBytes-drop n s hs

All-zero : (bytes : List ℕ) → any_of (λ v. not (v == 0)) bytes ≡ false → All (λ b. b ≡ 0) bytes
All-zero [] h = tt
All-zero (b ∷ bytes) h = (ground arith, All-zero bytes (ground arith))

module _ (io : PacketIo) where
  get_u8-GivesBy : GivesBy IsU8 1 (get_u8 io)
  unfolding get_u8
  get_u8-GivesBy [] b l = absurd (omega arith)
  get_u8-GivesBy (a ∷ s) (h, hs) l = rw (io.read_u8_lem a s) (h, hs, omega arith)

  get_u32-GivesBy : GivesBy IsWord 4 (get_u32 io)
  unfolding get_u32
  get_u32-GivesBy [] b l = absurd (omega arith)
  get_u32-GivesBy (x ∷ []) b l = absurd (omega arith)
  get_u32-GivesBy (x ∷ y ∷ []) b l = absurd (omega arith)
  get_u32-GivesBy (x ∷ y ∷ z ∷ []) b l = absurd (omega arith)
  get_u32-GivesBy (x ∷ y ∷ z ∷ w ∷ s) (hx, (hy, (hz, (hw, hs)))) l =
      rw (io.read_u32_lem x y z w s) (omega arith, hs, omega arith)

  get_bytes-GivesBy : (n : ℕ) → GivesBy (λ bytes. length bytes ≡ n) n (get_bytes io n)
  unfolding get_bytes
  get_bytes-GivesBy n s b l =
      rw (io.read_bytes_lem s n l)
        (omega (arith, length-take n s), AreBytes-drop n s b, omega (arith, length-drop n s))

  pub value_body-Gives : Gives IsWord (value_body io)
  unfolding value_body
  value_body-Gives = need-Gives IsWord io 4 _ get_u32-GivesBy

  pub length_body-Gives : Gives (λ len. len ≤ 0x200) (length_body io)
  unfolding length_body
  length_body-Gives =
      Gives-bind IsWord (λ len. len ≤ 0x200) _ _ value_body-Gives
        λ len _. Gives-check (λ len. len ≤ 0x200) _ _ _ λ h s b. (leb→le _ _ h, b)

  module _ (settings : Settings) where
    decode_data-GivesBy : (bytes : List ℕ) → GivesBy (IsAtMost 0x200) 0 (decode_data settings bytes)
    unfolding decode_data
    decode_data-GivesBy bytes = GivesBy-check (IsAtMost 0x200) 0 _ _ _ λ _.
        GivesBy-check (IsAtMost 0x200) 0 _ _ _ λ _.
          GivesBy-check (IsAtMost 0x200) 0 _ _ _ λ h. pure-GivesBy (IsAtMost 0x200) _ (leb→le _ _ h)

    decode_name-GivesBy : (bytes : List ℕ) → GivesBy (IsAtMost 20) 0 (decode_name settings bytes)
    unfolding decode_name
    decode_name-GivesBy bytes =
        GivesBy-check (IsAtMost 20) 0 _ _ _
          λ _. GivesBy-check (IsAtMost 20) 0 _ _ _ λ h. pure-GivesBy (IsAtMost 20) _ (leb→le _ _ h)

    data_bytes-GivesBy : (len : ℕ) → GivesBy (IsAtMost 0x200) len (data_bytes io settings len)
    unfolding data_bytes
    data_bytes-GivesBy len s b l = elim (Bool-cases (len == 0)) [
      | inl e ↦ let z : len ≡ 0 = (==_iff len 0).0 e in rw e (omega arith, b, omega arith)
      | inr e ↦ rw e (
          GivesBy-then (λ bytes. length bytes ≡ len) (IsAtMost 0x200) len _ _
            (get_bytes-GivesBy len) (λ bytes _. decode_data-GivesBy bytes) s b l)
    ]

    pub data_body-Gives : (len : ℕ) → Gives (IsAtMost 0x200) (data_body io settings len)
    unfolding data_body
    data_body-Gives len = need-Gives (IsAtMost 0x200) io len _ (data_bytes-GivesBy len)

    pub name_body-Gives : Gives (IsAtMost 20) (name_body io settings)
    unfolding name_body
    name_body-Gives = need-Gives (IsAtMost 20) io 20 _ (
        GivesBy-bind (λ bytes. length bytes ≡ 20) (IsAtMost 20) 20 0 _ _ (get_bytes-GivesBy 20)
          (λ bytes _. decode_name-GivesBy bytes))

    -- What is in a session info that was read, but for its release.
    abbrev Read : SessionInfo → Type 0
    Read info = IsGenuine settings (record info { game_release = 49 })

    session_info-GivesBy : GivesBy Read 50 (SessionInfo.read_from io settings.little_endian)
    unfolding SessionInfo.read_from verify_session_info
    session_info-GivesBy = word 46 _ λ crc1. word 42 _ λ crc2. byte 41 _ λ nation hn.
        byte 40 _ λ version hv. byte 39 _ λ release _. byte 38 _ λ kind hk. byte 37 _ λ access ha.
          byte 36 _ λ always_one _. byte 35 _ λ always_zero _.
            GivesBy-bind (λ bytes. length bytes ≡ 35) Read 35 0 _ _ (get_bytes-GivesBy 35)
              λ padding hp. GivesBy-verdict Read _ _ _ λ v. record {
                crc1 = ground arith;
                crc2 = ground arith;
                always_one = ground arith;
                always_zero = ground arith;
                padding = All-zero padding (ground arith);
                padded = hp;
                nation = hn;
                version = hv;
                kind = hk;
                access = ha;
                release = refl;
              }
      where
        word :
            (n : ℕ) (f : ℕ → Parser SessionInfo)
            → ((v : ℕ) → GivesBy Read n (f v))
            → GivesBy Read (4 + n) (get_u32 io >>= f)
        word n f h = GivesBy-bind IsWord Read 4 n _ _ get_u32-GivesBy (λ v _. h v)

        byte :
            (n : ℕ) (f : ℕ → Parser SessionInfo)
            → ((v : ℕ) → IsU8 v → GivesBy Read n (f v))
            → GivesBy Read (1 + n) (get_u8 io >>= f)
        byte n f h = GivesBy-bind IsU8 Read 1 n _ _ get_u8-GivesBy h

    pub info_body-Gives : Gives (IsGenuine settings) (info_body io settings)
    unfolding info_body
    info_body-Gives = need-Gives (IsGenuine settings) io 50 _ (
        GivesBy-bind Read (IsGenuine settings) 50 0 _ _ session_info-GivesBy
          (λ info h. pure-GivesBy (IsGenuine settings) _ h))
