-- ===== src/Packet/Steps.antt =====
-- Each block of `WormsPacket::readFrom` and `SessionInfo::readFrom` on the bytes that were written
-- for it.
use worms2lobby_server_cpp.Base.{
  ℕ, zero, suc, ◌<◌, ◌≡◌, refl, ap, arith, ◌==◌, Bool, true, false, Option, none, some, List, [],
  ◌∷◌, ◌++◌, All, length, replicate, length-append, take-append, drop-append, is_some,
}
use worms2lobby_server_cpp.Text.StringUtils.{from_bytes, c_string}
use worms2lobby_server_cpp.Packet.Io.{PacketIo, complete, le_32, get_u8, get_u32, get_bytes}
use worms2lobby_server_cpp.Packet.Rules.{need_enough}
use worms2lobby_server_cpp.Packet.Flags.{PacketFlags, has_flag}
use worms2lobby_server_cpp.Packet.SessionInfo
use worms2lobby_server_cpp.Packet.SessionInfo.{SessionInfo, verify_session_info}
use worms2lobby_server_cpp.Packet.Fields.{Settings}
use worms2lobby_server_cpp.Packet.Layout.{info_bytes, value_bytes, optional_info_bytes}
use worms2lobby_server_cpp.Packet.Read.{ends_with_nul, value_body, read_value, info_body, read_info}

-- A 32-bit value, where there is one.
abbrev pub IsU32 : Option ℕ → Type 0
IsU32 none = Unit {0}
IsU32 (some v) = v < 0x1_0000_0000

-- A session info that passes the reader's check.
abbrev pub CanRead : Settings → Option SessionInfo → Type 0
CanRead settings none = Unit {0}
CanRead settings (some i) =
    (verify_session_info settings.little_endian i ≡ true)
    × (i.crc1 < 0x1_0000_0000)
    × (i.crc2 < 0x1_0000_0000)
    × (length i.padding ≡ 35)

-- The release that a reader sees is always 49.
abbrev pub seen_info : Option SessionInfo → Option SessionInfo
seen_info none = none
seen_info (some i) = some (record i { game_release = 49 })

module _ (io : PacketIo) where
  pub get_u32-le_32 :
      (v : ℕ) → v < 0x1_0000_0000 → (rest : List ℕ) → get_u32 io (le_32 v ++ rest) ≡ complete v rest
  unfolding get_u32
  get_u32-le_32 v h rest =
      rw (io.read_u32_lem _ _ _ _ rest) (ap (λ n. complete n rest) (omega arith))

  get_u8-cons : (v : ℕ) (rest : List ℕ) → get_u8 io (v ∷ rest) ≡ complete v rest
  unfolding get_u8
  get_u8-cons v rest = rw (io.read_u8_lem v rest)

  get_bytes-append :
      (bytes rest : List ℕ) → get_bytes io (length bytes) (bytes ++ rest) ≡ complete bytes rest
  unfolding get_bytes
  get_bytes-append bytes rest = rw (
    io.read_bytes_lem (bytes ++ rest) (length bytes) (omega (arith, length-append bytes rest)),
    take-append bytes rest,
    drop-append bytes rest,
  )

  pub get_bytes-exact :
      (bytes : List ℕ) (n : ℕ)
      → length bytes ≡ n
      → (rest : List ℕ) → get_bytes io n (bytes ++ rest) ≡ complete bytes rest
  get_bytes-exact bytes n e rest = rw (← e) (get_bytes-append bytes rest)

  pub value_body-le_32 :
      (v : ℕ)
      → v < 0x1_0000_0000
      → (rest : List ℕ) → value_body io (le_32 v ++ rest) ≡ complete v rest
  unfolding value_body
  value_body-le_32 v h rest =
      rw (need_enough io 4 (le_32 v ++ rest) (omega arith)) (get_u32-le_32 v h rest)

  pub read_value-bytes :
      (flags : ℕ) (flag : PacketFlags) (v : Option ℕ)
      → IsU32 v
      → has_flag flags flag ≡ is_some v
      → (rest : List ℕ) → read_value io flags flag (value_bytes v ++ rest) ≡ complete v rest
  unfolding read_value
  read_value-bytes flags flag none h e rest = rw e
  read_value-bytes flags flag (some v) h e rest = rw (e, value_body-le_32 v h rest)

  -- A session info that passes the reader's check, has 32-bit numbers and 35 bytes of padding is
  -- read back from its bytes, whatever follows them.
  pub session_info_read :
      (little_endian : Bool) (i : SessionInfo)
      → verify_session_info little_endian i ≡ true
      → i.crc1 < 0x1_0000_0000
      → i.crc2 < 0x1_0000_0000
      → length i.padding ≡ 35
      → (rest : List ℕ)
      → SessionInfo.read_from io little_endian (info_bytes i ++ rest) ≡ complete i rest
  unfolding SessionInfo.read_from
  session_info_read little_endian i v c1 c2 p rest = rw (
    get_u32-le_32 i.crc1 c1,
    get_u32-le_32 i.crc2 c2,
    get_u8-cons i.player_nation,
    get_u8-cons i.game_version,
    get_u8-cons i.game_release,
    get_u8-cons i.kind,
    get_u8-cons i.access,
    get_u8-cons i.always_one,
    get_u8-cons i.always_zero,
    get_bytes-exact i.padding 35 p,
    v,
  )

  length-info_bytes : (i : SessionInfo) → length i.padding ≡ 35 → length (info_bytes i) ≡ 50
  length-info_bytes i p = omega (arith, p)

  pub read_info-bytes :
      (settings : Settings) (flags : ℕ) (i : Option SessionInfo)
      → CanRead settings i
      → has_flag flags PacketFlags.session_info ≡ is_some i
      → (rest : List ℕ)
      → read_info io settings flags (optional_info_bytes i ++ rest) ≡ complete (seen_info i) rest
  unfolding read_info info_body
  read_info-bytes settings flags none c e rest = rw e
  read_info-bytes settings flags (some i) (v, c1, c2, p) e rest = rw (
    e,
    need_enough io 50 (info_bytes i ++ rest)
        (omega (arith, length-append (info_bytes i) rest, length-info_bytes i p)),
    session_info_read settings.little_endian i v c1 c2 p rest,
  )

pub from_bytes_lem : (bytes : List ℕ) → from_bytes bytes ≡ bytes
from_bytes_lem [] = refl
from_bytes_lem (b ∷ bytes) = ap (◌∷◌ b) (from_bytes_lem bytes)

pub ends_with_nul-append : (s : List ℕ) → ends_with_nul (s ++ 0 ∷ []) ≡ true
unfolding ends_with_nul
ends_with_nul-append [] = refl
ends_with_nul-append (a ∷ []) = refl
ends_with_nul-append (a ∷ b ∷ s) = ends_with_nul-append (b ∷ s)

-- The name's zeros are cut off again.
abbrev pub NoNul : List ℕ → Type 0
NoNul = All (λ c. (c == 0) ≡ false)

c_string-NoNul : (s : List ℕ) → NoNul s → c_string s ≡ s
unfolding c_string
c_string-NoNul [] h = refl
c_string-NoNul (c ∷ s) (h, hs) = rw h (ap (◌∷◌ c) (c_string-NoNul s hs))

pub c_string-zeros : (n : ℕ) (s : List ℕ) → NoNul s → c_string (s ++ replicate n 0) ≡ s
unfolding c_string
c_string-zeros zero [] h = refl
c_string-zeros (suc n) [] h = refl
c_string-zeros n (c ∷ s) (h, hs) = rw h (ap (◌∷◌ c) (c_string-zeros n s hs))
