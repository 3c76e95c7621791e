-- ===== src/Packet/SessionInfo.antt =====
-- src/session_info.cpp and include/session_info.hpp. The enumerations Nation, SessionType and
-- SessionAccess are cast from any byte without a check, so they are kept as their values.
use worms2lobby_server_cpp.Base.{
  ℕ, ◌==◌, Bool, true, false, ◌||◌, not, if◌then◌else◌, List, replicate, any_of,
}
use worms2lobby_server_cpp.Packet.Io.{
  PacketIo, Parser, ◌>>=◌, pure, fail, get_u8, get_u32, get_bytes, invalid_session_info,
}

abbrev pub room_type : ℕ
room_type = 1

abbrev pub game_type : ℕ
game_type = 4

abbrev pub user_type : ℕ
user_type = 5

abbrev pub public_access : ℕ
public_access = 1

abbrev pub protected_access : ℕ
protected_access = 2

abbrev pub padding_size : ℕ
padding_size = 35

pub record SessionInfo : Type 0 where
  pub crc1 : ℕ
  pub crc2 : ℕ
  pub player_nation : ℕ
  pub game_version : ℕ
  pub game_release : ℕ
  pub kind : ℕ
  pub access : ℕ
  pub always_one : ℕ
  pub always_zero : ℕ
  pub padding : List ℕ

-- The constructor: nation, type and access.
unfoldable pub new : ℕ → ℕ → ℕ → SessionInfo
new nation kind access = record {
  crc1 = 0x17171717;
  crc2 = 0x02010101;
  player_nation = nation;
  game_version = 49;
  game_release = 49;
  kind = kind;
  access = access;
  always_one = 1;
  always_zero = 0;
  padding = replicate padding_size 0;
}

unfoldable pub write_to : PacketIo → SessionInfo → List ℕ → List ℕ
write_to io info writer =
    let w = io.write_u32 writer info.crc1 in
    let w = io.write_u32 w info.crc2 in
    let w = io.write_u8 w info.player_nation in
    let w = io.write_u8 w info.game_version in
    let w = io.write_u8 w info.game_release in
    let w = io.write_u8 w info.kind in
    let w = io.write_u8 w info.access in
    let w = io.write_u8 w info.always_one in
    let w = io.write_u8 w info.always_zero in io.write_bytes w info.padding

-- `std::endian::native == std::endian::little ? 0x02010101 : std::byteswap(0x02010101)`
abbrev pub expected_crc2 : Bool → ℕ
expected_crc2 true = 0x02010101
expected_crc2 false = 0x01010102

unfoldable pub verify_session_info : Bool → SessionInfo → Bool
verify_session_info little_endian info =
    if not (info.crc1 == 0x17171717) || not (info.crc2 == expected_crc2 little_endian)
    then false
    else if not (info.always_one == 1) || not (info.always_zero == 0)
    then false
    else not (any_of (λ value. not (value == 0)) info.padding)

verified : Bool → SessionInfo → Parser SessionInfo
verified little_endian info =
    if verify_session_info little_endian info then pure info else fail invalid_session_info

unfoldable pub read_from : PacketIo → Bool → Parser SessionInfo
unfolding verified
read_from io little_endian = do
  crc1 ← get_u32 io
  crc2 ← get_u32 io
  player_nation ← get_u8 io
  game_version ← get_u8 io
  game_release ← get_u8 io
  kind ← get_u8 io
  access ← get_u8 io
  always_one ← get_u8 io
  always_zero ← get_u8 io
  padding ← get_bytes io padding_size
  verified little_endian (record {
    crc1 = crc1;
    crc2 = crc2;
    player_nation = player_nation;
    game_version = game_version;
    game_release = game_release;
    kind = kind;
    access = access;
    always_one = always_one;
    always_zero = always_zero;
    padding = padding;
  })
