-- ===== src/Packet/Code.antt =====
-- include/packet_code.hpp
use worms2lobby_server_cpp.Base.{
  ℕ, ◌<◌, arith, ◌≡◌, refl, ◌==◌, Bool, ◌||◌, none, some, List, [], ◌∷◌, find_if,
}

pub data PacketCode : Type 0 where
  unknown list_rooms list_item list_end list_users list_games login login_reply : PacketCode
  create_room create_room_reply join join_reply leave leave_reply disconnect_user : PacketCode
  close close_reply create_game create_game_reply chat_room chat_room_reply : PacketCode
  connect_game connect_game_reply : PacketCode

abbrev pub code_value : PacketCode → ℕ
code_value PacketCode.unknown = 0
code_value PacketCode.list_rooms = 200
code_value PacketCode.list_item = 350
code_value PacketCode.list_end = 351
code_value PacketCode.list_users = 400
code_value PacketCode.list_games = 500
code_value PacketCode.login = 600
code_value PacketCode.login_reply = 601
code_value PacketCode.create_room = 700
code_value PacketCode.create_room_reply = 701
code_value PacketCode.join = 800
code_value PacketCode.join_reply = 801
code_value PacketCode.leave = 900
code_value PacketCode.leave_reply = 901
code_value PacketCode.disconnect_user = 1000
code_value PacketCode.close = 1100
code_value PacketCode.close_reply = 1101
code_value PacketCode.create_game = 1200
code_value PacketCode.create_game_reply = 1201
code_value PacketCode.chat_room = 1300
code_value PacketCode.chat_room_reply = 1301
code_value PacketCode.connect_game = 1326
code_value PacketCode.connect_game_reply = 1327

-- The codes that a client may send.
unfoldable pub packet_code_exists : ℕ → Bool
packet_code_exists code =
    code == code_value PacketCode.login
    || code == code_value PacketCode.list_rooms
    || code == code_value PacketCode.list_users
    || code == code_value PacketCode.list_games
    || code == code_value PacketCode.create_room
    || code == code_value PacketCode.join
    || code == code_value PacketCode.leave
    || code == code_value PacketCode.close
    || code == code_value PacketCode.create_game
    || code == code_value PacketCode.chat_room
    || code == code_value PacketCode.connect_game

abbrev pub client_codes : List PacketCode
client_codes =
    PacketCode.login ∷ PacketCode.list_rooms ∷ PacketCode.list_users ∷ PacketCode.list_games
    ∷ PacketCode.create_room ∷ PacketCode.join ∷ PacketCode.leave ∷ PacketCode.close
    ∷ PacketCode.create_game ∷ PacketCode.chat_room ∷ PacketCode.connect_game ∷ []

-- `static_cast<PacketCode>` of a value for which `packet_code_exists` holds.
unfoldable pub code_of_value : ℕ → PacketCode
code_of_value v = elim (find_if (λ c. code_value c == v) client_codes) [
  | none ↦ PacketCode.unknown
  | some c ↦ c
]

-- A client's code is read back as itself.
pub code_of_value-code_value :
    (c : PacketCode)
    → packet_code_exists (code_value c) ≡ Bool.true
    → code_of_value (code_value c) ≡ c
unfolding packet_code_exists code_of_value
code_of_value-code_value PacketCode.list_rooms h = refl
code_of_value-code_value PacketCode.list_users h = refl
code_of_value-code_value PacketCode.list_games h = refl
code_of_value-code_value PacketCode.login h = refl
code_of_value-code_value PacketCode.create_room h = refl
code_of_value-code_value PacketCode.join h = refl
code_of_value-code_value PacketCode.leave h = refl
code_of_value-code_value PacketCode.close h = refl
code_of_value-code_value PacketCode.create_game h = refl
code_of_value-code_value PacketCode.chat_room h = refl
code_of_value-code_value PacketCode.connect_game h = refl
code_of_value-code_value _ h = cc

pub code_value-lt : (c : PacketCode) → code_value c < 0x1_0000
code_value-lt PacketCode.unknown = omega arith
code_value-lt _ = omega arith
