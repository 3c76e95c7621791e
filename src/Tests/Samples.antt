-- ===== src/Tests/Samples.antt =====
-- A packet library, a queue of identifiers and a lobby for the concrete runs.
use worms2lobby_server_cpp.Base.{
  ℕ, ◌+◌, ◌*◌, ◌≤◌, ◌≡◌, refl, arith, leb, le→leb, ◌==◌, true, false, if◌then◌else◌, Option, none,
  some, List, [], ◌∷◌, ◌++◌, length, take, drop,
}
use worms2lobby_server_cpp.Base.Literals.{codes}
use worms2lobby_server_cpp.Packet.Io.{PacketIo, le_32}
use worms2lobby_server_cpp.Packet.Code.{PacketCode}
use worms2lobby_server_cpp.Packet.SessionInfo
use worms2lobby_server_cpp.Packet.SessionInfo.{SessionInfo}
use worms2lobby_server_cpp.Packet.Fields.{Settings, PacketFields, no_fields, WormsPacket}
use worms2lobby_server_cpp.Packet.Write.{freeze}
use worms2lobby_server_cpp.Lobby.Entities.{User, Room, new_user, new_room}
use worms2lobby_server_cpp.Lobby.Table.{count}
use worms2lobby_server_cpp.Lobby.Database.{IdQueue, Database, empty_database}
use worms2lobby_server_cpp.Lobby.World.{v4, Env, World}

abbrev take_u8 : List ℕ → Option (ℕ × List ℕ)
take_u8 [] = none
take_u8 (a ∷ s) = some (a, s)

abbrev take_u32 : List ℕ → Option (ℕ × List ℕ)
take_u32 (a ∷ b ∷ c ∷ d ∷ s) = some (a + b * 256 + c * 65536 + d * 16777216, s)
take_u32 _ = none

abbrev take_bytes : List ℕ → ℕ → Option (List ℕ × List ℕ)
take_bytes s n = if leb n (length s) then some (take n s, drop n s) else none

pub take_bytes_lem :
    (s : List ℕ) (n : ℕ) → n ≤ length s → take_bytes s n ≡ some (take n s, drop n s)
take_bytes_lem s n h = rw (le→leb n (length s) h) refl

abbrev pub sample_io : PacketIo
sample_io = record {
  can_read = λ s n. leb n (length s);
  read_u8 = take_u8;
  read_u32 = take_u32;
  read_bytes = take_bytes;
  write_u8 = λ w v. w ++ v ∷ [];
  write_u32 = λ w v. w ++ le_32 v;
  write_bytes = λ w bytes. w ++ bytes;
  can_read_lem = λ s n. refl;
  read_u8_lem = λ a s. refl;
  read_u32_lem = λ a b c d s. refl;
  read_bytes_lem = take_bytes_lem;
  write_u8_lem = λ w v. refl;
  write_u32_lem = λ w v. refl;
  write_bytes_lem = λ w bytes. refl;
}

abbrev pub sample_settings : Settings
sample_settings = record { use_windows_1252 = false; little_endian = true }

abbrev pop : List ℕ → Option (ℕ × List ℕ)
pop [] = none
pop (x ∷ q) = some (x, q)

pub pop_lem :
    (q : List ℕ) (x : ℕ) (r : List ℕ)
    → pop q ≡ some (x, r)
    → (k : ℕ) → count k q ≡ (if x == k then 1 else 0) + count k r
pop_lem [] x r e k = cc
pop_lem (y ∷ q) x r e k = ground arith

abbrev pub sample_queue : IdQueue
sample_queue = record {
  try_dequeue = pop;
  enqueue = λ q x. x ∷ q;
  try_dequeue_lem = pop_lem;
  enqueue_lem = λ q x k. refl;
}

abbrev pub sample_env : Env
sample_env = record {
  io = sample_io;
  settings = sample_settings;
  queue = sample_queue;
  make_address = λ text. some (v4 0x7F000001);
  address_text = λ address. codes "127.0.0.1";
}

abbrev pub alice : User
alice = new_user 1 0x1000 (codes "Alice") 7

abbrev pub inn : Room
inn = new_room 0x1001 (codes "Inn") 7 0x7F000001

-- One user in one room, and a number to use again.
abbrev pub sample_database : Database
sample_database = record {
  users = alice ∷ [];
  rooms = inn ∷ [];
  games = [];
  next_id = 0x1003;
  recycled_ids = 0x1002 ∷ [];
}

abbrev pub sample_world : World
sample_world = record {
  database = sample_database;
  room_of = λ session. if session == 1 then 0x1001 else 0;
  sessions = λ session. if session == 1 then some (record { address = some 0x7F000001 }) else none;
  sent = [];
}

abbrev pub leave_packet : WormsPacket
leave_packet = record {
  code = PacketCode.leave;
  flags = 0;
  fields = record no_fields { value2 = some 0x1001; value10 = some 0x1000 };
}

abbrev pub room_fields : PacketFields
room_fields = record no_fields {
  value1 = some 0;
  value4 = some 0;
  content = some (codes "x");
  name = some (codes "Inn");
  info = some (SessionInfo.new 7 1 1);
}

-- The login of a user Bob.
abbrev pub login_fields : PacketFields
login_fields = record no_fields {
  value1 = some 0;
  value4 = some 0;
  name = some (codes "Bob");
  info = some (SessionInfo.new 7 5 1);
}

abbrev pub login_bytes : List ℕ
login_bytes = freeze sample_io sample_settings PacketCode.login login_fields

abbrev pub empty_world : World
empty_world = record {
  database = empty_database;
  room_of = λ session. 0;
  sessions = λ session. some (record { address = some 0x7F000001 });
  sent = [];
}

abbrev pub list_packet : WormsPacket
list_packet = record {
  code = PacketCode.list_users;
  flags = 0;
  fields = record no_fields { value2 = some 0x1001; value4 = some 0 };
}
