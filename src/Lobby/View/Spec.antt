-- ===== src/Lobby/View/Spec.antt =====
-- What the handlers of src/packet_handler.cpp and src/user_session.cpp promise, as changes of the view.
use worms2lobby_server_cpp.Base.{
  ℕ, ◌-◌, ◌≤◌, ◌≡◌, ◌≢◌, ◌==◌, true, false, not, ◌||◌, if◌then◌else◌, Option, none, some, List, [],
  ◌++◌, is_some, value_or, replicate, length,
}
use worms2lobby_server_cpp.Text.StringUtils.{equals_case_insensitive}
use worms2lobby_server_cpp.Packet.Io.{ParseResult, complete}
use worms2lobby_server_cpp.Packet.Read.{read_from}
use worms2lobby_server_cpp.Packet.Code.{PacketCode}
use worms2lobby_server_cpp.Packet.Fields.{WormsPacket}
use worms2lobby_server_cpp.Lobby.Entities.{User, Room, Game, new_user, new_room, new_game}
use worms2lobby_server_cpp.Lobby.Database.{k_start}
use worms2lobby_server_cpp.Lobby.World.{v4, Env}
use worms2lobby_server_cpp.Lobby.Handler.Rooms.{is_empty}
use worms2lobby_server_cpp.Lobby.Session.{is_login}
use worms2lobby_server_cpp.Lobby.View.{Lobby, update}

-- What a client can ask for that changes the lobby.
pub data Request : Type 0 where
  joins : ℕ → Request
  leaves : Request
  opens : List ℕ → ℕ → Request
  hosts : ℕ → List ℕ → Request

-- The request of a client's packet, where it is one, from a client that is in the room `place`.
abbrev pub room_request : WormsPacket → Option Request
room_request p =
    if not (value_or p.fields.value1 0 == 0)
      || not (value_or p.fields.value4 0 == 0)
      || is_empty (value_or p.fields.content [])
      || is_empty (value_or p.fields.name [])
    then none
    else elim p.fields.info [
      | none ↦ none
      | some info ↦ some (opens (value_or p.fields.name []) info.player_nation)
    ]

abbrev pub game_request : ℕ → WormsPacket → Option Request
game_request place p =
    if not (value_or p.fields.value1 1 == 0)
      || not (value_or p.fields.value2 0 == place)
      || not (value_or p.fields.value4 0 == 0x800)
      || not (is_some p.fields.content)
      || not (is_some p.fields.name)
    then none
    else elim p.fields.info [
      | none ↦ none
      | some info ↦ some (hosts info.access (value_or p.fields.content []))
    ]

abbrev pub join_request : ℕ → WormsPacket → Option Request
join_request id p =
    if not (is_some p.fields.value2) || not (value_or p.fields.value10 0 == id)
    then none
    else some (joins (value_or p.fields.value2 0))

abbrev pub leave_request : ℕ → ℕ → WormsPacket → Option Request
leave_request id place p =
    if not (value_or p.fields.value10 0 == id) || not (is_some p.fields.value2)
    then none
    else if value_or p.fields.value2 0 == place
    then some leaves
    else none

abbrev pub request_of : PacketCode → ℕ → ℕ → WormsPacket → Option Request
request_of PacketCode.create_room id place p = room_request p
request_of PacketCode.create_game id place p = game_request place p
request_of PacketCode.join id place p = join_request id p
request_of PacketCode.leave id place p = leave_request id place p
request_of _ id place p = none

-- An identifier that no object has and that is not reserved.
pub record IsFree (id : ℕ) (l : Lobby) : Type 0 where
  pub no_user : l.user id ≡ none
  pub no_room : l.room id ≡ none
  pub no_game : l.game id ≡ none
  pub low : k_start ≤ id

-- Nobody is in the room, and no game, but for what has the leaver's identifier.
pub record IsDeserted (left room : ℕ) (l : Lobby) : Type 0 where
  pub users : (k : ℕ) (u : User) → l.user k ≡ some u → u.id ≢ left → l.place u.session ≢ room
  pub games : (k : ℕ) (g : Game) → l.game k ≡ some g → g.id ≢ left → g.room_id ≢ room

-- A room goes with the last one in it, and only then.
pub data Closes (left room : ℕ) (l : Lobby) : Lobby → Type 0 where
  missing : l.room room ≡ none → Closes left room l l
  stays : ¬ IsDeserted left room l → Closes left room l l
  closed : IsDeserted left room l → Closes left room l (record l { room = update l.room room none })

-- What the lobby does with a client's request.
pub data Performs (env : Env) (client : User) (l : Lobby) : Option Request → Lobby → Type 0 where
  ignored : Performs env client l none l
  joined :
      (room : ℕ) (r : Room)
      → l.room room ≡ some r
      → Performs env client l
          (some (joins room))
          (record l { place = update l.place client.session room })
  not_joined : (room : ℕ) → l.room room ≡ none → Performs env client l (some (joins room)) l
  went :
      (l' : Lobby)
      → Closes client.id (l.place client.session) l l'
      → Performs env client l (some leaves) (record l' { place = update l'.place client.session 0 })
  opened :
      (name : List ℕ) (nation address id : ℕ)
      → ((k : ℕ) (r : Room) → l.room k ≡ some r → equals_case_insensitive name r.name ≡ false)
      → l.address client.session ≡ some address
      → IsFree id l
      → Performs env client l
          (some (opens name nation))
          (record l { room = update l.room id (some (new_room id name nation address)) })
  name_taken :
      (name : List ℕ) (nation k : ℕ) (r : Room)
      → l.room k ≡ some r
      → equals_case_insensitive name r.name ≡ true
      → Performs env client l (some (opens name nation)) l
  unreachable :
      (name : List ℕ) (nation : ℕ)
      → l.address client.session ≡ none
      → Performs env client l (some (opens name nation)) l
  hosted :
      (access : ℕ) (text : List ℕ) (address id : ℕ)
      → env.make_address text ≡ some (v4 address)
      → l.address client.session ≡ some address
      → IsFree id l
      → Performs env client l (some (hosts access text)) (record l {
        game = update l.game id (
            some (
              new_game id client.name client.session_info.player_nation
                (l.place client.session)
                address
                access));
      })
  not_hosted :
      (access : ℕ) (text : List ℕ)
      → ((address : ℕ)
          → env.make_address text ≡ some (v4 address)
          → l.address client.session ≢ some address)
      → Performs env client l (some (hosts access text)) l

-- A user goes with a game under its name, whose room it leaves, or else leaves its own room.
pub data Departs (client : User) (l : Lobby) : Lobby → Type 0 where
  alone :
      (l' : Lobby)
      → ((k : ℕ) (g : Game) → l.game k ≡ some g → g.name ≢ client.name)
      → Closes client.id
          (l.place client.session)
          (record l { user = update l.user client.id none })
          l'
      → Departs client l l'
  hosting :
      (g : Game) (l' : Lobby)
      → l.game g.id ≡ some g
      → g.name ≡ client.name
      → Closes g.id g.room_id
          (record l { user = update l.user client.id none; game = update l.game g.id none })
          l'
      → Departs client l l'

-- The name and the nation that the bytes of a login ask for, where they are one.
abbrev pub login_request : ParseResult WormsPacket → Option (List ℕ × ℕ)
login_request (complete p rest) =
    if not (is_login p) || not (is_some p.fields.value1) || not (is_some p.fields.value4)
    then none
    else elim p.fields.name [
      | none ↦ none
      | some name ↦ elim p.fields.info [ none ↦ none | some info ↦ some (name, info.player_nation) ]
    ]
login_request _ = none

abbrev pub first_packet : Env → List ℕ → ParseResult WormsPacket
first_packet env received =
    read_from env.io env.settings (received ++ replicate (1024 - length received) 0)

-- What happens to the lobby.
pub data Event : Type 0 where
  login : ℕ → List ℕ → Event
  message : User → WormsPacket → Event
  exit : User → Event
  socket : Event

-- How it goes on.
pub data Moves (env : Env) (l : Lobby) : Event → Lobby → Type 0 where
  asks :
      (client : User) (p : WormsPacket) (l' : Lobby)
      → l.user client.id ≡ some client
      → Performs env client l (request_of p.code client.id (l.place client.session) p) l'
      → Moves env l (message client p) l'
  enters :
      (session : ℕ) (received name : List ℕ) (nation id : ℕ)
      → login_request (first_packet env received) ≡ some (name, nation)
      → ((k : ℕ) (v : User) → l.user k ≡ some v → equals_case_insensitive v.name name ≡ false)
      → IsFree id l
      → Moves env l (login session received) (record l {
        user = update l.user id (some (new_user session id name nation));
        place = update l.place session 0;
      })
  name_in_use :
      (session : ℕ) (received name : List ℕ) (nation k : ℕ) (v : User)
      → login_request (first_packet env received) ≡ some (name, nation)
      → l.user k ≡ some v
      → equals_case_insensitive v.name name ≡ true
      → Moves env l (login session received) l
  turned_away :
      (session : ℕ) (received : List ℕ)
      → login_request (first_packet env received) ≡ none
      → Moves env l (login session received) l
  departs :
      (client : User) (l' : Lobby)
      → l.user client.id ≡ some client
      → Departs client l l'
      → Moves env l (exit client) l'
  connects : (address : ℕ → Option ℕ) → Moves env l socket (record l { address = address })

abbrev pub empty_lobby : (ℕ → ℕ) → (ℕ → Option ℕ) → Lobby
empty_lobby place address = record {
  user = λ k. none;
  room = λ k. none;
  game = λ k. none;
  place = place;
  address = address;
}

-- The lobbies that can come about.
pub data Comes (env : Env) : Lobby → Type 0 where
  starts : (place : ℕ → ℕ) (address : ℕ → Option ℕ) → Comes env (empty_lobby place address)
  goes_on : {l l' : Lobby} (e : Event) → Comes env l → Moves env l e l' → Comes env l'
