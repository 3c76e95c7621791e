-- ===== src/Tests/LoginRuns.antt =====
-- A login on concrete bytes, and what comes after it.
use worms2lobby_server_cpp.Base.{
  ◌≡◌, refl, ap, subst, suc, append-nil, arith, [], ◌++◌, ◌∙◌, value_or,
}
use worms2lobby_server_cpp.Packet.Io.{complete}
use worms2lobby_server_cpp.Packet.Code.{PacketCode, packet_code_exists}
use worms2lobby_server_cpp.Packet.Fields.{new_packet}
use worms2lobby_server_cpp.Lobby.Database.{empty_database, get_next_id, count_up}
use worms2lobby_server_cpp.Lobby.Entities.{User, new_user}
use worms2lobby_server_cpp.Lobby.World.{World}
use worms2lobby_server_cpp.Lobby.Handler.Dispatch.{handle_packet}
use worms2lobby_server_cpp.Lobby.Connection.Serve.{Frame}
use worms2lobby_server_cpp.Lobby.Reach.{logs_in, starts, goes_on, Reachable, Reachable-IsSound}
use worms2lobby_server_cpp.Lobby.Connection.First.{login_of_frame, handle_login-drops}
use worms2lobby_server_cpp.Lobby.Session.{
  LoginEnd, accepted, handle_login, login_with, enter, admit,
}
use worms2lobby_server_cpp.Packet.RoundTrip.{CanSend, received, read_from-freeze}
use worms2lobby_server_cpp.Packet.SessionInfo
use worms2lobby_server_cpp.Packet.SessionInfo.{SessionInfo, verify_session_info}
use worms2lobby_server_cpp.Packet.Fields.{encode_string, decode_string}
use worms2lobby_server_cpp.Text.Utf8.{utf8_to_codepoint, append_utf8}
use worms2lobby_server_cpp.Text.CodePage.{encode_loop, encode_with, decode_loop, decode_with}
use worms2lobby_server_cpp.Text.Windows1251
use worms2lobby_server_cpp.Text.Windows1251.{unicode_to_windows_1251, windows_1251_to_unicode}
use worms2lobby_server_cpp.Tests.Samples.{
  sample_io, sample_settings, sample_env, login_fields, login_bytes, empty_world, sample_world,
}
use worms2lobby_server_cpp.Tests.SessionRuns.{sample_parse, list_rooms, head_bytes}
use worms2lobby_server_cpp.Lobby.Invariant.{IsLoggedIn}
use worms2lobby_server_cpp.Lobby.Session.Login.{Enters, handle_login-Enters}
use worms2lobby_server_cpp.Lobby.Preserve.{HasIds}
use worms2lobby_server_cpp.Lobby.Connection.Meanwhile.{
  Meanwhile, nothing, packet, Meanwhile-IsLoggedIn,
}

can_login : CanSend sample_settings login_fields
unfolding encode_string decode_string Windows1251.encode Windows1251.decode encode_with encode_loop
    decode_with decode_loop unicode_to_windows_1251 windows_1251_to_unicode utf8_to_codepoint
    append_utf8 SessionInfo.new verify_session_info
can_login = record {
  u32_value0 = tt;
  u32_value1 = omega arith;
  u32_value2 = tt;
  u32_value3 = tt;
  u32_value4 = omega arith;
  u32_value10 = tt;
  u32_error = tt;
  no_bare_length = refl;
  can_content = tt;
  can_name = ((refl, (refl, (refl, tt))), omega arith, refl, omega arith);
  can_info = (refl, omega arith, omega arith, refl);
}

login_read :
    sample_parse login_bytes ≡ complete (received sample_settings PacketCode.login login_fields) []
unfolding packet_code_exists
login_read =
    subst
      (λ s. sample_parse s ≡ complete (received sample_settings PacketCode.login login_fields) [])
      (append-nil login_bytes)
      (read_from-freeze sample_io sample_settings PacketCode.login login_fields [] refl can_login)

abbrev login_frame : Frame sample_env
login_frame = record {
  wire = login_bytes;
  packet = received sample_settings PacketCode.login login_fields;
  reads = login_read;
}

handle_login-drops_example :
    handle_login sample_env 2 (login_bytes ++ head_bytes) sample_world
    ≡ handle_login sample_env 2 login_bytes sample_world
handle_login-drops_example = handle_login-drops sample_env 2 login_frame sample_world head_bytes

-- Bob logs in.
abbrev bob : User
bob = new_user 2 0x1000 (value_or login_frame.packet.fields.name []) 7

bob_accepted : (handle_login sample_env 2 login_bytes empty_world).0 ≡ accepted bob
unfolding login_with enter admit get_next_id count_up empty_database new_packet SessionInfo.new
bob_accepted =
    ap (λ (r : LoginEnd × World). r.0) (login_of_frame sample_env 2 login_frame empty_world) ∙ refl

after_login : World
after_login = (handle_login sample_env 2 login_bytes empty_world).1

bob-Reachable : Reachable sample_env after_login
unfolding after_login empty_database
bob-Reachable = goes_on (starts empty_world refl) (logs_in 2 login_bytes empty_world (omega arith))

bob-Enters : Enters [] (suc 0x1000) (handle_login sample_env 2 login_bytes empty_world)
unfolding empty_database
bob-Enters =
    handle_login-Enters sample_env 2 login_bytes empty_world
      (Reachable-IsSound sample_env empty_world (starts empty_world refl)) (omega arith)

bob-IsLoggedIn : IsLoggedIn bob after_login
unfolding after_login
bob-IsLoggedIn = bob-Enters.known bob bob_accepted

ids_left : HasIds after_login
unfolding after_login
ids_left = omega (arith, bob-Enters.next)

-- Bob asks for the rooms.
abbrev listed : World
listed = (handle_packet sample_env bob list_rooms after_login).1

meanwhile : Meanwhile sample_env bob after_login listed
meanwhile = packet bob list_rooms after_login (nothing after_login) bob-IsLoggedIn ids_left

Meanwhile-IsLoggedIn_example : Reachable sample_env listed × IsLoggedIn bob listed
Meanwhile-IsLoggedIn_example =
    Meanwhile-IsLoggedIn sample_env bob meanwhile bob-Reachable bob-IsLoggedIn
