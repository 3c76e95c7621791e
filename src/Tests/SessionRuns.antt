-- ===== src/Tests/SessionRuns.antt =====
-- A session and its writer on concrete bytes.
use worms2lobby_server_cpp.Packet.Typed.Packets.{IsReadFrom, read_from-IsReadFrom}
use worms2lobby_server_cpp.Base.{
  ℕ, ◌≡◌, ◌≢◌, refl, ap, arith, none, some, Option, List, [], ◌∷◌, ◌++◌, map, length, true, false,
  replicate,
}
use mathlib.Core.List.{Perm, perm_append_singleton}
use mathlib.Core.List.Perm
use worms2lobby_server_cpp.Packet.Io.{
  Parser, ParseResult, complete, partial, error, fault, check, need, get_u32,
}
use worms2lobby_server_cpp.Packet.Code.{PacketCode, packet_code_exists, code_of_value}
use worms2lobby_server_cpp.Packet.Flags.{has_flag}
use worms2lobby_server_cpp.Packet.Fields.{WormsPacket, no_fields, new_packet}
use worms2lobby_server_cpp.Packet.Read.{
  read_from, read_fields, read_value, value_body, read_data_length, read_data, read_name, read_info,
  when_flag,
}
use worms2lobby_server_cpp.Packet.Stream.{read_from-prefix}
use worms2lobby_server_cpp.Lobby.Database.{empty_database}
use worms2lobby_server_cpp.Lobby.Handler.Dispatch.{handle_packet, handle_code}
use worms2lobby_server_cpp.Lobby.Handler.Lists.{on_list_rooms}
use worms2lobby_server_cpp.Lobby.Connection.{
  Framed, got, needs_more, broken, FramedReader, spins, fails, Received, bytes, disconnected,
  handle_session, run,
}
use worms2lobby_server_cpp.Lobby.Connection.Serve.{Frame, serve, packets, read_nil}
use worms2lobby_server_cpp.Lobby.Connection.Cut.{handle_session-serve, handle_session-ne-spins}
use worms2lobby_server_cpp.Lobby.Connection.Whole.{Lived, run-Lived}
use worms2lobby_server_cpp.Lobby.Connection.Ends.{Over, run-ends}
use worms2lobby_server_cpp.Lobby.Session.{handle_login}
use worms2lobby_server_cpp.Lobby.Reach.{starts}
use worms2lobby_server_cpp.Lobby.Writer.{Bytes, PacketQueue, expired, Round, Writer, writer}
use worms2lobby_server_cpp.Lobby.Writer.Conserves.{held, arrived, writer-Perm}
use worms2lobby_server_cpp.Lobby.Writer.Drains.{IsQuiet, Drained, writer-Drained}
use worms2lobby_server_cpp.Tests.Samples.{
  sample_io, sample_settings, sample_env, alice, login_bytes, empty_world, sample_world,
}

abbrev pub sample_parse : Parser WormsPacket
sample_parse = read_from sample_io sample_settings

abbrev framed : List ℕ → ParseResult WormsPacket → Framed × List ℕ
framed s (complete p rest) = (got p, rest)
framed s partial = (needs_more, s)
framed s (error e) = (broken e, s)
framed s fault = (needs_more, s)

abbrev sample_reader : FramedReader sample_parse
sample_reader = record {
  State = List ℕ;
  start = [];
  append = λ s b. s ++ b;
  try_read_packet = λ s. framed s (sample_parse s);
  buffered = λ s. s;
  start_lem = refl;
  append_lem = λ s b. refl;
  complete_lem = λ s p rest e. (ap (λ r. (framed s r).0) e, ap (λ r. (framed s r).1) e);
  partial_lem = λ s e. (ap (λ r. (framed s r).0) e, ap (λ r. (framed s r).1) e);
  error_lem = λ s x e. ap (λ r. (framed s r).0) e;
}

-- A request for the list of the rooms.
abbrev pub list_rooms : WormsPacket
list_rooms = record {
  code = PacketCode.list_rooms;
  flags = 0;
  fields = record no_fields { value4 = some 0 };
}

abbrev pub head_bytes : List ℕ
head_bytes = 200 ∷ 0 ∷ 0 ∷ 0 ∷ 16 ∷ 0 ∷ []

abbrev tail_bytes : List ℕ
tail_bytes = 0 ∷ 0 ∷ 0 ∷ 0 ∷ 0 ∷ 0 ∷ []

list_rooms_read : sample_parse (head_bytes ++ tail_bytes) ≡ complete list_rooms []
unfolding read_from read_fields read_value value_body read_data_length read_data read_name read_info
    check need get_u32 packet_code_exists code_of_value has_flag when_flag new_packet
list_rooms_read = refl

read_from-prefix_example : sample_parse head_bytes ≡ partial
read_from-prefix_example =
    read_from-prefix sample_io sample_settings head_bytes tail_bytes list_rooms list_rooms_read
      (λ e. cc)

read_from-IsReadFrom_example : IsReadFrom sample_settings (head_bytes ++ tail_bytes) list_rooms
read_from-IsReadFrom_example =
    read_from-IsReadFrom sample_io sample_settings (head_bytes ++ tail_bytes) [] list_rooms
      (omega arith) list_rooms_read

abbrev request : Frame sample_env
request = record { wire = head_bytes ++ tail_bytes; packet = list_rooms; reads = list_rooms_read }

served : (serve sample_env alice (packets (request ∷ [])) sample_world).0 ≢ fails
unfolding serve handle_packet handle_code on_list_rooms
served e = cc

handle_session-serve_example :
    handle_session sample_env sample_reader
      (map bytes (head_bytes ∷ tail_bytes ∷ []))
      alice
      []
      sample_world
    ≡ serve sample_env alice (packets (request ∷ [])) sample_world
handle_session-serve_example =
    handle_session-serve sample_env sample_reader alice (head_bytes ∷ tail_bytes ∷ [])
      (request ∷ []) [] sample_world (λ e. cc, (λ e. cc, tt)) refl (read_nil sample_env) served

abbrev sample_events : List Received
sample_events = bytes head_bytes ∷ bytes tail_bytes ∷ []

handle_session-ne-spins_example :
    (handle_session sample_env sample_reader sample_events alice [] sample_world).0 ≢ spins
handle_session-ne-spins_example =
    handle_session-ne-spins sample_env sample_reader alice sample_events [] sample_world

run-Lived_example :
    Lived sample_env empty_world
      (run sample_env sample_reader 1 login_bytes (sample_events ++ disconnected ∷ []) empty_world)
unfolding empty_database
run-Lived_example =
    run-Lived sample_env sample_reader 1 login_bytes (sample_events ++ disconnected ∷ [])
      empty_world (starts empty_world refl) (omega arith)

run-ends_example :
    Over sample_env sample_reader sample_events
      (handle_login sample_env 1 login_bytes empty_world)
      (run sample_env sample_reader 1 login_bytes (sample_events ++ disconnected ∷ []) empty_world)
run-ends_example = run-ends sample_env sample_reader 1 login_bytes sample_events [] empty_world

-- A queue that hands the packets out in order.
abbrev first_out : List Bytes → Option (Bytes × List Bytes)
first_out [] = none
first_out (p ∷ q) = some (p, q)

pub first_out_lem :
    (q : List Bytes) (p : Bytes) (r : List Bytes) → first_out q ≡ some (p, r) → Perm q (p ∷ r)
first_out_lem [] p r e = cc
first_out_lem (x ∷ q) p r e = let f : x ∷ q ≡ p ∷ r = cc in rw f Perm.rfl

prompt : (q : List Bytes) → first_out q ≡ none → q ≡ []
prompt [] e = refl
prompt (p ∷ q) e = cc

abbrev sample_packets : PacketQueue
sample_packets = record {
  try_dequeue = first_out;
  enqueue = λ q p. q ++ p ∷ [];
  size_approx = λ q. length q;
  try_dequeue_lem = first_out_lem;
  enqueue_lem = λ q p. perm_append_singleton p q;
}

abbrev eighteen : List Bytes
eighteen = replicate 18 (1 ∷ [])

abbrev sample_writer : Writer
sample_writer = record { queue = eighteen; written = []; unsent = []; lost = []; is_running = true }

abbrev quiet_round : Round
quiet_round = record {
  arrivals = [];
  is_shutting_down = false;
  write_fails = false;
  wake = expired;
}

writer-Perm_example :
    Perm
      (held (writer sample_packets (quiet_round ∷ []) sample_writer))
      (held sample_writer ++ arrived (quiet_round ∷ []))
writer-Perm_example = writer-Perm sample_packets (quiet_round ∷ []) sample_writer

quiet : IsQuiet quiet_round
quiet = record { arrives = refl; stays = refl; writes = refl; wakes = λ e. cc }

writer-Drained_example :
    Drained sample_packets sample_writer
      (writer sample_packets (quiet_round ∷ quiet_round ∷ []) sample_writer)
writer-Drained_example =
    writer-Drained sample_packets prompt (quiet_round ∷ quiet_round ∷ []) sample_writer
      (quiet, (quiet, tt)) refl (omega arith)
