-- ===== src/Lib.antt =====
-- The Worms 2 lobby server: a model of its text conversions, its wire format and its lobby, with the
-- properties that make them correct.
--
-- The program. A client connects by TCP and sends packets. A session (src/user_session.cpp) reads the
-- login, makes a user and hands every later packet to the handlers (src/packet_handler.cpp), which
-- work on the one database of users, rooms and games (src/database.cpp) and queue packets for the
-- sessions. Packets are read and written by src/worms_packet.cpp and src/session_info.cpp, and the
-- texts in them are converted between UTF-8 and a code page by include/windows_1251.hpp or
-- include/windows_1252.hpp. The writer of a session takes the queued packets and writes them in
-- batches. A listener (src/server.cpp) makes the sessions, up to a limit, and main.cpp reads the port,
-- that limit and the number of threads off the command line.
--
-- The files.
-- Base holds the names of the libraries, and lemmas on Booleans, lists and tables of cases.
-- In Text, `Windows1251` and `Windows1252` are the two code pages, over the loops of `CodePage`, which
-- both classes hold; `Utf8` is utf8ToCodepoint and appendUtf8; `StringUtils` is
-- include/string_utils.hpp. A string is the list of its bytes. `Utf8.Standard` has the encoding form of
-- the Unicode standard; `CodePage.Page` says what a page and its encoder are, the two `Standard` have
-- the pages by their characters, and with `CodePage.Unicode` what the code makes of the texts.
-- In Packet, `Code`, `Flags`, `SessionInfo` and `Fields` are the data; `Read` is WormsPacket::readFrom,
-- block by block, in a parser monad of `Io` whose results are those of the source (complete, partial,
-- error) and `fault`, the dereference of an empty optional; `Write` is writeTo and freeze. The
-- packet library is the record `PacketIo` of `Io`, with its documented behaviour as laws; nothing is
-- assumed of a read past the end. `Rules` counts bytes, `Layout` is an independent description of
-- the bytes, and `FlagTable` one of the flags. `Steady` and `Stream` are about a stream: a parser that
-- has decided decides the same with more bytes. `Typed` says what a packet that was read is, and
-- `Nation` is the enumeration of the flags.
-- In Lobby, `Entities` and `Table` hold the objects and the maps, `Database` the database with the
-- queue of identifiers as the interface `IdQueue`, which says that a queue keeps numbers and nothing
-- of their order. `World` is the state that the handlers share: the database, the room of each user
-- (by its session), the sessions that are alive and the packets that were queued. `Handler` has a
-- function for each handler, from a world to an outcome (a value or an exception) and a world.
-- `Session` has the login, from the received bytes on, and the disconnection. `Sound` is the
-- invariant, with `Names`, and `Reach` the step relation of the server; `Sent`, `Told` and `Hosting` are
-- about the packets that are sent, `Silent` is about the handlers that only send, and
-- `Kept` about what a packet leaves alone. `View` is the lobby without the order of its tables and
-- without its queues, as functions from identifiers; `View.Spec` says there what may happen and when,
-- by relations on such views; `Requests`, `Departures`, `Arrivals` and `Refines` are about the code
-- against them, and `Bystanders` is about the users who do not act.
-- `Connection` is UserSession::handleSession and run, over the interface `FramedReader` of the packet
-- library's framed reader: `handle_buffered` is the inner loop, `handle_session` the outer one over the
-- list of what the socket brings, and `run` a session from its login to its disconnection. `Serve` is
-- the session that is handed packets and not bytes; `Cut`, `Lives` and `Whole` are about the loops,
-- `Ends` about the end of the connection, `First` about the first receive and `Meanwhile` about the other sessions.
-- `Writer` is UserSession::writer, sendPacket and the destructor's loop, over the interface
-- `PacketQueue`, round by round: a round has what happens around it, the packets that are queued before
-- it, the failure of its write and the end of its wait.
-- In Server, `Stoi` is std::stoi and the conversions of its result, `Arguments` is
-- ParseCommandLineArguments and main, and `Listener` is Server::listener, from one wait to the next,
-- with the counting of the connections by the sessions, Server::stop and the threads of Server::run.
-- `System` is the whole server: the listener, the sessions that it makes, each before its login, with
-- its user or at its end, and the lobby; `Members`, `Events` and `Population` are about who is on it.
-- Tests has a packet library, the queues and a lobby, and a run of every theorem.
--
-- Numbers are natural numbers; 32-bit arithmetic that can wrap is written with its modulus, and
-- `HasIds` says that the counter of identifiers is not about to wrap. The loops of the code pages run
-- on the length of the input as fuel, which is enough since each round takes a byte at least. The
-- inner loop of handleSession has a round for each byte of the buffer and one more, `fuel_for`, and a
-- packet has eight bytes at least; the destructor's loop has as many rounds as it is given. All other
-- loops are over lists, those of handleSession and the writer over the list of what happens.
--
-- Not modelled. A handler, a login from its receive on and a disconnection are one step each,
-- since they wait for nothing in between (but for the answer to a taken name, which is their last
-- act), and Server::run posts its further calls of the run loop to that loop, so that they nest on
-- one thread. The locks, and what more threads would interleave, are left out. `run` has no other
-- session in between, which the steps of `Reach` and `Meanwhile` have. Sockets, timers and signals
-- are only what they bring; that of a timer which closes the socket is the end of the connection.
-- Logging and the messages of the command line are left out. The flags of include/nation.hpp stay
-- bytes in packets and objects, as no code tests them.
pub mod Base
pub mod Text
pub mod Packet
pub mod Lobby
pub mod Server
pub mod Tests
