-- ===== src/Server/Listener.antt =====
-- src/server.cpp: the listener with its limit of connections, and the threads; and the counting of the
-- connections by the constructor and the destructor of src/user_session.cpp.
pub mod Limit
pub mod Threads
use worms2lobby_server_cpp.Base.{ℕ, ◌+◌, ◌-◌, ◌%◌, ◌^◌, leb, Bool, true, false, if◌then◌else◌}
use worms2lobby_server_cpp.Lobby.Database.{u32}

-- Where the coroutine of the listener stands: before it opens the acceptor, at the accept, between
-- the test of the limit and the construction of the session, or at its end.
pub data Position : Type 0 where
  idle accepting admitting left : Position

pub record Server : Type 0 where
  pub max_connections : ℕ
  pub connection_count : ℕ
  pub is_running : Bool
  pub position : Position

-- `running_` is false at first, and no connection is counted.
unfoldable pub new_server : ℕ → Server
new_server max = record {
  max_connections = max;
  connection_count = 0;
  is_running = false;
  position = idle;
}

-- What `async_accept` brings: a socket, or an error, which is that of an abort or another.
pub data Accept : Type 0 where
  socket aborted failed : Accept

-- `while (running_)`
unfoldable pub loop : Server → Server
loop s = record s { position = if s.is_running then accepting else left }

-- The acceptor is opened, or the listener ends.
unfoldable pub open_acceptor : Bool → Server → Server
unfolding loop
open_acceptor is_open s =
    if is_open then loop (record s { is_running = true }) else record s { position = left }

-- What follows an accept, up to the construction of the session.
unfoldable pub on_accept : Accept → Server → Server
unfolding loop
on_accept socket s =
    if leb s.max_connections s.connection_count then loop s else record s { position = admitting }
on_accept aborted s = loop s
on_accept failed s = loop (record s { is_running = false })

-- The constructor and the destructor of a session count with a `std::atomic_uint32_t`.
unfoldable pub open_session : Server → Server
open_session s = record s { connection_count = (s.connection_count + 1) % u32 }

unfoldable pub close_session : Server → Server
close_session s = record s { connection_count = (s.connection_count + (u32 - 1)) % u32 }

-- The session is made, and the loop goes on.
unfoldable pub admit_client : Server → Server
unfolding loop open_session
admit_client s = loop (open_session s)

-- An exception of `set_option` ends the listener.
unfoldable pub fail : Server → Server
fail s = record s { position = left }

unfoldable pub stop : Server → Server
stop s = record s { is_running = false }

-- The calls of `ioContext_.run()` that `Server::run` starts, with the one of its own thread. The loop's
-- bound is `threadCount - 1` in a `size_t` of 64 bits.
unfoldable pub run_calls : ℕ → ℕ
run_calls thread_count = (thread_count + (2 ^ 64 - 1)) % 2 ^ 64 + 1
