-- ===== src/Lobby/Connection.antt =====
-- `UserSession::handleSession` and `UserSession::run` of src/user_session.cpp.
pub mod Turns
pub mod Serve
pub mod Cut
pub mod Lives
pub mod Whole
pub mod Ends
pub mod First
pub mod Meanwhile
use worms2lobby_server_cpp.Base.{ℕ, zero, suc, ◌≡◌, Bool, true, false, List, [], ◌∷◌, ◌++◌, length}
use worms2lobby_server_cpp.Packet.Io.{ParseError, Parser, complete, partial, error}
use worms2lobby_server_cpp.Packet.Fields.{WormsPacket}
use worms2lobby_server_cpp.Packet.Read.{read_from}
use worms2lobby_server_cpp.Lobby.Entities.{User}
use worms2lobby_server_cpp.Lobby.World.{Env, World, Outcome, returned, threw}
use worms2lobby_server_cpp.Lobby.Handler.Dispatch.{handle_packet}
use worms2lobby_server_cpp.Lobby.Session.{
  LoginEnd, refused, taken, accepted, handle_login, disconnect_user,
}

-- What `try_read_packet` returns.
pub data Framed : Type 0 where
  got : WormsPacket → Framed
  needs_more : Framed
  broken : ParseError → Framed

-- `net::framed_packet_reader` over a function that parses one packet; the class is not part of the
-- repository. It keeps the bytes that are not read yet, and takes a packet off them where one is
-- complete. Nothing is said of it after an error.
pub record FramedReader (parse : Parser WormsPacket) : Type 1 where
  pub State : Type 0
  pub start : State
  pub append : State → List ℕ → State
  pub try_read_packet : State → Framed × State
  pub buffered : State → List ℕ
  pub start_lem : buffered start ≡ []
  pub append_lem : (s : State) (bytes : List ℕ) → buffered (append s bytes) ≡ buffered s ++ bytes
  pub complete_lem :
      (s : State) (p : WormsPacket) (rest : List ℕ)
      → parse (buffered s) ≡ complete p rest
      → ((try_read_packet s).0 ≡ got p) × (buffered (try_read_packet s).1 ≡ rest)
  pub partial_lem :
      (s : State)
      → parse (buffered s) ≡ partial
      → ((try_read_packet s).0 ≡ needs_more) × (buffered (try_read_packet s).1 ≡ buffered s)
  pub error_lem :
      (s : State) (e : ParseError) → parse (buffered s) ≡ error e → (try_read_packet s).0 ≡ broken e

-- Where the loop over the buffered packets stands: it waits for bytes, has ended the session, was
-- left by an exception, or was stopped for want of fuel.
pub data Turn : Type 0 where
  waits ends fails spins : Turn

-- What a receive brings: bytes, or the end of the connection by `eof` or another error.
pub data Received : Type 0 where
  bytes : List ℕ → Received
  disconnected : Received

-- `run` ends where the login fails, and after the session. `running` is a session that still waits.
pub data Life : Type 0 where
  not_admitted : Life
  closed : Life
  running : Life

module _ (env : Env) (reader : FramedReader (read_from env.io env.settings)) where
  open reader use {State, start, append, try_read_packet, buffered}

  -- `while (true)` over the packets of the buffer.
  unfoldable pub handle_buffered : ℕ → User → State → World → Turn × State × World
  handle_buffered zero client s w = (spins, s, w)
  handle_buffered (suc fuel) client s w =
      let (framed, s') = try_read_packet s in
      elim framed [
        | needs_more ↦ (waits, s', w)
        | broken e ↦ (ends, s', w)
        | got p ↦
            let (outcome, w') = handle_packet env client p w in
            elim outcome [
              | returned true ↦ handle_buffered fuel client s' w'
              | returned false ↦ (ends, s', w')
              | threw ↦ (fails, s', w')
            ]
      ]

  -- A packet takes a byte at least, so the bytes of the buffer are fuel enough.
  abbrev pub fuel_for : State → ℕ
  fuel_for s = suc (length (buffered s))

  -- What follows the loop over the buffer: the next receive, also after an exception, or the end.
  unfoldable pub next_receive : (State → World → Turn × World) → Turn × State × World → Turn × World
  next_receive receive (waits, s, w) = receive s w
  next_receive receive (ends, s, w) = (ends, w)
  next_receive receive (fails, s, w) = receive s w
  next_receive receive (spins, s, w) = (spins, w)

  -- `while (socket_.is_open())` over what the socket brings.
  unfoldable pub handle_session : List Received → User → State → World → Turn × World
  unfolding handle_buffered next_receive
  handle_session [] client s w = (waits, w)
  handle_session (disconnected ∷ events) client s w = (ends, w)
  handle_session (bytes [] ∷ events) client s w = (ends, w)
  handle_session (bytes (b ∷ bs) ∷ events) client s w =
      let s' = append s (b ∷ bs) in
      next_receive (λ s'' w'. handle_session events client s'' w')
        (handle_buffered (fuel_for s') client s' w)

  unfoldable pub after_session : User → Turn × World → Life × World
  after_session user (ends, w) = (closed, disconnect_user env user w)
  after_session user (waits, w) = (running, w)
  after_session user (fails, w) = (running, w)
  after_session user (spins, w) = (running, w)

  unfoldable pub after_login : List Received → LoginEnd × World → Life × World
  unfolding handle_session after_session
  after_login events (refused, w) = (not_admitted, w)
  after_login events (taken reply, w) = (not_admitted, w)
  after_login events (accepted user, w) = after_session user (handle_session events user start w)

  -- The whole life of a session that receives `first` and then the events.
  unfoldable pub run : ℕ → List ℕ → List Received → World → Life × World
  unfolding after_login
  run session first events w = after_login events (handle_login env session first w)
