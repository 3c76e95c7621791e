-- ===== src/Lobby/Connection/First.antt =====
-- The first receive of `UserSession::handleLogin` of src/user_session.cpp, which is not framed.
use worms2lobby_server_cpp.Base.{
  ℕ, ◌-◌, ◌≡◌, ◌∙◌, refl, sym, List, [], ◌++◌, append_assoc, append-nil, length, replicate,
}
use worms2lobby_server_cpp.Packet.Io.{complete}
use worms2lobby_server_cpp.Packet.Read.{read_from}
use worms2lobby_server_cpp.Lobby.World.{Env, World}
use worms2lobby_server_cpp.Lobby.Session.{login_with, handle_login}
use worms2lobby_server_cpp.Lobby.Connection.Serve.{Frame, read_more}

module _ (env : Env) (session : ℕ) (f : Frame env) (w : World) where
  login_reads :
      (more : List ℕ)
      → handle_login env session (f.wire ++ more) w ≡ login_with env session f.packet w
  unfolding handle_login
  login_reads more =
      let zeros = replicate (1024 - length (f.wire ++ more)) 0 in
      let e : read_from env.io env.settings ((f.wire ++ more) ++ zeros)
          ≡ complete f.packet (more ++ zeros) =
        rw (append_assoc f.wire more zeros) (read_more env f (more ++ zeros)) in
      rw (e, handle_login) refl

  pub login_of_frame : handle_login env session f.wire w ≡ login_with env session f.packet w
  login_of_frame = rw (← append-nil f.wire) (login_reads [])

  -- The login takes one packet of the bytes that are received first: those behind it are dropped,
  -- and the login does the same without them.
  pub handle_login-drops :
      (more : List ℕ)
      → handle_login env session (f.wire ++ more) w ≡ handle_login env session f.wire w
  handle_login-drops more = login_reads more ∙ sym (login_reads []) ∙ rw (append-nil f.wire) refl
