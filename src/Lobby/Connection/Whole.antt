-- ===== src/Lobby/Connection/Whole.antt =====
-- `UserSession::run` of src/user_session.cpp: the login, the session and the disconnection of one
-- client, one after the other.
use worms2lobby_server_cpp.Base.{
  ℕ, suc, ◌+◌, ◌<◌, ◌≡◌, ◌≢◌, refl, ap, ◌∙◌, arith, ◌==◌, ==_refl, false, List, [], ◌∷◌, map, inl,
  inr, Bool-cases, Option, Option-cases,
}
use worms2lobby_server_cpp.Packet.Read.{read_from}
use worms2lobby_server_cpp.Lobby.Entities.{User, Room, Game}
use worms2lobby_server_cpp.Lobby.Table.{count, put, erase}
use worms2lobby_server_cpp.Lobby.Database.{
  Database, u32, get_user, get_game_by_name, remove_user, remove_game,
}
use worms2lobby_server_cpp.Lobby.World.{Env, World, on_database}
use worms2lobby_server_cpp.Lobby.Quiet.{send-Quiet, each-Quiet}
use worms2lobby_server_cpp.Lobby.Invariant.{IsLoggedIn, leave_room-Quiet}
use worms2lobby_server_cpp.Lobby.Sound.{find-count}
use worms2lobby_server_cpp.Lobby.Kept.{after_close-Still}
use worms2lobby_server_cpp.Lobby.Reach.{logs_in, disconnects, Reachable, goes_on, Reachable-IsSound}
use worms2lobby_server_cpp.Lobby.Session.{
  LoginEnd, refused, taken, accepted, leave_room_on_exit, leaver, handle_login, disconnect_user,
}
use worms2lobby_server_cpp.Lobby.Session.Login.{Enters, handle_login-Enters}
use worms2lobby_server_cpp.Lobby.Session.Disconnect.{close_game-Quiet}
use worms2lobby_server_cpp.Lobby.Connection.{
  FramedReader, Turn, waits, ends, fails, spins, Received, after_session, after_login,
  handle_session, Life, running, run,
}
use worms2lobby_server_cpp.Lobby.Connection.Lives.{
  Served, received, IsLoggedIn-users, handle_session-Served,
}

-- A user who is put into the table and taken out again leaves it as it was.
erase-put :
    (u : User) (us : List User)
    → count u.id (map (λ v. v.id) us) ≡ 0
    → erase (λ v. v.id) u.id (put (λ v. v.id) u us) ≡ us
unfolding put
erase-put u [] h = rw (==_refl u.id) refl
erase-put u (v ∷ us) h = elim (Bool-cases (v.id == u.id)) [
  | inl e ↦ absurd (ground arith)
  | inr e ↦ rw (e, e) (ap (λ vs. v ∷ vs) (erase-put u us (ground arith)))
]

module _ (env : Env) where
  leaver-users :
      (client : User) (w : World)
      → (leaver env client w).2.users ≡ erase (λ u. u.id) client.id w.users
  unfolding remove_user remove_game
  leaver-users client w = elim (Option-cases (get_game_by_name client.name w'.database)) [
    | inl e ↦ rw (e, leaver) refl
    | inr (game, e) ↦
        rw (e, leaver) (rw (close_game-Quiet env client game w').same_database (game-users game))
  ]
    where
      w' : World
      w' = on_database (remove_user env.queue client.id) w

      game-users :
          (game : Game)
          → (on_database (remove_game env.queue game.id) w').users
            ≡ erase (λ u. u.id) client.id w.users
      game-users game = refl

  exit-users :
      (room : Option Room) (left_id : ℕ) (w : World)
      → (leave_room_on_exit env room left_id w).users ≡ w.users
  unfolding leave_room_on_exit
  exit-users room left_id w =
      ap (λ (d : Database). d.users) (leave_room-Quiet env 0 room left_id w).same_database
      ∙ (after_close-Still env 0 room left_id w).same_users

  pub disconnect_user-users :
      (client : User) (w : World)
      → (client.id == 0) ≡ false
      → (disconnect_user env client w).users ≡ erase (λ u. u.id) client.id w.users
  unfolding disconnect_user
  disconnect_user-users client w n = rw n (
      ap (λ (d : Database). d.users)
        (each-Quiet _ (λ user v. send-Quiet user _ v) _ _).same_database
      ∙ exit-users _ (leaver env client w).1 (leaver env client w).2
      ∙ leaver-users client w)

  -- The identifier of a user who is logged in is not 0.
  pub known-nonzero :
      (client : User) (w : World) → Reachable env w → IsLoggedIn client w → (client.id == 0) ≡ false
  unfolding get_user
  known-nonzero client w r l =
      let i = Reachable-IsSound env w r in
      ground (
        arith,
        i.unique.once client.id,
        i.unique.reserved client.id,
        (find-count (λ (u : User). u.id) client.id client w.users l).1,
      )

-- What the life of a session leaves of the lobby `w`.
pub record Lived (env : Env) (w : World) (r : Life × World) : Type 0 where
  pub reachable : Reachable env r.1
  pub over : r.0 ≢ running → r.1.users ≡ w.users

module _ (env : Env) (reader : FramedReader (read_from env.io env.settings)) where
  open reader use {start}

  -- From a lobby that can be reached, a session whose first receive and later events are any bytes
  -- leaves one that can be reached, and once it is over the table of users is the one from before,
  -- where the counter has a number for every byte and nobody else is served meanwhile.
  pub run-Lived :
      (session : ℕ) (first : List ℕ) (events : List Received) (w : World)
      → Reachable env w
      → w.next_id + received events + 2 < u32
      → Lived env w (run env reader session first events w)
  unfolding run after_login after_session
  run-Lived session first events w r b =
      begun (handle_login env session first w) (goes_on r (logs_in session first w (omega arith)))
        (handle_login-Enters env session first w (Reachable-IsSound env w r) (omega arith))
    where
      finished :
          (user : User) (v : World) (h : Turn × World)
          → v.users ≡ put (λ u. u.id) user w.users
          → count user.id (map (λ u. u.id) w.users) ≡ 0
          → IsLoggedIn user h.1
          → Served env v (w.next_id + received events + 1) h.1
          → Lived env w (after_session env reader user h)
      finished user v (ends, w') e n l f = record {
        reachable = goes_on f.reachable (disconnects user w' l);
        over = λ h.
            disconnect_user-users env user w' (known-nonzero env user w' f.reachable l)
            ∙ ap (λ us. erase (λ u. u.id) user.id us) (f.same_users ∙ e)
            ∙ erase-put user w.users n;
      }
      finished user v (waits, w') e n l f = record {
        reachable = f.reachable;
        over = λ h. absurd (h refl);
      }
      finished user v (fails, w') e n l f = record {
        reachable = f.reachable;
        over = λ h. absurd (h refl);
      }
      finished user v (spins, w') e n l f = record {
        reachable = f.reachable;
        over = λ h. absurd (h refl);
      }

      begun :
          (r : LoginEnd × World)
          → Reachable env r.1
          → Enters w.users (suc w.next_id) r
          → Lived env w (after_login env reader events r)
      begun (refused, v) r' h = record { reachable = r'; over = λ n. h.turned_away (λ user e. cc) }
      begun (taken reply, v) r' h = record {
        reachable = r';
        over = λ n. h.turned_away (λ user e. cc);
      }
      begun (accepted user, v) r' h =
          let (e, n) = h.added user refl in
          let l = h.known user refl in
          let f =
            handle_session-Served env reader user (w.next_id + received events + 1) v events start v
              (omega arith) l
              (record { reachable = r'; same_users = refl; next = omega (arith, h.next) })
              (rw reader.start_lem (omega (arith, h.next))) in
          finished user v (handle_session env reader events user start v) e n
            (IsLoggedIn-users user v (handle_session env reader events user start v).1 f.same_users
              l)
            f
