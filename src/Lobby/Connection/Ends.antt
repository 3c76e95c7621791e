-- ===== src/Lobby/Connection/Ends.antt =====
-- The end of a session: what `UserSession::run` of src/user_session.cpp does once the connection ends.
use worms2lobby_server_cpp.Base.{
  ℕ, ◌≡◌, ◌≢◌, refl, ap, ◌∙◌, arith, ◌==◌, ==_equal, none, List, [], ◌∷◌, ◌++◌, ◌⊎◌, inl, inr,
  Bool-cases,
}
use worms2lobby_server_cpp.Packet.Read.{read_from}
use worms2lobby_server_cpp.Lobby.Entities.{User}
use worms2lobby_server_cpp.Lobby.Table.{find, erase}
use worms2lobby_server_cpp.Lobby.Database.{get_user}
use worms2lobby_server_cpp.Lobby.World.{Env, World}
use worms2lobby_server_cpp.Lobby.Session.{
  LoginEnd, refused, taken, accepted, handle_login, disconnect_user,
}
use worms2lobby_server_cpp.Lobby.Connection.{
  FramedReader, Turn, waits, ends, fails, spins, Received, bytes, disconnected, handle_buffered,
  fuel_for, next_receive, after_session, after_login, handle_session, Life, not_admitted, closed,
  run,
}
use worms2lobby_server_cpp.Lobby.Connection.Turns.{handle_buffered-ne-spins}
use worms2lobby_server_cpp.Lobby.Connection.Whole.{disconnect_user-users}

find-erase : (k : ℕ) (us : List User) → find (λ u. u.id) k (erase (λ u. u.id) k us) ≡ none
find-erase k [] = refl
find-erase k (u ∷ us) = ground (arith, find-erase k us)

-- A user who has been disconnected is not in the table any more; the identifier 0 is nobody's.
disconnect_user-get_user :
    (env : Env) (user : User) (w : World)
    → (user.id ≡ 0) ⊎ (get_user user.id (disconnect_user env user w).database ≡ none)
unfolding get_user
disconnect_user-get_user env user w = elim (Bool-cases (user.id == 0)) [
  | inl e ↦ inl (==_equal e)
  | inr e ↦ inr (
      ap (find (λ u. u.id) user.id) (disconnect_user-users env user w e)
      ∙ find-erase user.id w.users)
]

module _ (env : Env) (reader : FramedReader (read_from env.io env.settings)) where
  open reader use {State, start, append}

  -- The end of the connection ends the session, whatever came before it, exceptions included, and
  -- nothing that comes after it is served.
  handle_session-ends :
      (client : User) (events more : List Received) (s : State) (w : World)
      → handle_session env reader (events ++ disconnected ∷ more) client s w
        ≡ (ends, (handle_session env reader (events ++ disconnected ∷ []) client s w).1)
  unfolding handle_session next_receive
  handle_session-ends client [] more s w = refl
  handle_session-ends client (disconnected ∷ events) more s w = refl
  handle_session-ends client (bytes [] ∷ events) more s w = refl
  handle_session-ends client (bytes (b ∷ bs) ∷ events) more s w =
      goes (handle_buffered env reader (fuel_for env reader s') client s' w)
        (handle_buffered-ne-spins env reader (fuel_for env reader s') client s' w (omega arith))
        (λ s'' w'. handle_session-ends client events more s'' w')
    where
      s' : State
      s' = append s (b ∷ bs)

      serve : List Received → State → World → Turn × World
      serve later s'' w' = handle_session env reader (events ++ disconnected ∷ later) client s'' w'

      goes :
          (r : Turn × State × World)
          → r.0 ≢ spins
          → ((s'' : State) (w' : World) → serve more s'' w' ≡ (ends, (serve [] s'' w').1))
          → next_receive env reader (serve more) r
            ≡ (ends, (next_receive env reader (serve []) r).1)
      goes (waits, s'', w') n rest = rest s'' w'
      goes (ends, s'', w') n rest = refl
      goes (fails, s'', w') n rest = rest s'' w'
      goes (spins, s'', w') n rest = absurd (n refl)

  -- What is served of a session before its connection ends.
  abbrev pub until_end : User → List Received → World → World
  until_end user events v = (handle_session env reader (events ++ disconnected ∷ []) user start v).1

  -- The session that a login begins is over: nobody was admitted, and nothing else happened, or the
  -- user is disconnected after what was served, and is gone.
  pub data Over (events : List Received) : LoginEnd × World → Life × World → Type 0 where
    turned_away : (v : World) → Over events (refused, v) (not_admitted, v)
    answered : (reply : List ℕ) (v : World) → Over events (taken reply, v) (not_admitted, v)
    parted :
        (user : User) (v : World)
        → (user.id ≡ 0)
          ⊎ (get_user user.id (disconnect_user env user (until_end user events v)).database ≡ none)
        → Over events
            (accepted user, v)
            (closed, disconnect_user env user (until_end user events v))

  -- A session whose connection ends is over, whatever came before it, exceptions of the handlers
  -- included: nobody was admitted, and the lobby is the one that the login left, or the user is
  -- disconnected from the lobby that was left by what came before the end, and is in the table no
  -- more, where its identifier is not 0. What comes after the end does not matter.
  pub run-ends :
      (session : ℕ) (first : List ℕ) (events more : List Received) (w : World)
      → Over events
          (handle_login env session first w)
          (run env reader session first (events ++ disconnected ∷ more) w)
  unfolding run after_login after_session
  run-ends session first events more w = begun (handle_login env session first w)
    where
      begun :
          (r : LoginEnd × World)
          → Over events r (after_login env reader (events ++ disconnected ∷ more) r)
      begun (refused, v) = turned_away v
      begun (taken reply, v) = answered reply v
      begun (accepted user, v) =
          rw (handle_session-ends user events more start v)
            (parted user v (disconnect_user-get_user env user (until_end user events v)))
