-- ===== src/Lobby/Connection/Meanwhile.antt =====
-- What the other sessions do to the lobby between two packets of a client (src/user_session.cpp,
-- src/packet_handler.cpp).
use worms2lobby_server_cpp.Base.{
  ℕ, suc, ◌≡◌, ◌≢◌, refl, arith, ◌==◌, false, Option, some, List, [], ◌∷◌, inl, inr, Bool-cases,
}
use worms2lobby_server_cpp.Packet.Fields.{WormsPacket}
use worms2lobby_server_cpp.Lobby.Entities.{User}
use worms2lobby_server_cpp.Lobby.Table.{find, put, erase}
use worms2lobby_server_cpp.Lobby.Database.{get_user}
use worms2lobby_server_cpp.Lobby.World.{Env, World, Session}
use worms2lobby_server_cpp.Lobby.Sound.{find-count}
use worms2lobby_server_cpp.Lobby.Invariant.{IsLoggedIn}
use worms2lobby_server_cpp.Lobby.Preserve.{HasIds}
use worms2lobby_server_cpp.Lobby.Handler.Dispatch.{handle_packet}
use worms2lobby_server_cpp.Lobby.Handles.{handle_packet-Kept}
use worms2lobby_server_cpp.Lobby.Session.{
  LoginEnd, refused, taken, accepted, handle_login, disconnect_user,
}
use worms2lobby_server_cpp.Lobby.Session.Login.{Enters, handle_login-Enters}
use worms2lobby_server_cpp.Lobby.Reach.{
  logs_in, sends, disconnects, writes, Reachable, goes_on, Reachable-IsSound,
}
use worms2lobby_server_cpp.Lobby.Connection.Lives.{IsLoggedIn-users}
use worms2lobby_server_cpp.Lobby.Connection.Whole.{disconnect_user-users, known-nonzero}

-- The steps of the lobby, but for the disconnection of the client. Only the client's own session makes
-- that one, at its end.
pub data Meanwhile (env : Env) (client : User) : World → World → Type 0 where
  nothing : (w : World) → Meanwhile env client w w
  login :
      {v : World} (session : ℕ) (received : List ℕ) (w : World)
      → Meanwhile env client v w
      → HasIds w
      → Meanwhile env client v (handle_login env session received w).1
  packet :
      {v : World} (other : User) (p : WormsPacket) (w : World)
      → Meanwhile env client v w
      → IsLoggedIn other w
      → HasIds w
      → Meanwhile env client v (handle_packet env other p w).1
  departure :
      {v : World} (other : User) (w : World)
      → Meanwhile env client v w
      → IsLoggedIn other w
      → other.id ≢ client.id
      → Meanwhile env client v (disconnect_user env other w)
  output :
      {v : World} (sessions : ℕ → Option Session) (sent : List (ℕ × List ℕ)) (w : World)
      → Meanwhile env client v w
      → Meanwhile env client v (record w { sessions = sessions; sent = sent })

find-put_other :
    (k : ℕ) (c u : User) (us : List User)
    → u.id ≢ k
    → find (λ v. v.id) k us ≡ some c
    → find (λ v. v.id) k (put (λ v. v.id) u us) ≡ some c
unfolding put
find-put_other k c u [] n e = cc
find-put_other k c u (v ∷ us) n e = elim (Bool-cases (v.id == u.id)) [
  | inl f ↦
      let g : (v.id == k) ≡ false = ground arith in
      let h : (u.id == k) ≡ false = ground arith in rw (f, h) (ground arith)
  | inr f ↦ elim (Bool-cases (v.id == k)) [
    | inl g ↦ rw (f, g) (ground arith)
    | inr g ↦ rw (f, g) (find-put_other k c u us n (ground arith))
  ]
]

find-erase_other :
    (j k : ℕ) (c : User) (us : List User)
    → j ≢ k
    → find (λ v. v.id) k us ≡ some c
    → find (λ v. v.id) k (erase (λ v. v.id) j us) ≡ some c
find-erase_other j k c [] n e = cc
find-erase_other j k c (v ∷ us) n e = elim (Bool-cases (v.id == j)) [
  | inl f ↦ rw f (find-erase_other j k c us n (ground arith))
  | inr f ↦ elim (Bool-cases (v.id == k)) [
    | inl g ↦ rw (f, g) (ground arith)
    | inr g ↦ rw (f, g) (find-erase_other j k c us n (ground arith))
  ]
]

module _ (env : Env) (client : User) where
  pub login-IsLoggedIn :
      (w : World) (r : LoginEnd × World)
      → Enters w.users (suc w.next_id) r
      → IsLoggedIn client w
      → IsLoggedIn client r.1
  unfolding get_user
  login-IsLoggedIn w (refused, v) h l = rw (h.turned_away (λ user e. cc)) l
  login-IsLoggedIn w (taken reply, v) h l = rw (h.turned_away (λ user e. cc)) l
  login-IsLoggedIn w (accepted user, v) h l =
      let (e, n) = h.added user refl in
      let there = (find-count (λ (u : User). u.id) client.id client w.users l).1 in
      rw e (find-put_other client.id client user w.users (λ f. ground (arith, n, there, f)) l)

  pub departure-IsLoggedIn :
      (other : User) (w : World)
      → Reachable env w
      → IsLoggedIn other w
      → other.id ≢ client.id
      → IsLoggedIn client w
      → IsLoggedIn client (disconnect_user env other w)
  unfolding get_user
  departure-IsLoggedIn other w r k n l =
      rw (disconnect_user-users env other w (known-nonzero env other w r k))
        (find-erase_other other.id client.id client w.users n l)

  -- Whatever the sessions do meanwhile, in any order, while the counter has numbers left, a client
  -- that is logged in to a lobby that can be reached stays logged in until it is disconnected
  -- itself, and the lobby stays one that can be reached.
  pub Meanwhile-IsLoggedIn :
      {v w : World}
      → Meanwhile env client v w
      → Reachable env v
      → IsLoggedIn client v
      → Reachable env w × IsLoggedIn client w
  Meanwhile-IsLoggedIn (nothing w) r l = (r, l)
  Meanwhile-IsLoggedIn (login session received w m b) r l =
      let (r', l') = Meanwhile-IsLoggedIn m r l in
      (
        goes_on r' (logs_in session received w b),
        login-IsLoggedIn w _
            (handle_login-Enters env session received w (Reachable-IsSound env w r') b) l',
      )
  Meanwhile-IsLoggedIn (packet other p w m k b) r l =
      let (r', l') = Meanwhile-IsLoggedIn m r l in
      (
        goes_on r' (sends other p w k b),
        IsLoggedIn-users client w (handle_packet env other p w).1
            (handle_packet-Kept env other p w (Reachable-IsSound env w r') k b).same_users l',
      )
  Meanwhile-IsLoggedIn (departure other w m k n) r l =
      let (r', l') = Meanwhile-IsLoggedIn m r l in
      (goes_on r' (disconnects other w k), departure-IsLoggedIn other w r' k n l')
  Meanwhile-IsLoggedIn (output sessions sent w m) r l =
      let (r', l') = Meanwhile-IsLoggedIn m r l in
      (
        goes_on r' (writes sessions sent w),
        IsLoggedIn-users client w (record w { sessions = sessions; sent = sent }) refl l',
      )
