-- ===== src/Server/System/Events.antt =====
-- What each event of src/server.cpp and src/user_session.cpp does to who is on the server: its users are
-- those of the sessions that are alive.
use worms2lobby_server_cpp.Base.{
  ℕ, suc, ◌≤◌, ◌≡◌, refl, subst, ◌∙◌, arith, List, [], ◌∷◌, map, length, All,
}
use worms2lobby_server_cpp.Packet.Fields.{WormsPacket}
use worms2lobby_server_cpp.Lobby.Entities.{User}
use worms2lobby_server_cpp.Lobby.Table.{count, count-put, count-erase}
use worms2lobby_server_cpp.Lobby.World.{Env, World}
use worms2lobby_server_cpp.Lobby.Sound.{All-map}
use worms2lobby_server_cpp.Lobby.Invariant.{IsLoggedIn}
use worms2lobby_server_cpp.Lobby.Preserve.{HasIds}
use worms2lobby_server_cpp.Lobby.Handler.Dispatch.{handle_packet}
use worms2lobby_server_cpp.Lobby.Handles.{handle_packet-Kept}
use worms2lobby_server_cpp.Lobby.Session.{LoginEnd, refused, taken, accepted, disconnect_user}
use worms2lobby_server_cpp.Lobby.Session.Login.{Enters}
use worms2lobby_server_cpp.Lobby.Reach
use worms2lobby_server_cpp.Lobby.Reach.{Reachable-IsSound}
use worms2lobby_server_cpp.Lobby.Connection.Lives.{IsLoggedIn-users}
use worms2lobby_server_cpp.Lobby.Connection.Whole.{disconnect_user-users, known-nonzero}
use worms2lobby_server_cpp.Lobby.Connection.Meanwhile.{login-IsLoggedIn, departure-IsLoggedIn}
use worms2lobby_server_cpp.Server.Listener.{Server}
use worms2lobby_server_cpp.Server.Listener.Limit.{IsWithin}
use worms2lobby_server_cpp.Server.System.{
  Client, connected, member, finished, became, Without, System, Ends,
}
use worms2lobby_server_cpp.Server.System.Members.{
  member_id, member_ids, Known, length-Without, All-Without, count-Without, length_ids-Without,
  IsOther, others, length-put, length-erase, member_id-Ends, Known-map,
}

-- The users of the table are those that the sessions serve, each by one session, and the sessions
-- are counted and within the limit.
pub record IsPopulated (env : Env) (max : ℕ) (x : System) : Type 0 where
  pub lobby : Reach.Reachable env x.1
  pub within : IsWithin max (x.0, length x.2)
  pub same_users : (k : ℕ) → count k (map (λ u. u.id) x.1.users) ≡ count k (member_ids x.2)
  pub same_number : length x.1.users ≡ length (member_ids x.2)
  pub known : All (Known x.1) x.2

module _ (env : Env) (max : ℕ) where
  -- A step of the listener alone.
  pub listens :
      (s s' : Server) (w : World) (cs : List Client)
      → (IsWithin max (s, length cs) → IsWithin max (s', length cs))
      → IsPopulated env max (s, w, cs)
      → IsPopulated env max (s', w, cs)
  listens s s' w cs f i = record {
    lobby = i.lobby;
    within = f i.within;
    same_users = i.same_users;
    same_number = i.same_number;
    known = i.known;
  }

  -- A session that ends, or that has never begun, leaves the users as they are.
  changes :
      (c c' : Client) (s : Server) (w v : World) (cs rest : List Client)
      → member_id c ≡ []
      → member_id c' ≡ []
      → Known v c'
      → Without c cs rest
      → v.users ≡ w.users
      → Reach.Reachable env v
      → IsPopulated env max (s, w, cs)
      → IsPopulated env max (s, v, c' ∷ rest)
  changes c c' s w v cs rest m m' k' t e l i = record {
    lobby = l;
    within = subst (λ n. IsWithin max (s, n)) (length-Without c t) i.within;
    same_users = λ k. rw (e, m') (i.same_users k ∙ count-Without c k t ∙ rw m (omega arith));
    same_number = rw (e, m') (i.same_number ∙ length_ids-Without c t ∙ rw m (omega arith));
    known = (
      k',
      All-map rest (Known-map w v (λ u. IsLoggedIn-users u w v e))
          (All-Without c (Known w) t i.known).1,
    );
  }

  -- A login, however it ends.
  pub enters :
      (session : ℕ) (s : Server) (w : World) (cs rest : List Client) (r : LoginEnd × World)
      → Without (connected session) cs rest
      → IsPopulated env max (s, w, cs)
      → Enters w.users (suc w.next_id) r
      → Reach.Reachable env r.1
      → IsPopulated env max (s, r.1, became session r.0 ∷ rest)
  enters session s w cs rest (accepted user, v) t i h l =
      let (e, n) = h.added user refl in
      record {
        lobby = l;
        within = subst (λ n. IsWithin max (s, n)) (length-Without (connected session) t) i.within;
        same_users = λ k. rw e (
            omega (
              arith,
              count-put (λ (u : User). u.id) k user w.users n,
              i.same_users k,
              count-Without (connected session) k t,
            ));
        same_number = rw e (
            omega (
              arith,
              length-put (λ (u : User). u.id) user w.users n,
              i.same_number,
              length_ids-Without (connected session) t,
            ));
        known = (
          h.known user refl,
          All-map rest (Known-map w v (λ u. login-IsLoggedIn env u w (accepted user, v) h))
              (All-Without (connected session) (Known w) t i.known).1,
        );
      }
  enters session s w cs rest (refused, v) t i h l =
      changes (connected session) (finished session) s w v cs rest refl refl tt t
        (h.turned_away (λ u e. cc)) l i
  enters session s w cs rest (taken reply, v) t i h l =
      changes (connected session) (finished session) s w v cs rest refl refl tt t
        (h.turned_away (λ u e. cc)) l i

  -- A packet of a session's user.
  pub serves :
      (user : User) (p : WormsPacket) (s : Server) (w : World) (cs rest : List Client)
      → Without (member user) cs rest
      → HasIds w
      → IsPopulated env max (s, w, cs)
      → IsPopulated env max (s, (handle_packet env user p w).1, cs)
  serves user p s w cs rest t b i =
      let l : IsLoggedIn user w = (All-Without (member user) (Known w) t i.known).0 in
      let v = (handle_packet env user p w).1 in
      let e = (handle_packet-Kept env user p w (Reachable-IsSound env w i.lobby) l b).same_users in
      record {
        lobby = Reach.goes_on i.lobby (Reach.sends user p w l b);
        within = i.within;
        same_users = λ k. rw e (i.same_users k);
        same_number = rw e i.same_number;
        known = All-map cs (Known-map w v (λ u. IsLoggedIn-users u w v e)) i.known;
      }

  -- The others stay known where a user disconnects.
  stay :
      (user : User) (w : World)
      → Reach.Reachable env w
      → IsLoggedIn user w
      → (cs : List Client) → All (IsOther user.id) cs
      → All (Known w) cs
      → All (Known (disconnect_user env user w)) cs
  stay user w r l [] o k = tt
  stay user w r l (connected session ∷ cs) (o, os) (k, ks) = (tt, stay user w r l cs os ks)
  stay user w r l (member other ∷ cs) (o, os) (k, ks) =
      (departure-IsLoggedIn env other user w r l o k, stay user w r l cs os ks)
  stay user w r l (finished session ∷ cs) (o, os) (k, ks) = (tt, stay user w r l cs os ks)

  -- The end of a session with its user.
  pub parts :
      (user : User) (s : Server) (w : World) (cs rest : List Client)
      → Without (member user) cs rest
      → IsPopulated env max (s, w, cs)
      → IsPopulated env max (s, disconnect_user env user w, finished user.session ∷ rest)
  parts user s w cs rest t i =
      let (l, ks) = All-Without (member user) (Known w) t i.known in
      let e = disconnect_user-users env user w (known-nonzero env user w i.lobby l) in
      let once : count user.id (map (λ u. u.id) w.users) ≤ 1 =
        omega (arith, (Reachable-IsSound env w i.lobby).unique.once user.id) in
      let alone : count user.id (member_ids rest) ≡ 0 =
        ground (arith, i.same_users user.id, count-Without (member user) user.id t) in
      record {
        lobby = Reach.goes_on i.lobby (Reach.disconnects user w l);
        within = subst (λ n. IsWithin max (s, n)) (length-Without (member user) t) i.within;
        same_users = λ k. rw e (
            ground (
              arith,
              count-erase (λ (u : User). u.id) k user.id w.users,
              i.same_users k,
              count-Without (member user) k t,
            ));
        same_number = rw e (
            ground (
              arith,
              length-erase (λ (u : User). u.id) user.id w.users,
              i.same_users user.id,
              count-Without (member user) user.id t,
              i.same_number,
              length_ids-Without (member user) t,
            ));
        known = (tt, stay user w i.lobby l rest (others user.id rest alone) ks);
      }

  -- The destruction of a session.
  pub shuts :
      (c : Client) (s s' : Server) (w : World) (cs rest : List Client)
      → Without c cs rest
      → Ends c
      → (IsWithin max (s, suc (length rest)) → IsWithin max (s', length rest))
      → IsPopulated env max (s, w, cs)
      → IsPopulated env max (s', w, rest)
  shuts c s s' w cs rest t x f i = record {
    lobby = i.lobby;
    within = f (subst (λ n. IsWithin max (s, n)) (length-Without c t) i.within);
    same_users = λ k. i.same_users k ∙ count-Without c k t ∙ rw (member_id-Ends c x) (omega arith);
    same_number = i.same_number ∙ length_ids-Without c t ∙ rw (member_id-Ends c x) (omega arith);
    known = (All-Without c (Known w) t i.known).1;
  }
