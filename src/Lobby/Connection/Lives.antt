-- ===== src/Lobby/Connection/Lives.antt =====
-- `UserSession::handleSession` of src/user_session.cpp as steps of the lobby.
use worms2lobby_server_cpp.Base.{
  ℕ, zero, suc, ◌+◌, ◌≤◌, ◌<◌, ◌≡◌, ◌≢◌, refl, ◌∙◌, arith, true, false, List, [], ◌∷◌, length,
  length-append,
}
use worms2lobby_server_cpp.Packet.Io.{ParseResult, complete, partial, error, fault}
use worms2lobby_server_cpp.Packet.Fields.{WormsPacket}
use worms2lobby_server_cpp.Packet.Read.{read_from}
use worms2lobby_server_cpp.Packet.Safety.{read_from-ne-fault}
use worms2lobby_server_cpp.Lobby.Entities.{User}
use worms2lobby_server_cpp.Lobby.Database.{get_user, u32}
use worms2lobby_server_cpp.Lobby.World.{Env, World, Outcome, returned, threw}
use worms2lobby_server_cpp.Lobby.Invariant.{IsLoggedIn}
use worms2lobby_server_cpp.Lobby.Handles.{handle_packet-Kept}
use worms2lobby_server_cpp.Lobby.Reach.{Reachable, goes_on, sends, Reachable-IsSound}
use worms2lobby_server_cpp.Lobby.Handler.Dispatch.{handle_packet}
use worms2lobby_server_cpp.Lobby.Connection.{
  FramedReader, Turn, waits, ends, fails, spins, Received, bytes, disconnected, handle_buffered,
  fuel_for, next_receive, handle_session,
}
use worms2lobby_server_cpp.Lobby.Connection.Turns.{
  turn_partial, turn_error, turn_served, turn_refused, turn_threw, shorter,
}

-- Every byte that a session is sent.
abbrev pub received : List Received → ℕ
received [] = 0
received (bytes bs ∷ events) = length bs + received events
received (disconnected ∷ events) = received events

-- A world that the lobby gets to from `v` with the same users, and how far its counter is.
pub record Served (env : Env) (v : World) (bound : ℕ) (w : World) : Type 0 where
  pub reachable : Reachable env w
  pub same_users : w.users ≡ v.users
  pub next : w.next_id ≤ bound

pub IsLoggedIn-users :
    (client : User) (v w : World) → w.users ≡ v.users → IsLoggedIn client v → IsLoggedIn client w
unfolding get_user
IsLoggedIn-users client v w e l = rw e l

module _ (env : Env) (reader : FramedReader (read_from env.io env.settings)) (client : User)
    (bound : ℕ) where
  open reader use {State, append, try_read_packet, buffered}

  handle_packet-Served :
      (p : WormsPacket) (v w : World)
      → bound + 1 < u32
      → IsLoggedIn client v
      → Served env v bound w
      → suc w.next_id ≤ bound
      → Served env v (suc w.next_id) (handle_packet env client p w).1
  handle_packet-Served p v w u l h b =
      let l' = IsLoggedIn-users client v w h.same_users l in
      let k =
        handle_packet-Kept env client p w (Reachable-IsSound env w h.reachable) l' (omega arith) in
      record {
        reachable = goes_on h.reachable (sends client p w l' (omega arith));
        same_users = k.same_users ∙ h.same_users;
        next = k.next;
      }

  record Turns (v : World) (r : Turn × State × World) : Type 0 where
    served : Served env v bound r.2
    left : r.0 ≢ ends → r.2.next_id + length (buffered r.1) ≤ bound

  weaker : (v w : World) (n : ℕ) → n ≤ bound → Served env v n w → Served env v bound w
  weaker v w n b h = record {
    reachable = h.reachable;
    same_users = h.same_users;
    next = omega (arith, h.next);
  }

  module _ (v : World) (u : bound + 1 < u32) (l : IsLoggedIn client v) where
    handle_buffered-Turns :
        (fuel : ℕ) (s : State) (w : World)
        → Served env v bound w
        → w.next_id + length (buffered s) ≤ bound
        → Turns v (handle_buffered env reader fuel client s w)
    unfolding handle_buffered
    handle_buffered-Turns zero s w h b = record { served = h; left = λ n. b }
    handle_buffered-Turns (suc fuel) s w h b =
        read (λ s' w' h' b'. handle_buffered-Turns fuel s' w' h' b')
          (read_from env.io env.settings (buffered s)) refl
      where
        Rest : Type 0
        Rest =
            (s' : State) (w' : World)
            → Served env v bound w'
            → w'.next_id + length (buffered s') ≤ bound
            → Turns v (handle_buffered env reader fuel client s' w')

        handled :
            (p : WormsPacket) (rest : List ℕ)
            → read_from env.io env.settings (buffered s) ≡ complete p rest
            → Served env v (suc w.next_id) (handle_packet env client p w).1
        handled p rest e =
            handle_packet-Served p v w u l h
              (omega (arith, shorter env reader (buffered s) p rest e))

        next :
            (p : WormsPacket) (rest : List ℕ)
            → read_from env.io env.settings (buffered s) ≡ complete p rest
            → Served env v bound (handle_packet env client p w).1
        next p rest e =
            weaker v _ (suc w.next_id) (omega (arith, shorter env reader (buffered s) p rest e))
              (handled p rest e)

        less :
            (p : WormsPacket) (rest : List ℕ)
            → read_from env.io env.settings (buffered s) ≡ complete p rest
            → (handle_packet env client p w).1.next_id + length (buffered (try_read_packet s).1)
              ≤ bound
        less p rest e =
            rw (reader.complete_lem s p rest e).1
              (omega (arith, shorter env reader (buffered s) p rest e, (handled p rest e).next))

        after :
            Rest
            → (p : WormsPacket) (rest : List ℕ)
            → read_from env.io env.settings (buffered s) ≡ complete p rest
            → (o : Outcome) → (handle_packet env client p w).0 ≡ o
            → Turns v (handle_buffered env reader (suc fuel) client s w)
        after go p rest e (returned true) k =
            rw (turn_served env reader fuel client s w p rest e k)
              (go _ _ (next p rest e) (less p rest e))
        after go p rest e (returned false) k =
            rw (turn_refused env reader fuel client s w p rest e k)
              (record { served = next p rest e; left = λ n. absurd (n refl) })
        after go p rest e threw k =
            rw (turn_threw env reader fuel client s w p rest e k)
              (record { served = next p rest e; left = λ n. less p rest e })

        read :
            Rest
            → (r : ParseResult WormsPacket) → read_from env.io env.settings (buffered s) ≡ r
            → Turns v (handle_buffered env reader (suc fuel) client s w)
        read go partial e =
            rw (turn_partial env reader fuel client s w e)
              (record { served = h; left = λ n. rw (reader.partial_lem s e).1 b })
        read go (error x) e =
            rw (turn_error env reader fuel client s w x e)
              (record { served = h; left = λ n. absurd (n refl) })
        read go fault e = absurd (read_from-ne-fault env.io env.settings (buffered s) e)
        read go (complete p rest) e = after go p rest e _ refl

module _ (env : Env) (reader : FramedReader (read_from env.io env.settings)) (client : User)
    (bound : ℕ) where
  open reader use {State, append, try_read_packet, buffered}

  -- While the counter has a number for every byte, a session goes from one reachable lobby to another,
  -- and keeps the users.
  pub handle_session-Served :
      (v : World) (events : List Received) (s : State) (w : World)
      → bound + 1 < u32
      → IsLoggedIn client v
      → Served env v bound w
      → w.next_id + length (buffered s) + received events ≤ bound
      → Served env v bound (handle_session env reader events client s w).1
  unfolding handle_session next_receive
  handle_session-Served v [] s w u l h b = h
  handle_session-Served v (disconnected ∷ events) s w u l h b = h
  handle_session-Served v (bytes [] ∷ events) s w u l h b = h
  handle_session-Served v (bytes (b ∷ bs) ∷ events) s w u l h c =
      goes (handle_buffered env reader (fuel_for env reader s') client s' w)
        (handle_buffered-Turns env reader client now v (omega (arith, room)) l
          (fuel_for env reader s') s' w
          (record { reachable = h.reachable; same_users = h.same_users; next = omega arith })
          (omega arith))
        (λ s'' w' h' c'. handle_session-Served v events s'' w' u l h' c')
    where
      s' : State
      s' = append s (b ∷ bs)

      now : ℕ
      now = w.next_id + length (buffered s')

      room : now + received events ≤ bound
      room = rw (reader.append_lem s (b ∷ bs)) (omega (arith, length-append (buffered s) (b ∷ bs)))

      wider : (w' : World) → Served env v now w' → Served env v bound w'
      wider w' f = record {
        reachable = f.reachable;
        same_users = f.same_users;
        next = omega (arith, f.next, room);
      }

      goes :
          (r : Turn × State × World)
          → Turns env reader client now v r
          → ((s'' : State) (w' : World)
              → Served env v bound w'
              → w'.next_id + length (buffered s'') + received events ≤ bound
              → Served env v bound (handle_session env reader events client s'' w').1)
          → Served env v bound
              (next_receive env reader
                (λ s'' w'. handle_session env reader events client s'' w')
                r).1
      goes (waits, s'', w') f rest =
          rest s'' w' (wider w' f.served) (omega (arith, f.left (λ e. cc), room))
      goes (ends, s'', w') f rest = wider w' f.served
      goes (fails, s'', w') f rest =
          rest s'' w' (wider w' f.served) (omega (arith, f.left (λ e. cc), room))
      goes (spins, s'', w') f rest = wider w' f.served
