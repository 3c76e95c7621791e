-- ===== src/Lobby/Connection/Turns.antt =====
-- The loop over the buffered packets in `UserSession::handleSession` of src/user_session.cpp, turn by
-- turn.
use worms2lobby_server_cpp.Base.{
  ℕ, zero, suc, ◌+◌, ◌≤◌, ◌<◌, ◌≡◌, ◌≢◌, refl, subst, arith, true, false, List, [], ◌++◌, length,
}
use worms2lobby_server_cpp.Packet.Io.{ParseResult, ParseError, complete, partial, error, fault}
use worms2lobby_server_cpp.Packet.Fields.{WormsPacket}
use worms2lobby_server_cpp.Packet.Read.{read_from}
use worms2lobby_server_cpp.Packet.Safety.{read_from-ne-fault}
use worms2lobby_server_cpp.Packet.Stream.{read_from-Steady}
use worms2lobby_server_cpp.Packet.Steady.{Extended}
use worms2lobby_server_cpp.Lobby.Entities.{User}
use worms2lobby_server_cpp.Lobby.World.{Env, World, Outcome, returned, threw}
use worms2lobby_server_cpp.Lobby.Handler.Dispatch.{handle_packet}
use worms2lobby_server_cpp.Lobby.Connection.{
  FramedReader, waits, ends, fails, spins, handle_buffered,
}

module _ (env : Env) (reader : FramedReader (read_from env.io env.settings)) where
  open reader use {State, start, append, try_read_packet, buffered}

  -- One turn of the loop, for each thing that the buffer can hold.
  module _ (fuel : ℕ) (client : User) (s : State) (w : World) where
    pub turn_partial :
        read_from env.io env.settings (buffered s) ≡ partial
        → handle_buffered env reader (suc fuel) client s w ≡ (waits, (try_read_packet s).1, w)
    unfolding handle_buffered
    turn_partial e = rw ((reader.partial_lem s e).0, handle_buffered) refl

    pub turn_error :
        (x : ParseError)
        → read_from env.io env.settings (buffered s) ≡ error x
        → handle_buffered env reader (suc fuel) client s w ≡ (ends, (try_read_packet s).1, w)
    unfolding handle_buffered
    turn_error x e = rw (reader.error_lem s x e, handle_buffered) refl

    module _ (p : WormsPacket) (u : List ℕ) where
      pub turn_served :
          read_from env.io env.settings (buffered s) ≡ complete p u
          → (handle_packet env client p w).0 ≡ returned true
          → handle_buffered env reader (suc fuel) client s w
            ≡ handle_buffered env reader fuel client
                (try_read_packet s).1
                (handle_packet env client p w).1
      unfolding handle_buffered
      turn_served e h = rw ((reader.complete_lem s p u e).0, handle_buffered, h) refl

      pub turn_refused :
          read_from env.io env.settings (buffered s) ≡ complete p u
          → (handle_packet env client p w).0 ≡ returned false
          → handle_buffered env reader (suc fuel) client s w
            ≡ (ends, (try_read_packet s).1, (handle_packet env client p w).1)
      unfolding handle_buffered
      turn_refused e h = rw ((reader.complete_lem s p u e).0, handle_buffered, h) refl

      pub turn_threw :
          read_from env.io env.settings (buffered s) ≡ complete p u
          → (handle_packet env client p w).0 ≡ threw
          → handle_buffered env reader (suc fuel) client s w
            ≡ (fails, (try_read_packet s).1, (handle_packet env client p w).1)
      unfolding handle_buffered
      turn_threw e h = rw ((reader.complete_lem s p u e).0, handle_buffered, h) refl

  -- A packet has eight bytes at least.
  pub shorter :
      (x : List ℕ) (p : WormsPacket) (u : List ℕ)
      → read_from env.io env.settings x ≡ complete p u
      → 8 + length u ≤ length x
  shorter x p u e =
      (subst (λ r. Extended 8 x [] r (read_from env.io env.settings (x ++ []))) e
        (read_from-Steady env.io env.settings x [] (omega arith))).1

  -- Every turn of the loop takes eight bytes at least, or leaves.
  pub handle_buffered-ne-spins :
      (fuel : ℕ) (client : User) (s : State) (w : World)
      → length (buffered s) < fuel
      → (handle_buffered env reader fuel client s w).0 ≢ spins
  handle_buffered-ne-spins zero client s w b = absurd (omega arith)
  handle_buffered-ne-spins (suc fuel) client s w b =
      read (λ s' w' c. handle_buffered-ne-spins fuel client s' w' c)
        (read_from env.io env.settings (buffered s)) refl
    where
      Rest : Type 0
      Rest =
          (s' : State) (w' : World)
          → length (buffered s') < fuel
          → (handle_buffered env reader fuel client s' w').0 ≢ spins

      after :
          Rest
          → (p : WormsPacket) (u : List ℕ)
          → read_from env.io env.settings (buffered s) ≡ complete p u
          → (o : Outcome) → (handle_packet env client p w).0 ≡ o
          → (handle_buffered env reader (suc fuel) client s w).0 ≢ spins
      after rest p u e (returned true) h =
          let less : length (buffered (try_read_packet s).1) < fuel =
            rw (reader.complete_lem s p u e).1 (omega (arith, shorter (buffered s) p u e)) in
          rw (turn_served fuel client s w p u e h) (rest _ _ less)
      after rest p u e (returned false) h = rw (turn_refused fuel client s w p u e h) (λ f. cc)
      after rest p u e threw h = rw (turn_threw fuel client s w p u e h) (λ f. cc)

      read :
          Rest
          → (r : ParseResult WormsPacket) → read_from env.io env.settings (buffered s) ≡ r
          → (handle_buffered env reader (suc fuel) client s w).0 ≢ spins
      read rest partial e = rw (turn_partial fuel client s w e) (λ f. cc)
      read rest (error x) e = rw (turn_error fuel client s w x e) (λ f. cc)
      read rest fault e = absurd (read_from-ne-fault env.io env.settings (buffered s) e)
      read rest (complete p u) e = after rest p u e _ refl
