-- ===== src/Lobby/Connection/Cut.antt =====
-- `UserSession::handleSession` of src/user_session.cpp on a stream of packets that TCP may cut
-- anywhere.
use worms2lobby_server_cpp.Base.{
  ℕ, zero, suc, ◌+◌, ◌≤◌, ◌<◌, ◌≡◌, ◌≢◌, refl, sym, ap, ◌∙◌, arith, leb, leb→le, true, false, List,
  [], ◌∷◌, ◌++◌, map, append-nil, append_assoc, length, length-append, All, Bool-cases, inl, inr,
}
use worms2lobby_server_cpp.Packet.Io.{complete, partial}
use worms2lobby_server_cpp.Packet.Read.{read_from}
use worms2lobby_server_cpp.Packet.Stream.{read_from-prefix}
use worms2lobby_server_cpp.Lobby.Entities.{User}
use worms2lobby_server_cpp.Lobby.World.{Env, World, Outcome, returned, threw}
use worms2lobby_server_cpp.Lobby.Handler.Dispatch.{handle_packet}
use worms2lobby_server_cpp.Lobby.Connection.{
  FramedReader, Turn, waits, ends, fails, spins, Received, bytes, disconnected, handle_buffered,
  fuel_for, next_receive, handle_session,
}
use worms2lobby_server_cpp.Lobby.Connection.Turns.{
  turn_served, turn_refused, turn_threw, handle_buffered-ne-spins, shorter,
}
use worms2lobby_server_cpp.Lobby.Connection.Serve.{
  serve, Frame, wires, packets, joined, append_split, nil_of_append, read_nil, read_more,
  serve_served, serve_refused, serve_threw, Turned, still, over, broke, still_partial,
}

module _ (env : Env) (reader : FramedReader (read_from env.io env.settings)) (client : User) where
  open reader use {State, start, append, try_read_packet, buffered}

  -- The first packet is there: the loop takes it, and goes on with the others.
  first-Turned :
      (t : List ℕ) (fuel : ℕ) (f : Frame env) (fs : List (Frame env)) (s : State) (w : World)
      (u : List ℕ)
      → buffered s ≡ f.wire ++ u
      → (buffered (try_read_packet s).1 ≡ u
          → Turned env reader client t fs (handle_packet env client f.packet w).1 (
              handle_buffered env reader fuel client
                (try_read_packet s).1
                (handle_packet env client f.packet w).1))
      → Turned env reader client t (f ∷ fs) w (handle_buffered env reader (suc fuel) client s w)
  first-Turned t fuel f fs s w u e rest = after (handle_packet env client f.packet w).0 refl
    where
      reads : read_from env.io env.settings (buffered s) ≡ complete f.packet u
      reads = rw e (read_more env f u)

      later :
          {w' : World} {r : Turn × State × World}
          → Turned env reader client t fs w' r
          → serve env client (f.packet ∷ packets fs) w ≡ serve env client (packets fs) w'
          → Turned env reader client t (f ∷ fs) w r
      later (still gs a b c d) g = still gs a b c (g ∙ d)
      later (over a b) g = over a (g ∙ b)
      later (broke a b) g = broke a (g ∙ b)

      after :
          (o : Outcome)
          → (handle_packet env client f.packet w).0 ≡ o
          → Turned env reader client t (f ∷ fs) w (handle_buffered env reader (suc fuel) client s w)
      after (returned true) h = rw (turn_served env reader fuel client s w f.packet u reads h) (
          later (rest (reader.complete_lem s f.packet u reads).1)
            (serve_served env client f.packet (packets fs) w h))
      after (returned false) h =
          rw (turn_refused env reader fuel client s w f.packet u reads h)
            (over refl (serve_refused env client f.packet (packets fs) w h))
      after threw h =
          rw (turn_threw env reader fuel client s w f.packet u reads h)
            (broke refl (serve_threw env client f.packet (packets fs) w h))

  less :
      (f : Frame env) (u : List ℕ) (s : State) (fuel : ℕ)
      → buffered s ≡ f.wire ++ u
      → length (buffered s) < suc fuel
      → buffered (try_read_packet s).1 ≡ u
      → length (buffered (try_read_packet s).1) < fuel
  less f u s fuel g b same =
      let size : length (buffered s) ≡ length f.wire + length u = rw g (length-append f.wire u) in
      let head : 8 + length {A = ℕ} [] ≤ length f.wire =
        shorter env reader f.wire f.packet [] f.reads in
      rw same (omega arith)

  more :
      (f : Frame env) (c : List ℕ) (s : State)
      → f.wire ≡ buffered s ++ c
      → c ≡ []
      → length (buffered s) < length f.wire
      → ⊥
  more f c s g z b =
      let size : length f.wire ≡ length (buffered s) + length c =
        ap length g ∙ length-append (buffered s) c in
      let none_left : length c ≡ 0 = ap length z in omega arith

  handle_buffered-Turned :
      (t : List ℕ) (fuel : ℕ) (fs : List (Frame env)) (s : State) (w : World)
      → length (buffered s) < fuel
      → buffered s ++ t ≡ wires fs
      → Turned env reader client t fs w (handle_buffered env reader fuel client s w)
  handle_buffered-Turned t zero fs s w b e = absurd (omega arith)
  handle_buffered-Turned t (suc fuel) [] s w b e =
      still_partial env reader client t fuel [] s w e
        (rw (nil_of_append (buffered s) t e) (read_nil env))
  handle_buffered-Turned t (suc fuel) (f ∷ fs) s w b e =
      elim (Bool-cases (leb (length f.wire) (length (buffered s)))) [
        | inl h ↦
            let (u, g, k) = append_split (buffered s) t f.wire (wires fs) e (leb→le _ _ h) in
            first-Turned t fuel f fs s w u g (λ same.
              handle_buffered-Turned t fuel fs (try_read_packet s).1
                (handle_packet env client f.packet w).1 (less f u s fuel g b same) (rw same k))
        | inr h ↦
            let b : length (buffered s) < length f.wire = ground arith in
            let (c, g, k) = append_split f.wire (wires fs) (buffered s) t (sym e) (omega arith) in
            still_partial env reader client t fuel (f ∷ fs) s w e (
              read_from-prefix env.io env.settings (buffered s) c f.packet (rw (← g) f.reads)
                (λ z. more f c s g z b))
      ]

  -- What is left of the stream is for the next receive.
  next_chunk :
      (b : ℕ) (bs : List ℕ) (cs : List (List ℕ)) (fs : List (Frame env)) (s : State) (w : World)
      → (serve env client (packets fs) w).0 ≢ fails
      → Turned env reader client (joined cs) fs w (
          handle_buffered env reader
            (fuel_for env reader (append s (b ∷ bs)))
            client
            (append s (b ∷ bs))
            w)
      → ((gs : List (Frame env)) (s' : State) (w' : World)
          → buffered s' ++ joined cs ≡ wires gs
          → read_from env.io env.settings (buffered s') ≡ partial
          → (serve env client (packets gs) w').0 ≢ fails
          → handle_session env reader (map bytes cs) client s' w'
            ≡ serve env client (packets gs) w')
      → handle_session env reader (bytes (b ∷ bs) ∷ map bytes cs) client s w
        ≡ serve env client (packets fs) w
  unfolding handle_session next_receive
  next_chunk b bs cs fs s w n (still gs o e h k) rest =
      rw (o, next_receive) (rest gs _ _ e h (λ z. n (ap (λ (r : Turn × World). r.0) k ∙ z)) ∙ sym k)
  next_chunk b bs cs fs s w n (over o k) rest = rw (o, next_receive) (sym k)
  next_chunk b bs cs fs s w n (broke o k) rest = absurd (n (ap (λ (r : Turn × World). r.0) k))

  -- However TCP cuts the bytes of a sequence of packets into pieces, none of them empty, the
  -- session does what it would do if it were handed the packets one by one, where the buffer holds
  -- the start of a packet and serving them raises no exception.
  pub handle_session-serve :
      (cs : List (List ℕ)) (fs : List (Frame env)) (s : State) (w : World)
      → All (λ c. c ≢ []) cs
      → buffered s ++ joined cs ≡ wires fs
      → read_from env.io env.settings (buffered s) ≡ partial
      → (serve env client (packets fs) w).0 ≢ fails
      → handle_session env reader (map bytes cs) client s w ≡ serve env client (packets fs) w
  unfolding handle_session next_receive serve
  handle_session-serve [] [] s w a e h n = refl
  handle_session-serve [] (f ∷ fs) s w a e h n =
      let same : buffered s ≡ f.wire ++ wires fs = sym (append-nil (buffered s)) ∙ e in
      let there : read_from env.io env.settings (buffered s) ≡ complete f.packet (wires fs) =
        rw same (read_more env f (wires fs)) in
      cc
  handle_session-serve ([] ∷ cs) fs s w (a, as') e h n = absurd (a refl)
  handle_session-serve ((b ∷ bs) ∷ cs) fs s w (a, as') e h n =
      let s' = append s (b ∷ bs) in
      let e' : buffered s' ++ joined cs ≡ wires fs =
        rw (reader.append_lem s (b ∷ bs)) (append_assoc (buffered s) (b ∷ bs) (joined cs) ∙ e) in
      next_chunk b bs cs fs s w n
        (handle_buffered-Turned (joined cs) (fuel_for env reader s') fs s' w (omega arith) e')
        (λ gs s'' w' f g m. handle_session-serve cs gs s'' w' as' f g m)

  -- The bytes in the buffer bound the rounds of the loop over it: a session never stops for want
  -- of fuel, whatever it receives.
  pub handle_session-ne-spins :
      (events : List Received) (s : State) (w : World)
      → (handle_session env reader events client s w).0 ≢ spins
  unfolding handle_session next_receive
  handle_session-ne-spins [] s w e = cc
  handle_session-ne-spins (disconnected ∷ events) s w e = cc
  handle_session-ne-spins (bytes [] ∷ events) s w e = cc
  handle_session-ne-spins (bytes (b ∷ bs) ∷ events) s w e =
      goes_on (handle_buffered env reader (fuel_for env reader s') client s' w)
        (handle_buffered-ne-spins env reader (fuel_for env reader s') client s' w (omega arith))
        (λ s'' w'. handle_session-ne-spins events s'' w') e
    where
      s' : State
      s' = append s (b ∷ bs)

      goes_on :
          (r : Turn × State × World)
          → r.0 ≢ spins
          → ((s'' : State) (w' : World)
              → (handle_session env reader events client s'' w').0 ≢ spins)
          → (next_receive env reader (λ s'' w'. handle_session env reader events client s'' w') r).0
            ≢ spins
      goes_on (waits, s'', w') n rest = rest s'' w'
      goes_on (ends, s'', w') n rest = λ e. cc
      goes_on (fails, s'', w') n rest = rest s'' w'
      goes_on (spins, s'', w') n rest = absurd (n refl)
