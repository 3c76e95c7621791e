-- ===== src/Lobby/Writer/Conserves.antt =====
-- The packets of `UserSession::writer` of src/user_session.cpp: none is made up, and where each one
-- goes.
use worms2lobby_server_cpp.Base.{
  ℕ, zero, suc, ◌==◌, Bool, true, false, if◌then◌else◌, List, [], ◌∷◌, ◌++◌, append-nil,
  append_assoc, Option-cases, Bool-cases, inl, inr, ◌≡◌, refl, sym,
}
use mathlib.Core.List.{Perm, perm_middle, perm_append_comm}
use mathlib.Core.List.Perm
use worms2lobby_server_cpp.Lobby.Writer.{
  Bytes, PacketQueue, Wake, expired, cancelled, stopped, Round, Writer, batch_size, collect,
  enqueue_all, wait, flush, write_batch, write_round, writer,
}

-- Every packet that a writer has seen.
abbrev pub held : Writer → List Bytes
held w = w.written ++ (w.unsent ++ (w.lost ++ w.queue))

abbrev pub arrived : List Round → List Bytes
arrived [] = []
arrived (r ∷ rs) = r.arrivals ++ arrived rs

module _ (packets : PacketQueue) where
  collect-Perm :
      (room : ℕ) (batch q : List Bytes)
      → Perm
          ((collect packets room batch q).0
            ++ ((collect packets room batch q).1 ++ (collect packets room batch q).2))
          (batch ++ q)
  unfolding collect
  collect-Perm zero batch q = elim (Option-cases (packets.try_dequeue q)) [
    | inl e ↦ rw (e, collect) Perm.rfl
    | inr ((p, rest), e) ↦
        rw (e, collect) (Perm.append_left batch (Perm.symm (packets.try_dequeue_lem q p rest e)))
  ]
  collect-Perm (suc room) batch q = elim (Option-cases (packets.try_dequeue q)) [
    | inl e ↦ rw (e, collect) Perm.rfl
    | inr ((p, rest), e) ↦
        rw (e, collect)
          (Perm.trans (collect-Perm room (batch ++ p ∷ []) rest) (
            rw (append_assoc batch (p ∷ []) rest)
              (Perm.append_left batch (Perm.symm (packets.try_dequeue_lem q p rest e)))))
  ]

  enqueue_all-Perm : (ps q : List Bytes) → Perm (enqueue_all packets ps q) (q ++ ps)
  unfolding enqueue_all
  enqueue_all-Perm [] q = rw (append-nil q) Perm.rfl
  enqueue_all-Perm (p ∷ ps) q =
      Perm.trans (enqueue_all-Perm ps (packets.enqueue q p))
        (Perm.trans (Perm.append_right ps (packets.enqueue_lem q p)) (Perm.symm (perm_middle q ps)))

  wait-held : (wake : Wake) (w : Writer) → held (wait packets wake w) ≡ held w
  unfolding wait
  wait-held wake w = elim (Bool-cases (packets.size_approx w.queue == 0)) [
    | inl e ↦ rw e (woken wake)
    | inr e ↦ rw e refl
  ]
    where
      woken :
          (wake : Wake)
          → held (elim wake as (λ _. Writer) [
            | expired ↦ w
            | cancelled ↦ w
            | stopped ↦ record w { is_running = false }
          ])
            ≡ held w
      woken expired = refl
      woken cancelled = refl
      woken stopped = refl

  swap_front : (b c d : List Bytes) → Perm (b ++ (c ++ d)) (c ++ (b ++ d))
  swap_front b c d =
      rw (sym (append_assoc b c d), sym (append_assoc c b d))
        (Perm.append_right d (perm_append_comm b c))

  flush-held :
      (fails : Bool) (batch over rest : List Bytes) (w : Writer)
      → Perm
          (held (flush fails batch (record w { queue = rest; lost = w.lost ++ over })))
          (w.written ++ (w.unsent ++ (w.lost ++ (batch ++ (over ++ rest)))))
  unfolding flush
  flush-held fails [] over rest w = rw (append_assoc w.lost over rest) Perm.rfl
  flush-held true (p ∷ ps) over rest w =
      rw (append_assoc w.unsent (p ∷ ps) ((w.lost ++ over) ++ rest), append_assoc w.lost over rest)
        (Perm.append_left w.written
          (Perm.append_left w.unsent (swap_front (p ∷ ps) w.lost (over ++ rest))))
  flush-held false (p ∷ ps) over rest w =
      rw
        (
          append_assoc w.written (p ∷ ps) (w.unsent ++ ((w.lost ++ over) ++ rest)),
          append_assoc w.lost over rest,
        )
        (Perm.append_left w.written (
          Perm.trans (swap_front (p ∷ ps) w.unsent (w.lost ++ (over ++ rest)))
            (Perm.append_left w.unsent (swap_front (p ∷ ps) w.lost (over ++ rest)))))

  waited :
      (wake : Wake) (b : Bool) (v : Writer)
      → Perm (held (if b then wait packets wake v else v)) (held v)
  waited wake true v = rw (wait-held wake v) Perm.rfl
  waited wake false v = Perm.rfl

  write_batch-held :
      (fails : Bool) (w : Writer) → Perm (held (write_batch packets fails w)) (held w)
  unfolding write_batch
  write_batch-held fails w =
      let r = collect packets batch_size [] w.queue in
      Perm.trans (flush-held fails r.0 r.1 r.2 w) (
        Perm.append_left w.written (
          Perm.append_left w.unsent (Perm.append_left w.lost (collect-Perm batch_size [] w.queue))))

  write_round-held : (r : Round) (w : Writer) → Perm (held (write_round packets r w)) (held w)
  unfolding write_round
  write_round-held r w = elim (Bool-cases r.is_shutting_down) [
    | inl e ↦ rw e Perm.rfl
    | inr e ↦
        let w' = write_batch packets r.write_fails w in
        rw e (Perm.trans (waited r.wake w'.is_running w') (write_batch-held r.write_fails w))
  ]

  -- Whatever happens around the writer's rounds, every packet that was queued is written, or
  -- stands in the batch whose write failed, or is lost, or is still in the queue, once, and
  -- nothing else is there.
  pub writer-Perm :
      (rs : List Round) (w : Writer) → Perm (held (writer packets rs w)) (held w ++ arrived rs)
  unfolding writer
  writer-Perm [] w = rw (append-nil (held w)) Perm.rfl
  writer-Perm (r ∷ rs) w = Perm.trans (writer-Perm rs _) (
      rw (sym (append_assoc (held w) r.arrivals (arrived rs)))
        (Perm.append_right (arrived rs) (Perm.trans (turned w.is_running) queued)))
    where
      w' : Writer
      w' = record w { queue = enqueue_all packets r.arrivals w.queue }

      turned : (b : Bool) → Perm (held (if b then write_round packets r w' else w')) (held w')
      turned true = write_round-held r w'
      turned false = Perm.rfl

      queued : Perm (held w') (held w ++ r.arrivals)
      queued =
          rw
            (
              append_assoc w.written (w.unsent ++ (w.lost ++ w.queue)) r.arrivals,
              append_assoc w.unsent (w.lost ++ w.queue) r.arrivals,
              append_assoc w.lost w.queue r.arrivals,
            )
            (Perm.append_left w.written (
              Perm.append_left w.unsent
                (Perm.append_left w.lost (enqueue_all-Perm r.arrivals w.queue))))
