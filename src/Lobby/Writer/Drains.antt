-- ===== src/Lobby/Writer/Drains.antt =====
-- How many packets `UserSession::writer` of src/user_session.cpp writes, and how many it loses.
use worms2lobby_server_cpp.Base.{
  ℕ, zero, suc, ◌+◌, ◌-◌, ◌*◌, ◌/◌, ◌≤◌, ◌<◌, ◌≡◌, ◌≢◌, refl, sym, ap, subst, ◌∙◌, arith, ltb, ◌==◌,
  Bool, true, false, if◌then◌else◌, none, List, [], ◌∷◌, ◌++◌, All, length, length-append,
  Option-cases, Bool-cases, inl, inr,
}
use native.Mathlib.Bridge.{from_ℕ}
use mathlib.Core.List as Library
use mathlib.Core.List.{Perm}
use mathlib.Core.List.Perm
use worms2lobby_server_cpp.Lobby.Writer.{
  Bytes, PacketQueue, Wake, expired, cancelled, stopped, Round, Writer, batch_size, collect,
  enqueue_all, wait, flush, write_batch, write_round, writer, drain,
}

length-from : (q : List Bytes) → length q ≡ from_ℕ (Library.length q)
length-from [] = refl
length-from (p ∷ q) = ap suc (length-from q)

dequeued-length : {q r : List Bytes} {p : Bytes} → Perm q (p ∷ r) → length q ≡ suc (length r)
dequeued-length {q} {r} {p} h =
    length-from q ∙ ap from_ℕ (Perm.length-eq h) ∙ sym (length-from (p ∷ r))

-- What is collected of `n` packets behind a batch of `b`.
record Collected (room b n : ℕ) (r : List Bytes × List Bytes × List Bytes) : Type 0 where
  batch : length r.0 ≡ b + (if ltb n room then n else room)
  over : length r.1 ≡ (if ltb room n then 1 else 0)
  rest : length r.2 ≡ n - suc room

-- Nothing is queued, the write succeeds, and nobody stops the session.
pub record IsQuiet (r : Round) : Type 0 where
  pub arrives : r.arrivals ≡ []
  pub stays : r.is_shutting_down ≡ false
  pub writes : r.write_fails ≡ false
  pub wakes : r.wake ≢ stopped

-- One round of a writer that runs.
record Wrote (w v : Writer) : Type 0 where
  written :
      length v.written ≡ length w.written + (if ltb (length w.queue) 16 then length w.queue else 16)
  lost : length v.lost ≡ length w.lost + (if ltb 16 (length w.queue) then 1 else 0)
  queue : length v.queue ≡ length w.queue - 17
  runs : v.is_running ≡ w.is_running

goes_true : (w x y : Writer) (b : Bool) → b ≡ true → Wrote w x → Wrote w (if b then x else y)
goes_true w x y b e h = rw e h

goes_false : (w x y : Writer) (b : Bool) → b ≡ false → Wrote w y → Wrote w (if b then x else y)
goes_false w x y b e h = rw e h

-- A round of 17 packets, and what the rounds after it do.
module _ (l x l' m n : ℕ) where
  lost_more : l' ≡ l + (if ltb 16 n then 1 else 0) → m ≡ n - 17 → x ≡ l' + m / 17 → x ≡ l + n / 17
  lost_more a b c = ground arith

  written_more :
      l' ≡ l + (if ltb n 16 then n else 16)
      → m ≡ n - 17
      → x ≡ l' + (m - m / 17)
      → x ≡ l + (n - n / 17)
  written_more a b c = ground arith

module _ (packets : PacketQueue) where
  -- The destructor's loop ends with a queue that gives nothing more, within one round for each
  -- packet and one.
  pub drain-none :
      (fuel : ℕ) (q : List Bytes)
      → length q < fuel
      → packets.try_dequeue (drain packets fuel q) ≡ none
  unfolding drain
  drain-none zero q b = absurd (omega arith)
  drain-none (suc fuel) q b = elim (Option-cases (packets.try_dequeue q)) [
    | inl e ↦ rw (e, drain) e
    | inr ((p, r), e) ↦
        rw (e, drain)
          (drain-none fuel r (omega (arith, dequeued-length (packets.try_dequeue_lem q p r e))))
  ]

  module _ (prompt : (q : List Bytes) → packets.try_dequeue q ≡ none → q ≡ []) where
    collect-Collected :
        (room : ℕ) (batch q : List Bytes)
        → Collected room (length batch) (length q) (collect packets room batch q)
    unfolding collect
    collect-Collected zero batch q = elim (Option-cases (packets.try_dequeue q)) [
      | inl e ↦
          let n = ap length (prompt q e) in
          rw (e, collect) (record { batch = ground arith; over = ground arith; rest = omega arith })
      | inr ((p, r), e) ↦
          let n = dequeued-length (packets.try_dequeue_lem q p r e) in
          rw (e, collect) (record { batch = ground arith; over = ground arith; rest = omega arith })
    ]
    collect-Collected (suc room) batch q = elim (Option-cases (packets.try_dequeue q)) [
      | inl e ↦
          let n = ap length (prompt q e) in
          rw (e, collect) (record { batch = ground arith; over = ground arith; rest = omega arith })
      | inr ((p, r), e) ↦
          let n = dequeued-length (packets.try_dequeue_lem q p r e) in
          let h = collect-Collected room (batch ++ p ∷ []) r in
          let b = length-append batch (p ∷ []) in
          rw (e, collect)
            (record {
              batch = ground (arith, h.batch);
              over = ground (arith, h.over);
              rest = omega (arith, h.rest);
            })
    ]

    flush-Wrote :
        (batch over rest : List Bytes) (w : Writer)
        → Collected 16 0 (length w.queue) (batch, over, rest)
        → Wrote w (flush false batch (record w { queue = rest; lost = w.lost ++ over }))
    unfolding flush
    flush-Wrote [] over rest w h = record {
      written = ground (arith, h.batch);
      lost = omega (arith, length-append w.lost over, h.over);
      queue = omega (arith, h.rest);
      runs = refl;
    }
    flush-Wrote (p ∷ ps) over rest w h = record {
      written = omega (arith, length-append w.written (p ∷ ps), h.batch);
      lost = omega (arith, length-append w.lost over, h.over);
      queue = omega (arith, h.rest);
      runs = refl;
    }

    wait-Wrote :
        (wake : Wake) (w v : Writer) → wake ≢ stopped → Wrote w v → Wrote w (wait packets wake v)
    unfolding wait
    wait-Wrote wake w v n h = elim (Bool-cases (packets.size_approx v.queue == 0)) [
      | inl e ↦ rw e (woken wake n)
      | inr e ↦ rw e h
    ]
      where
        woken :
            (wake : Wake)
            → wake ≢ stopped
            → Wrote w (elim wake as (λ _. Writer) [
              | expired ↦ v
              | cancelled ↦ v
              | stopped ↦ record v { is_running = false }
            ])
        woken expired n = h
        woken cancelled n = h
        woken stopped n = absurd (n refl)

    write_batch-Wrote :
        (fails : Bool) (w : Writer) → fails ≡ false → Wrote w (write_batch packets fails w)
    unfolding write_batch
    write_batch-Wrote fails w e =
        let c = collect packets batch_size [] w.queue in
        rw e (flush-Wrote c.0 c.1 c.2 w (collect-Collected batch_size [] w.queue))

    write_round-Wrote :
        (r : Round) (w : Writer)
        → IsQuiet r
        → w.is_running ≡ true
        → Wrote w (write_round packets r w)
    unfolding write_round
    write_round-Wrote r w q runs =
        let h = write_batch-Wrote r.write_fails w q.writes in
        goes_false w _ _ r.is_shutting_down q.stays (
          goes_true w _ _ (write_batch packets r.write_fails w).is_running (h.runs ∙ runs)
            (wait-Wrote r.wake w _ q.wakes h))

  -- The writer after enough rounds.
  pub record Drained (w v : Writer) : Type 0 where
    pub empty : length v.queue ≡ 0
    pub lost : length v.lost ≡ length w.lost + length w.queue / 17
    pub written : length v.written ≡ length w.written + (length w.queue - length w.queue / 17)
    pub runs : v.is_running ≡ true

  -- Where the queue gives what it holds and no packet comes, no write fails and nothing stops the
  -- session, a round for each 17 packets of the queue empties it, the writer still runs, one
  -- packet of each 17 is lost, and all others are written.
  pub writer-Drained :
      (prompt : (q : List Bytes) → packets.try_dequeue q ≡ none → q ≡ []) (rs : List Round)
      (w : Writer)
      → All IsQuiet rs
      → w.is_running ≡ true
      → length w.queue ≤ 17 * length rs
      → Drained w (writer packets rs w)
  unfolding writer enqueue_all
  writer-Drained prompt [] w q runs b = record {
    empty = omega arith;
    lost = omega arith;
    written = omega arith;
    runs = runs;
  }
  writer-Drained prompt (r ∷ rs) w (q, qs) runs b =
      let h = turned w.is_running runs in
      let k = writer-Drained prompt rs _ qs (h.runs ∙ runs) (omega (arith, h.queue)) in
      record {
        empty = k.empty;
        lost = lost_more _ _ _ _ (length w.queue) h.lost h.queue k.lost;
        written = written_more _ _ _ _ (length w.queue) h.written h.queue k.written;
        runs = k.runs;
      }
    where
      w' : Writer
      w' = record w { queue = enqueue_all packets r.arrivals w.queue }

      same : w' ≡ w
      same = rw q.arrives refl

      turned : (b : Bool) → b ≡ true → Wrote w (if b then write_round packets r w' else w')
      turned b e = goes_true w _ _ b e (
          subst (λ v. Wrote w (write_round packets r v)) (sym same)
            (write_round-Wrote prompt r w q runs))
