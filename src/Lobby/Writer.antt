-- ===== src/Lobby/Writer.antt =====
-- `UserSession::writer` of src/user_session.cpp, and the queue of packets between it and
-- `UserSession::sendPacket`.
pub mod Conserves
pub mod Drains
use worms2lobby_server_cpp.Base.{
  ℕ, zero, suc, ◌≡◌, ◌==◌, Bool, true, false, if◌then◌else◌, Option, none, some, List, [], ◌∷◌,
  ◌++◌,
}
use mathlib.Core.List.{Perm}

-- The bytes of a packet.
abbrev pub Bytes : Type 0
Bytes = List ℕ

-- `moodycamel::ConcurrentQueue<net::shared_bytes_ptr>`, which is not part of the repository: the
-- packets that it holds, in an order that is not specified. It may look empty when it is not.
pub record PacketQueue : Type 0 where
  pub try_dequeue : List Bytes → Option (Bytes × List Bytes)
  pub enqueue : List Bytes → Bytes → List Bytes
  pub size_approx : List Bytes → ℕ
  pub try_dequeue_lem :
      (q : List Bytes) (p : Bytes) (r : List Bytes) → try_dequeue q ≡ some (p, r) → Perm q (p ∷ r)
  pub enqueue_lem : (q : List Bytes) (p : Bytes) → Perm (enqueue q p) (p ∷ q)

-- How the wait for the flush timer ends.
pub data Wake : Type 0 where
  expired cancelled stopped : Wake

-- What happens around one round of the writer: the packets that are queued before it, the flag of the
-- destructor, whether the write fails, and the end of the wait, if there is one.
pub record Round : Type 0 where
  pub arrivals : List Bytes
  pub is_shutting_down : Bool
  pub write_fails : Bool
  pub wake : Wake

-- What was written, in order; the batch whose write failed; and the packets that were taken off the
-- queue, and were neither written nor part of such a batch.
pub record Writer : Type 0 where
  pub queue : List Bytes
  pub written : List Bytes
  pub unsent : List Bytes
  pub lost : List Bytes
  pub is_running : Bool

abbrev pub batch_size : ℕ
batch_size = 16

-- The vectored write of a batch that is not empty.
unfoldable pub flush : Bool → List Bytes → Writer → Writer
flush fails [] w = w
flush fails (p ∷ ps) w =
    if fails
    then record w { unsent = w.unsent ++ p ∷ ps; is_running = false }
    else record w { written = w.written ++ p ∷ ps }

module _ (packets : PacketQueue) where
  -- `while (packets_.try_dequeue(...) && packetBatch.size() < 16)`, with room for so many packets. The
  -- queue is asked first: a packet that comes when there is no room is off the queue.
  unfoldable pub collect : ℕ → List Bytes → List Bytes → List Bytes × List Bytes × List Bytes
  collect zero batch q = elim (packets.try_dequeue q) [
    | none ↦ (batch, [], q)
    | some (p, rest) ↦ (batch, p ∷ [], rest)
  ]
  collect (suc room) batch q = elim (packets.try_dequeue q) [
    | none ↦ (batch, [], q)
    | some (p, rest) ↦ collect room (batch ++ p ∷ []) rest
  ]

  -- `UserSession::sendPacket`, for each packet of a list.
  unfoldable pub enqueue_all : List Bytes → List Bytes → List Bytes
  enqueue_all [] q = q
  enqueue_all (p ∷ ps) q = enqueue_all ps (packets.enqueue q p)

  -- The wait, where the queue looks empty.
  unfoldable pub wait : Wake → Writer → Writer
  wait wake w =
      if packets.size_approx w.queue == 0
      then elim wake [ expired ↦ w | cancelled ↦ w | stopped ↦ record w { is_running = false } ]
      else w

  -- The batch is taken and written.
  unfoldable pub write_batch : Bool → Writer → Writer
  unfolding collect flush
  write_batch fails w =
      let (batch, over, rest) = collect batch_size [] w.queue in
      flush fails batch (record w { queue = rest; lost = w.lost ++ over })

  -- One round of `while (!isShuttingDown_)`.
  unfoldable pub write_round : Round → Writer → Writer
  unfolding write_batch wait
  write_round r w =
      if r.is_shutting_down
      then record w { is_running = false }
      else (let w' = write_batch r.write_fails w in if w'.is_running then wait r.wake w' else w')

  -- The rounds one after the other. Packets are still queued once the writer has ended.
  unfoldable pub writer : List Round → Writer → Writer
  unfolding write_round enqueue_all
  writer [] w = w
  writer (r ∷ rs) w =
      let w' = record w { queue = enqueue_all r.arrivals w.queue } in
      writer rs (if w.is_running then write_round r w' else w')

  -- The loop of the destructor that empties the queue.
  unfoldable pub drain : ℕ → List Bytes → List Bytes
  drain zero q = q
  drain (suc fuel) q = elim (packets.try_dequeue q) [ none ↦ q | some (p, rest) ↦ drain fuel rest ]
