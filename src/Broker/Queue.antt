-- ===== src/Broker/Queue.antt =====
-- internal/broker/memory_queue.go: the bounded queue of delivery mode `queue`.
pub mod Fifo
pub mod Interface
pub mod History
pub mod Race
use message_queue.Prelude.{
  ℕ, ◌≤◌, ◌<◌, ◌≡◌, refl, Bool, true, false, Option, none, some, List, [], length, arith, leb,
  if◌then◌else◌,
}
use message_queue.Prelude.Go.{Go, returns, panics, ◌>>=◌}
use message_queue.Prelude.Int.{ℤ, pos, negsuc, leb_ℤ, pos_part}
use message_queue.Protocol.{Bytes}
use message_queue.Broker.Channel.{
  Chan, make_chan, try_send, Received, message, ended, nothing, try_receive, close_chan,
}

-- `queue` is none once the queue is closed (Go's nil channel).
pub record MemoryMessageQueue : Type 0 where
  pub queue : Option Chan
  pub size : ℕ

-- "queue is closed", "queue full", "queue is empty".
pub data QueueError : Type 0 where
  queue_closed queue_full queue_empty : QueueError

abbrev pub default_size : ℕ
default_size = 10000

abbrev with_size : ℕ → MemoryMessageQueue
with_size n = record { queue = some (make_chan n); size = n }

pub new_memory_message_queue : ℤ → MemoryMessageQueue
new_memory_message_queue size =
    if leb_ℤ size (pos 0) then with_size default_size else with_size (pos_part size)

abbrev pub after_send : MemoryMessageQueue → Option Chan → MemoryMessageQueue × Option QueueError
after_send q none = (q, some queue_full)
after_send q (some c) = (record q { queue = some c }, none)

-- The copy that the code makes of the message is the value itself here.
unfoldable pub enqueue : MemoryMessageQueue → Bytes → Go (MemoryMessageQueue × Option QueueError)
enqueue q msg = elim q.queue [
  | none ↦ returns (q, some queue_closed)
  | some c ↦ try_send c msg >>= λ sent. returns (after_send q sent)
]

-- A message, or an error.
pub data Dequeued : Type 0 where
  got : Bytes → Dequeued
  failed : QueueError → Dequeued

abbrev after_receive : MemoryMessageQueue → Received → MemoryMessageQueue × Dequeued
after_receive q (message m c) = (record q { queue = some c }, got m)
after_receive q ended = (q, failed queue_closed)
after_receive q nothing = (q, failed queue_empty)

unfoldable pub dequeue : MemoryMessageQueue → MemoryMessageQueue × Dequeued
dequeue q = elim q.queue [
  | none ↦ (q, failed queue_closed)
  | some c ↦ after_receive q (try_receive c)
]

-- `len(q.queue)`, which is 0 for the nil channel.
unfoldable pub len : MemoryMessageQueue → ℕ
len q = elim q.queue [ none ↦ 0 | some c ↦ length c.buffer ]

pub is_full : MemoryMessageQueue → Bool
is_full q = leb q.size (len q)

unfoldable pub close : MemoryMessageQueue → Go MemoryMessageQueue
close q = elim q.queue [
  | none ↦ returns q
  | some c ↦ close_chan c >>= λ _. returns (record q { queue = none })
]
