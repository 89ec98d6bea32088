-- ===== src/Broker/System.antt =====
-- Many connections at once, in delivery mode `queue` (`handleProducer` and `handleConsumerQueue` of
-- internal/broker/broker.go). A turn is what a handler does up to its next call of the queue, of the
-- reader or of the writer, and the turns of the handlers come in any order.
pub mod Invariant
pub mod Turns
pub mod Liveness
pub mod Alone
pub mod Consumer
pub mod Drains
pub mod Sent
pub mod Start
use message_queue.Prelude.{ℕ, Option, none, some, List, [], ◌∷◌, ◌++◌, if◌then◌else◌}
use message_queue.Prelude.Go.{Go, returns, panics, ◌>>=◌}
use message_queue.Prelude.Family.{set}
use message_queue.Protocol.{Bytes, IoError, Source, Sink, FrameRead, read_frame, write_frame}
use message_queue.Broker.Queue.{
  MemoryMessageQueue, QueueError, Dequeued, got, failed, enqueue, dequeue,
}

-- Where a producer's handler stands: before `ReadFrame`, before `Enqueue`, or it has returned.
pub data Producing : Type 0 where
  reads : Source → Bytes → Producing
  delivers : Bytes → Source → Bytes → Producing
  stops : IoError → Producing

-- Where a consumer's handler stands: before `Dequeue`, before `WriteFrame`, or it has returned, with
-- the queue's error or with the connection's.
pub data Consuming : Type 0 where
  asks : Sink → Consuming
  writes : Bytes → Sink → Consuming
  finds_none : QueueError → Sink → Consuming
  breaks : IoError → Sink → Consuming

-- `accepted` is what the queue took from each producer, and `taken` what it gave to each consumer, in
-- the order of the calls. The code does not keep these two.
pub record System : Type 0 where
  pub queue : MemoryMessageQueue
  pub producers : ℕ → Producing
  pub consumers : ℕ → Consuming
  pub accepted : List (ℕ × Bytes)
  pub taken : List (ℕ × Bytes)

pub data Turn : Type 0 where
  producer consumer : ℕ → Turn

abbrev pub after_read : FrameRead → Producing
after_read f = elim f.error [ some e ↦ stops e | none ↦ delivers f.body f.source f.array ]

abbrev pub accepts : ℕ → Bytes → Option QueueError → List (ℕ × Bytes)
accepts p m none = (p, m) ∷ []
accepts p m (some e) = []

-- The answer of `Enqueue` is logged only.
abbrev pub after_enqueue :
    System → ℕ → Bytes → Producing → MemoryMessageQueue × Option QueueError → System
after_enqueue s p m next (q, e) = record s {
  queue = q;
  producers = set s.producers p next;
  accepted = s.accepted ++ accepts p m e;
}

abbrev pub produce : System → ℕ → Producing → Go System
produce s p (reads r array) =
    returns (record s { producers = set s.producers p (after_read (read_frame r array)) })
produce s p (delivers m r array) =
    enqueue s.queue m >>= λ a. returns (after_enqueue s p m (reads r array) a)
produce s p (stops e) = returns s

abbrev pub after_dequeue : System → ℕ → Sink → MemoryMessageQueue × Dequeued → System
after_dequeue s c w (q, failed e) = record s {
  queue = q;
  consumers = set s.consumers c (finds_none e w);
}
after_dequeue s c w (q, got m) = record s {
  queue = q;
  consumers = set s.consumers c (writes m w);
  taken = s.taken ++ ((c, m) ∷ []);
}

abbrev pub after_write : Option IoError × Sink → Consuming
after_write (none, w) = asks w
after_write (some e, w) = breaks e w

abbrev pub consume : System → ℕ → Consuming → System
consume s c (asks w) = after_dequeue s c w (dequeue s.queue)
consume s c (writes m w) = record s {
  consumers = set s.consumers c (after_write (write_frame w m));
}
consume s c (finds_none e w) = s
consume s c (breaks e w) = s

-- A handler that has returned has no turn: nothing happens.
unfoldable pub turn : System → Turn → Go System
turn s (producer p) = produce s p (s.producers p)
turn s (consumer c) = returns (consume s c (s.consumers c))

unfoldable pub run : System → List Turn → Go System
run s [] = returns s
run s (t ∷ ts) = turn s t >>= λ s'. run s' ts
