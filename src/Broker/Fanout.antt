-- ===== src/Broker/Fanout.antt =====
-- Many connections at once, in delivery mode `broadcast` (`handleProducer` and
-- `handleConsumerBroadcast` of internal/broker/broker.go, `BroadcastMessage` of
-- internal/broker/consumer_registry.go), while no consumer registers or unregisters. A turn is what a
-- handler does up to its next use of a channel, of the reader or of the writer, so a broadcast can be
-- interrupted between two channels.
pub mod Safety
pub mod Sending
pub mod Taking
pub mod Runs
pub mod Start
pub mod Alone
pub mod Consumer
use message_queue.Prelude.{ℕ, true, false, Option, none, some, List, [], ◌∷◌, ◌++◌}
use message_queue.Prelude.Go.{Go, returns, panics, ◌>>=◌}
use message_queue.Prelude.Family.{set}
use message_queue.Protocol.{Bytes, IoError, Source, Sink, FrameRead, read_frame, write_frame}
use message_queue.Broker.Channel.{
  Chan, offer, Received, message, ended, nothing, await, with_waited,
}
use message_queue.Broker.Registry.{Ref, Store, update}

-- Where a producer's handler stands: before `ReadFrame`, before its next send of a message, with the
-- channels that are left, or it has returned.
pub data Producing : Type 0 where
  reads : Source → Bytes → Producing
  sends : Bytes → List Ref → Source → Bytes → Producing
  stops : IoError → Producing

-- Where a consumer's handler stands: before its next receive, before `WriteFrame`, or before
-- `UnregisterConsumer`, behind a closed channel or a failed write.
pub data Consuming : Type 0 where
  waits : Sink → Consuming
  writes : Bytes → Sink → Consuming
  leaves : Sink → Consuming
  breaks : IoError → Sink → Consuming

-- A consumer goes by its channel. `sent` is what was sent to a channel, with the producer that sent
-- it, and `taken` what its consumer received. The code does not keep these two.
pub record System : Type 0 where
  pub store : Store
  pub producers : ℕ → Producing
  pub consumers : Ref → Consuming
  pub sent : Ref → List (ℕ × Bytes)
  pub taken : Ref → List Bytes

-- `order` is the order in which the map is read, where the turn starts a broadcast.
pub data Turn : Type 0 where
  producer : ℕ → List Ref → Turn
  consumer : Ref → Turn

abbrev pub after_read : List Ref → FrameRead → Producing
after_read order f = elim f.error [ some e ↦ stops e | none ↦ sends f.body order f.source f.array ]

-- A full channel ends the broadcast, with an error that is logged only.
abbrev pub after_send : System → ℕ → Ref → Bytes → List Ref → Source → Bytes → Option Chan → System
after_send s p ch m todo r array none = record s { producers = set s.producers p (reads r array) }
after_send s p ch m todo r array (some c) = record s {
  store = update s.store ch c;
  producers = set s.producers p (sends m todo r array);
  sent = set s.sent ch (s.sent ch ++ ((p, m) ∷ []));
}

abbrev pub produce : System → ℕ → List Ref → Producing → Go System
produce s p order (reads r array) =
    returns (record s { producers = set s.producers p (after_read order (read_frame r array)) })
produce s p order (sends m [] r array) =
    returns (record s { producers = set s.producers p (reads r array) })
produce s p order (sends m (ch ∷ todo) r array) =
    offer (s.store ch) m >>= λ c. returns (after_send s p ch m todo r array c)
produce s p order (stops e) = returns s

abbrev pub after_take : System → Ref → Sink → Received → System
after_take s ch w (message m c) = record s {
  store = update s.store ch c;
  consumers = set s.consumers ch (writes m w);
  taken = set s.taken ch (s.taken ch ++ (m ∷ []));
}
after_take s ch w ended = record s {
  store = update s.store ch (with_waited false (s.store ch));
  consumers = set s.consumers ch (leaves w);
}
after_take s ch w nothing = record s { store = update s.store ch (with_waited true (s.store ch)) }

abbrev pub after_write : Option IoError × Sink → Consuming
after_write (none, w) = waits w
after_write (some e, w) = breaks e w

abbrev pub consume : System → Ref → Consuming → System
consume s ch (waits w) = after_take s ch w (await (s.store ch))
consume s ch (writes m w) = record s {
  consumers = set s.consumers ch (after_write (write_frame w m));
}
consume s ch (leaves w) = s
consume s ch (breaks e w) = s

unfoldable pub turn : System → Turn → Go System
turn s (producer p order) = produce s p order (s.producers p)
turn s (consumer ch) = returns (consume s ch (s.consumers ch))

unfoldable pub run : System → List Turn → Go System
run s [] = returns s
run s (t ∷ ts) = turn s t >>= λ s'. run s' ts
