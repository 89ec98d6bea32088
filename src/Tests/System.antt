-- ===== src/Tests/System.antt =====
-- A producer and two consumers on one queue (internal/broker).
use message_queue.Prelude.{ℕ, ◌≡◌, refl, some, List, [], ◌∷◌, ◌++◌, replicate, arith}
use message_queue.Prelude.Go.{returns}
use message_queue.Protocol.{Bytes, IoError, eof, Source, Sink, put_uint32}
use message_queue.Broker.Channel.{make_chan}
use message_queue.Broker.Mode.{queue}
use message_queue.Broker.Queue.{queue_empty}
use message_queue.Broker.Queue.Fifo.{IsValid, holds, view}
use message_queue.Broker.Registry.{channels}
use message_queue.Broker.Handlers.{Broker, handle_producer, handle_consumer_queue}
use message_queue.Broker.Producing.{frames}
use message_queue.Broker.System.Drains.{run-drains}
use message_queue.Broker.Consuming.{after_frames}
use message_queue.Prelude.Family.{of, all_of}
use message_queue.Prelude.Sub.{Sub}
use message_queue.Broker.System.Start.{start, run-start}
use message_queue.Broker.System.{
  reads, stops, asks, finds_none, System, Turn, producer, consumer, run,
}
use message_queue.Broker.System.Invariant.{Ok, Written}
use message_queue.Broker.System.Turns.{Goes, run-Goes}
use message_queue.Broker.System.Liveness.{run-stops}
use message_queue.Broker.System.Alone.{handle_producer-Alone}
use message_queue.Broker.System.Alone as Producer
use message_queue.Broker.System.Consumer.{handle_consumer_queue-Alone}
use message_queue.Broker.System.Consumer as Consumer

abbrev m1 : Bytes
m1 = b'a' ∷ []

abbrev stream : Source
stream = record { pending = frames (m1 ∷ m1 ∷ []); ending = eof }

abbrev sink : Sink
sink = record { written = []; room = 100 }

-- An empty queue for two messages, and connections that all send and take the same.
abbrev system : System
system = record {
  queue = record { queue = some (make_chan 2); size = 2 };
  producers = λ p. reads stream [];
  consumers = λ c. asks sink;
  accepted = [];
  taken = [];
}

system-IsValid : IsValid system.queue
system-IsValid = record { positive = omega arith; chan = (refl, refl, omega arith) }

system-Ok : Ok system
system-Ok = record {
  valid = system-IsValid;
  waiting = [];
  contents = refl;
  in_order = refl;
  written = λ c. refl;
}

abbrev turns : List Turn
turns =
    producer 0
    ∷ producer 0
    ∷ consumer 1
    ∷ producer 0
    ∷ consumer 1
    ∷ producer 0
    ∷ consumer 2
    ∷ consumer 2
    ∷ consumer 1
    ∷ producer 0
    ∷ []

run-Goes_example : Goes (run system turns)
run-Goes_example = run-Goes system turns system-Ok

-- More turns than a stream of ten bytes needs.
abbrev many : List Turn
many = turns ++ (turns ++ (turns ++ (turns ++ turns)))

run-stops_example :
    (t : System) × (e : IoError) × (run system many ≡ returns t) × (t.producers 0 ≡ stops e)
unfolding put_uint32
run-stops_example = run-stops system 0 many system-Ok (omega arith)

abbrev broker : Broker
broker = record { mode = queue; store = λ _. make_chan 3; registry = []; messages = system.queue }

handle_producer-Alone_example :
    Producer.Alone system 3 (handle_producer channels 20 broker stream []) broker
unfolding put_uint32
handle_producer-Alone_example =
    handle_producer-Alone channels 20 broker stream [] system 3 refl system-IsValid refl refl
      (omega arith)

handle_consumer_queue-Alone_example :
    Consumer.Alone system 4 broker (handle_consumer_queue 5 broker sink)
handle_consumer_queue-Alone_example = handle_consumer_queue-Alone 5 broker sink system 4 refl refl

-- A message of another producer waits, and consumer 1 is about to ask.
abbrev waiting : System
waiting = record system {
  queue = record { queue = some (record (make_chan 2) { buffer = m1 ∷ [] }); size = 2 };
  accepted = (5, m1) ∷ [];
}

waiting-Ok : Ok waiting
waiting-Ok = record {
  valid = record { positive = omega arith; chan = (refl, refl, omega arith) };
  waiting = m1 ∷ [];
  contents = refl;
  in_order = refl;
  written = λ c. refl;
}

run-drains_example :
    (n : ℕ) × (t : System) × (run waiting (replicate n (consumer 1)) ≡ returns t)
    × (t.consumers 1 ≡ finds_none queue_empty (after_frames sink (m1 ∷ [])))
    × (view t.queue ≡ holds [])
    × (all_of t.accepted ≡ all_of t.taken)
unfolding put_uint32 waiting-Ok
run-drains_example = run-drains waiting 1 sink waiting-Ok refl (omega arith)

run-start_example :
    (t : System) × (rest : List Bytes) × (run
        (start system.queue [] (λ p. m1 ∷ m1 ∷ []) (λ c. 100))
        turns
      ≡ returns t)
    × ((p : ℕ) → Sub (of p t.accepted) (m1 ∷ m1 ∷ []))
    × (view t.queue ≡ holds rest)
    × (all_of t.accepted ≡ all_of t.taken ++ rest)
    × ((c : ℕ) → Written (t.consumers c) (of c t.taken))
run-start_example =
    run-start system.queue [] (λ p. m1 ∷ m1 ∷ []) (λ c. 100) turns system-IsValid refl
      (λ p. (omega arith, (omega arith, tt)))
