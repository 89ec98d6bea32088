-- ===== src/Tests/Concurrent.antt =====
-- A run of the broker with one message, and the store behind it (internal/broker, cmd/consumer).
use message_queue.Prelude.{ℕ, ◌+◌, ◌≡◌, refl, true, Option, none, some, List, [], ◌∷◌, arith}
use message_queue.Prelude.Go.{Go, returns}
use message_queue.Prelude.Int.{pos}
use message_queue.Prelude.Family.{set}
use message_queue.Protocol.{
  Bytes, eof, Sink, put_uint32, read_frame, read_full, read_body, uint32, write, write_frame,
}
use message_queue.Protocol.RoundTrip.{frame}
use message_queue.Broker.Channel.{make_chan, try_send, try_receive}
use message_queue.Broker.Queue.{MemoryMessageQueue, queue_empty, enqueue, dequeue}
use message_queue.Broker.Queue.Fifo.{IsValid}
use message_queue.Broker.System.{
  reads, delivers, asks, writes, finds_none, System, Turn, producer, consumer, turn, run,
}
use message_queue.Broker.System.Sent.{stream_of}
use message_queue.Broker.System.Start.{start}
use message_queue.Storage.{Clock, Collection, object}
use message_queue.Consumer.{Received, consume_loop}
use message_queue.Consumer.Storing.{Inserts, stops}
use message_queue.Pipeline.{reads_from}
use message_queue.Pipeline.Concurrent.{consume_loop-run}

abbrev two : MemoryMessageQueue
two = record { queue = some (make_chan 2); size = 2 }

two-IsValid : IsValid two
two-IsValid = record { positive = omega arith; chan = (refl, refl, omega arith) }

abbrev one : ℕ → List Bytes
one p = (7 ∷ []) ∷ []

abbrev begin : System
begin = start two [] one (λ c. 100)

-- Producer 0 sends its message, and consumer 1 takes it and then finds nothing.
abbrev turns : List Turn
turns = producer 0 ∷ producer 0 ∷ consumer 1 ∷ consumer 1 ∷ consumer 1 ∷ []

abbrev sink : Sink
sink = record { written = frame (7 ∷ []); room = 95 }

abbrev end : System
end = record {
  queue = two;
  producers =
      set (set begin.producers 0 (delivers (7 ∷ []) (stream_of []) [])) 0 (reads (stream_of []) []);
  consumers =
      set
        (set (set begin.consumers 1 (writes (7 ∷ []) (record { written = []; room = 100 }))) 1
          (asks sink))
        1 (finds_none queue_empty sink);
  accepted = (0, 7 ∷ []) ∷ [];
  taken = (1, 7 ∷ []) ∷ [];
}

runs : run begin turns ≡ returns end
unfolding run turn enqueue dequeue try_send try_receive read_frame read_full read_body uint32
    write_frame write put_uint32
runs = refl

-- A collection that counts its documents.
abbrev counting : Collection ℕ ℕ ℕ ℕ
counting = record {
  insert_one = λ c d. (c + 1, true);
  distinct = λ c field. none;
  count_documents = λ c f. some (pos c);
  find = λ c f o. none;
}

abbrev parse : Bytes → Option (Received ℕ ℕ)
parse b = some (record { payload = object []; timestamp = none })

-- A clock that goes on.
abbrev clock : ℕ → Clock ℕ
clock i = record { stamped = i + i; created = i + i + 1 }

consume_loop-run_example :
    (g : Go ℕ) × Inserts counting parse clock 0 0 ((7 ∷ []) ∷ []) g
    × (consume_loop counting parse clock 20 0 0 (reads_from sink) []
        ≡ stops counting parse clock eof g)
unfolding put_uint32
consume_loop-run_example =
    consume_loop-run counting parse clock two [] one (λ c. 100) turns end 1 queue_empty sink 20 0 0
      [] two-IsValid refl (λ p. (omega arith, tt)) runs refl (omega arith)
