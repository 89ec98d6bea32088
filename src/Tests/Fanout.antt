-- ===== src/Tests/Fanout.antt =====
-- Two broadcasts that interrupt each other (internal/broker).
use message_queue.Prelude.{ℕ, ◌≡◌, refl, List, [], ◌∷◌, ◌++◌, All, arith}
use message_queue.Prelude.Go.{returns}
use message_queue.Prelude.Family.{of, all_of}
use message_queue.Prelude.Sub.{Sub}
use message_queue.Protocol.{Bytes}
use message_queue.Broker.Channel.{make_chan}
use message_queue.Broker.Registry.{Ref, Store}
use message_queue.Broker.Fanout.{System, Turn, producer, consumer, run}
use message_queue.Broker.Fanout.Safety.{Written}
use message_queue.Broker.Fanout.Runs.{IsTurn}
use message_queue.Broker.Fanout.Start.{start, run-Sub}
use message_queue.Broker.Fanout.Consumer as Consumer
use message_queue.Broker.Fanout.Consumer.{drain_channel-Alone}
use message_queue.Broker.Fanout.Alone.{Alone, handle_producer-Alone_broadcast}
use message_queue.Broker.Mode.{broadcast}
use message_queue.Broker.Handlers.{Broker, handle_producer, drain_channel}
use message_queue.Broker.Queue.{new_memory_message_queue}
use message_queue.Prelude.Int.{pos}
use message_queue.Broker.Registry.{channels}
use message_queue.Protocol.{put_uint32}
use message_queue.Broker.System.Sent.{stream_of}

abbrev chans : List Ref
chans = 1 ∷ 2 ∷ []

abbrev store : Store
store = λ ch. make_chan 1

-- Each producer sends one message, and reads the map in its own order.
abbrev ms : ℕ → List Bytes
ms p = (p ∷ []) ∷ []

abbrev turns : List Turn
turns =
    producer 8 (1 ∷ 2 ∷ [])
    ∷ producer 9 (2 ∷ 1 ∷ [])
    ∷ producer 8 []
    ∷ producer 9 []
    ∷ producer 9 []
    ∷ consumer 1
    ∷ consumer 1
    ∷ producer 8 []
    ∷ consumer 2
    ∷ []

turns-IsTurn : All (IsTurn chans) turns
turns-IsTurn = (
  ((refl, (refl, tt)), (refl, (refl, tt))),
  (
    ((refl, (refl, tt)), (refl, (refl, tt))),
    ((tt, tt), ((tt, tt), ((tt, tt), (tt, (tt, ((tt, tt), (tt, tt))))))),
  ),
)

run-Sub_example :
    (t : System) × (run (start store [] ms (λ ch. 100)) turns ≡ returns t)
    × ((p : ℕ) (ch : Ref) → Sub (of p (t.sent ch)) (ms p))
    × ((ch : Ref) → all_of (t.sent ch) ≡ t.taken ch ++ (t.store ch).buffer)
    × ((ch : Ref) → Written (t.consumers ch) (t.taken ch))
run-Sub_example =
    run-Sub chans store [] ms (λ ch. 100) turns (refl, (refl, tt)) (λ ch. refl)
      (λ p. (omega arith, tt)) turns-IsTurn

-- Two consumers, with room for one message each, and a producer that sends two: the second one does not
-- go through.
abbrev broker : Broker
broker = record {
  mode = broadcast;
  store = store;
  registry = ((b'x' ∷ []), 1) ∷ ((b'y' ∷ []), 2) ∷ [];
  messages = new_memory_message_queue (pos 1);
}

abbrev two : ℕ → List Bytes
two p = (p ∷ []) ∷ (p ∷ []) ∷ []

handle_producer-Alone_broadcast_example :
    Alone 8 chans
      (start store [] two (λ ch. 100))
      broker
      (handle_producer channels 20 broker (stream_of (two 8)) [])
unfolding put_uint32
handle_producer-Alone_broadcast_example =
    handle_producer-Alone_broadcast channels 20 broker (stream_of (two 8)) []
      (start store [] two (λ ch. 100)) 8 refl refl refl (omega arith)

-- Two messages wait at a consumer whose connection takes the first one only.
abbrev waiting : Store
waiting = λ ch. record (make_chan 2) { buffer = (7 ∷ []) ∷ (8 ∷ []) ∷ [] }

drain_channel-Alone_example :
    Consumer.Alone
      (start waiting [] two (λ ch. 6))
      1
      (record broker { store = waiting })
      (b'x' ∷ [])
      (drain_channel
        (record broker { store = waiting })
        (b'x' ∷ [])
        1
        (record { written = []; room = 6 }))
drain_channel-Alone_example =
    drain_channel-Alone (record broker { store = waiting }) (b'x' ∷ []) 1
      (record { written = []; room = 6 }) (start waiting [] two (λ ch. 6)) refl refl
