-- ===== src/Tests/Broker.antt =====
-- The broker on concrete connections (internal/broker).
use message_queue.Prelude.{
  true, ◌-◌, ◌≡◌, ◌≢◌, refl, some, List, [], ◌∷◌, ◌++◌, length, take, arith,
}
use message_queue.Prelude.Go.{returns, panics}
use message_queue.Prelude.Sub.{done}
use message_queue.Prelude.Text.{codes, text_eq}
use message_queue.Prelude.Dict.{put, get}
use message_queue.Protocol.{
  Bytes, eof, unexpected_eof, broken, Sink, Source, read_frame, read_full, no_frame, put_uint32,
}
use message_queue.Protocol.RoundTrip.{frame}
use message_queue.Broker.Channel.{with_waited, make_chan}
use message_queue.Broker.Queue.{MemoryMessageQueue}
use message_queue.Broker.Queue.Fifo.{holds, view, IsValid}
use message_queue.Broker.Queue.History.{Call, enqueues, dequeues, run, Runs, memory-Runs}
use message_queue.Broker.Queue.Interface.{memory, memory_laws}
use message_queue.Broker.Registry.{
  Store, Registry, update, channels, register_consumer, unregister_consumer, send_all,
}
use message_queue.Broker.Registry.Lifecycle.{
  shut_chan, register_consumer-IsValid, unregister_consumer-IsValid, close_all_lem,
}
use message_queue.Broker.Registry.Lifecycle as Lifecycle
use message_queue.Broker.Registry.Race.{send_all_race}
use message_queue.Broker.Registry.Subscribers.{
  System, registers, broadcasts, apply, set, Enabled, Reaches, here, step, Ok, Steps,
}
use message_queue.Broker.Registry.Subscribers.Safety.{Reaches-Steps}
use message_queue.Broker.Mode.{queue}
use message_queue.Broker.Handlers.{
  Broker, Order, out_of_fuel, write_failed, handle_producer, handle_consumer_queue,
}
use message_queue.Broker.Producing.{
  deliver_all, ends, frames, handle_producer-frames, handle_producer-ne-out_of_fuel,
}
use message_queue.Broker.Consuming.{after_frames, handle_consumer_queue_loses}
use message_queue.Broker.Handlers.{deliver, drain_channel, waits}
use message_queue.Broker.Mode.{broadcast}
use message_queue.Broker.Subscribing.{emptied, deliver-drain_channel}

abbrev m1 : Bytes
m1 = b'a' ∷ []

abbrev m2 : Bytes
m2 = b'b' ∷ b'c' ∷ []

-- An empty queue for two messages.
abbrev two : MemoryMessageQueue
two = record { queue = some (make_chan 2); size = 2 }

abbrev one_waits : MemoryMessageQueue
one_waits = record { queue = some (record (make_chan 2) { buffer = m1 ∷ [] }); size = 2 }

two-IsValid : IsValid two
two-IsValid = record { positive = omega arith; chan = (refl, refl, omega arith) }

one_waits-IsValid : IsValid one_waits
one_waits-IsValid = record { positive = omega arith; chan = (refl, refl, omega arith) }

abbrev calls : List Call
calls = enqueues m1 ∷ enqueues m2 ∷ dequeues ∷ []

memory-Runs_example : Runs memory_laws two (run memory two calls)
memory-Runs_example = memory-Runs two calls two-IsValid

-- A broker in queue mode, and one with a message that waits.
abbrev in_map_order : Order
in_map_order = channels

abbrev broker_of : MemoryMessageQueue → Broker
broker_of q = record { mode = queue; store = λ _. make_chan 3; registry = []; messages = q }

abbrev stream : Source
stream = record { pending = frames (m1 ∷ m2 ∷ []) ++ (0 ∷ []); ending = eof }

cut_stream :
    (a : Bytes)
    → (read_frame (record { pending = 0 ∷ []; ending = eof }) a).error ≡ some unexpected_eof
unfolding read_frame read_full no_frame
cut_stream a = refl

handle_producer-frames_example :
    handle_producer in_map_order 20 (broker_of two) stream []
    ≡ ends unexpected_eof (deliver_all in_map_order (broker_of two) (m1 ∷ m2 ∷ []))
unfolding put_uint32
handle_producer-frames_example =
    handle_producer-frames in_map_order (m1 ∷ m2 ∷ []) (0 ∷ []) eof unexpected_eof 20
      (broker_of two) [] (omega arith, (omega arith, tt)) (omega arith) cut_stream

handle_producer-ne-out_of_fuel_example :
    handle_producer in_map_order 20 (broker_of two) stream [] ≢ out_of_fuel
unfolding put_uint32
handle_producer-ne-out_of_fuel_example =
    handle_producer-ne-out_of_fuel in_map_order 20 (broker_of two) stream [] (omega arith)

abbrev wide : Sink
wide = record { written = []; room = 100 }

abbrev narrow : Sink
narrow = record { written = []; room = 4 }

handle_consumer_queue_loses_example :
    (q : MemoryMessageQueue) × (w' : Sink) × (view q ≡ holds [])
    × (w'.written
        ≡ (narrow.written ++ frames []) ++ take (narrow.room - length (frames [])) (frame m1))
    × (handle_consumer_queue 5 (broker_of one_waits) narrow
        ≡ write_failed (broken 0) (record (broker_of one_waits) { messages = q }) w')
unfolding put_uint32
handle_consumer_queue_loses_example =
    handle_consumer_queue_loses 5 (broker_of one_waits) narrow [] [] m1 (omega arith)
      one_waits-IsValid refl (omega arith) (omega arith)

-- Three channels: one without a buffer, whose receiver waits, one that is full, and one with room.
abbrev store : Store
store =
    update (update (λ _. make_chan 3) 1 (with_waited true (make_chan 0))) 2
      (record (make_chan 1) { buffer = m1 ∷ [] })

abbrev registry : Registry
registry = (codes "a", 1) ∷ (codes "b", 3) ∷ []

registry-IsValid : Lifecycle.IsValid store registry
unfolding text_eq
registry-IsValid = record {
  keys = ((refl, tt), (tt, tt));
  distinct = (refl, (refl, tt));
  live = (refl, (refl, tt));
}

found : get registry (codes "b") ≡ some 3
unfolding get text_eq
found = refl

send_all_race_example :
    (after : Store) × (rest : Registry) × (unregister_consumer store registry (codes "b")
      ≡ returns (after, rest))
    × (send_all after (1 ∷ 3 ∷ []) m1 ≡ panics)
send_all_race_example =
    send_all_race store registry (codes "b") 3 (1 ∷ []) [] m1 registry-IsValid found refl (refl, tt)
      (refl, tt) (refl, tt)

abbrev empty : System
empty = record { store = λ _. make_chan 0; registry = []; taken = λ _. []; log = [] }

abbrev joined : System
joined = record {
  store = update empty.store 1 (make_chan 2);
  registry = register_consumer [] (codes "a") 1;
  taken = set empty.taken 1 [];
  log = [];
}

empty-Ok : Ok empty
empty-Ok = record { valid = record { keys = tt; distinct = tt; live = tt }; in_order = λ x. done }

joins : Reaches empty joined
unfolding apply
joins = step empty joined (registers (codes "a") 1 2) here (tt, refl) refl

may_broadcast : Enabled joined (broadcasts (1 ∷ []) m1)
unfolding register_consumer put
may_broadcast = ((refl, tt), (refl, tt))

Reaches-Steps_example : Ok joined × Steps joined (broadcasts (1 ∷ []) m1)
Reaches-Steps_example = Reaches-Steps (broadcasts (1 ∷ []) m1) empty-Ok joins may_broadcast

abbrev fan_out : Broker
fan_out = record { mode = broadcast; store = λ _. make_chan 3; registry = registry; messages = two }

deliver-drain_channel_example :
    (b' : Broker) × (deliver channels fan_out m2 ≡ returns b')
    × (drain_channel b' (codes "b") 3 wide
        ≡ waits (emptied b' 3) (after_frames wide ((fan_out.store 3).buffer ++ (m2 ∷ []))))
unfolding put_uint32
deliver-drain_channel_example =
    deliver-drain_channel channels fan_out m2 (codes "b") 3 wide refl (refl, (refl, tt))
      (refl, (refl, tt)) (refl, (refl, tt)) refl refl (omega arith)
