-- ===== src/Broker/Handlers.antt =====
-- internal/broker/broker.go: the broker's state and its connection handlers. A handler is run here
-- from start to end with no other handler in between.
use message_queue.Prelude.{
  ℕ, zero, suc, Bool, false, not, Option, none, some, List, [], ◌∷◌, replicate, ◌*◌, if◌then◌else◌,
}
use message_queue.Prelude.Go.{Go, returns, panics, ◌>>=◌}
use message_queue.Prelude.Int.{ℤ, pos, negsuc}
use message_queue.Prelude.Text.{Text}
use message_queue.Protocol.{Bytes, IoError, Source, Sink, read_frame, write_frame}
use message_queue.Broker.Channel.{Chan, make_chan}
use message_queue.Broker.Queue.{
  MemoryMessageQueue, QueueError, Dequeued, got, failed, new_memory_message_queue, enqueue, dequeue,
}
use message_queue.Broker.Queue as Queue
use message_queue.Broker.Registry.{
  Ref, Store, update, Registry, new_broadcast_registry, register_consumer, unregister_consumer,
  broadcast_message, close_all,
}
use message_queue.Broker.Mode.{DeliveryMode, broadcast, queue, other}
use message_queue.Broker.Role.{Role, producer, consumer, unknown, read_role}

-- `store` holds the channels that the registry and the handlers share.
pub record Broker : Type 0 where
  pub mode : DeliveryMode
  pub store : Store
  pub registry : Registry
  pub messages : MemoryMessageQueue

pub new_broker : DeliveryMode → Broker
new_broker m = record {
  mode = m;
  store = λ _. make_chan 0;
  registry = new_broadcast_registry;
  messages = new_memory_message_queue (pos 10000);
}

-- `Close`: the queue first, then the registry. Neither field is nil in a broker from `NewBroker`.
unfoldable pub close : Broker → Go Broker
close b = do
  q ← Queue.close b.messages
  r ← close_all b.store b.registry
  returns (record b { messages = q; store = r.0; registry = r.1 })

-- The order in which a map of channels is read.
abbrev pub Order : Type 0
Order = Registry → List Ref

-- What `handleProducer` does with a message. Errors are logged and have no other effect.
unfoldable pub deliver : Order → Broker → Bytes → Go Broker
deliver order b body = elim b.mode [
  | broadcast ↦
      broadcast_message order b.store b.registry body >>= λ r. returns (record b { store = r.0 })
  | queue ↦ enqueue b.messages body >>= λ r. returns (record b { messages = r.0 })
  | other n ↦ returns b
]

-- How a producer's handler ends: by a read error, which it logs unless it is EOF, or in a panic.
-- `out_of_fuel` is no end of the program's.
pub data Served : Type 0 where
  closed : IoError → Broker → Served
  crashed out_of_fuel : Served

-- `array` is the buffer that every call of `ReadFrame` is given.
unfoldable pub handle_producer : Order → ℕ → Broker → Source → Bytes → Served
handle_producer order zero b r array = out_of_fuel
handle_producer order (suc fuel) b r array = elim (read_frame r array).error [
  | some e ↦ closed e b
  | none ↦ elim (deliver order b (read_frame r array).body) [
    | panics ↦ crashed
    | returns b' ↦
        handle_producer order fuel b' (read_frame r array).source (read_frame r array).array
  ]
]

-- How a consumer's handler of queue mode ends: the queue answers an error, or a write fails.
pub data Drained : Type 0 where
  no_more : QueueError → Broker → Sink → Drained
  write_failed : IoError → Broker → Sink → Drained
  out_of_fuel : Drained

unfoldable pub handle_consumer_queue : ℕ → Broker → Sink → Drained
handle_consumer_queue zero b w = out_of_fuel
handle_consumer_queue (suc fuel) b w =
    let b' = record b { messages = (dequeue b.messages).0 } in
    elim (dequeue b.messages).1 [
      | failed e ↦ no_more e b' w
      | got msg ↦ elim (write_frame w msg).0 [
        | some e ↦ write_failed e b' (write_frame w msg).1
        | none ↦ handle_consumer_queue fuel b' (write_frame w msg).1
      ]
    ]

-- `for msg := range ch` over what is in the channel: how many messages are written before it is
-- empty or a write fails.
pub record Pumped : Type 0 where
  pub left : List Bytes
  pub sink : Sink
  pub error : Option IoError

unfoldable pub pump : List Bytes → Sink → Pumped
pump [] w = record { left = []; sink = w; error = none }
pump (msg ∷ msgs) w = elim (write_frame w msg).0 [
  | some e ↦ record { left = msgs; sink = (write_frame w msg).1; error = some e }
  | none ↦ pump msgs (write_frame w msg).1
]

-- A consumer of broadcast mode either waits for more, or has left.
pub data Subscribed : Type 0 where
  waits : Broker → Sink → Subscribed
  left : Broker → Sink → Subscribed
  crashed : Subscribed

-- `make(chan []byte, n)` panics at a negative size.
abbrev pub make_chan_ℤ : ℤ → Go Chan
make_chan_ℤ (pos n) = returns (make_chan n)
make_chan_ℤ (negsuc n) = panics

-- The first half of `handleConsumerBroadcast`: a channel of `size`, registered under `id`. `ch` is
-- where the channel is allocated.
unfoldable pub subscribe : Broker → Text → Ref → ℤ → Go Broker
subscribe b id ch size = make_chan_ℤ size >>= λ c.
    returns
      (record b { store = update b.store ch c; registry = register_consumer b.registry id ch })

-- The deferred call of `UnregisterConsumer`.
unfoldable pub unsubscribe : Broker → Text → Go Broker
unsubscribe b id = unregister_consumer b.store b.registry id >>= λ r.
    returns (record b { store = r.0; registry = r.1 })

abbrev pub leave : Broker → Text → Sink → Subscribed
leave b id w = elim (unsubscribe b id) [ panics ↦ crashed | returns b' ↦ left b' w ]

-- Whether the loop waits for more.
abbrev pub goes_on : Option IoError → Bool → Bool
goes_on none shut = not shut
goes_on (some e) shut = false

abbrev pub after_pump : Broker → Text → Ref → Pumped → Subscribed
after_pump b id ch p =
    let c : Chan = record (b.store ch) {
      buffer = p.left;
      waited = goes_on p.error (b.store ch).closed;
    } in
    let b' = record b { store = update b.store ch c } in
    elim p.error [
      | some e ↦ leave b' id p.sink
      | none ↦ if (b.store ch).closed then leave b' id p.sink else waits b' p.sink
    ]

-- The second half: the loop over what the channel holds now, which goes on when more arrives.
unfoldable pub drain_channel : Broker → Text → Ref → Sink → Subscribed
drain_channel b id ch w = after_pump b id ch (pump (b.store ch).buffer w)

unfoldable pub handle_consumer_broadcast : Broker → Text → Ref → ℤ → Sink → Subscribed
handle_consumer_broadcast b id ch size w = elim (subscribe b id ch size) [
  | panics ↦ crashed
  | returns b' ↦ drain_channel b' id ch w
]

-- What the environment of a connection chooses: the order of the map, a UUID, the place of a new
-- channel, the configured size, and how many rounds a loop is watched for.
pub record Env : Type 0 where
  pub order : Order
  pub id : Text
  pub ch : Ref
  pub size : ℤ
  pub fuel : ℕ

pub data Handled : Type 0 where
  no_role : Handled
  bad_role : Text → Handled
  served : Served → Handled
  drained : Drained → Handled
  subscribed : Subscribed → Handled
  no_mode : Handled

unfoldable pub handle_consumer : Env → Broker → Sink → Handled
handle_consumer env b w = elim b.mode [
  | broadcast ↦ subscribed (handle_consumer_broadcast b env.id env.ch env.size w)
  | queue ↦ drained (handle_consumer_queue env.fuel b w)
  | other n ↦ no_mode
]

-- `make([]byte, 0, 64*1024)`.
pub producer_buffer : Bytes
producer_buffer = replicate (64 * 1024) 0

abbrev pub dispatch : Env → Broker → Sink → Option (Role × Source) → Handled
dispatch env b w none = no_role
dispatch env b w (some (producer, r)) =
    served (handle_producer env.order env.fuel b r producer_buffer)
dispatch env b w (some (consumer, r)) = handle_consumer env b w
dispatch env b w (some (unknown s, r)) = bad_role s

-- A connection is what is read from it and what is written to it.
unfoldable pub handle_conn : Env → Broker → Source → Sink → Handled
handle_conn env b r w = dispatch env b w (read_role r)
