-- ===== src/Broker/Shutdown.antt =====
-- `Broker.Close` (internal/broker/broker.go), and what the handlers that still run do after it.
use message_queue.Prelude.{ℕ, suc, ◌≤◌, ◌≡◌, refl, ap, ◌∙◌, true, none, [], length}
use message_queue.Prelude.Go.{returns}
use message_queue.Prelude.Dict.{get}
use message_queue.Prelude.Text.{Text}
use message_queue.Protocol.{Bytes, Sink}
use message_queue.Broker.Mode.{DeliveryMode, broadcast, queue, other}
use message_queue.Broker.Channel.{Chan}
use message_queue.Broker.Queue.{MemoryMessageQueue, queue_closed, enqueue, dequeue}
use message_queue.Broker.Queue.Fifo.{shut, view, IsValid, close-none}
use message_queue.Broker.Registry.{
  Ref, Store, channels, close_all, unregister_consumer, broadcast_message, send_all,
}
use message_queue.Broker.Registry.Broadcast.{elem}
use message_queue.Broker.Registry.Lifecycle as Lifecycle
use message_queue.Broker.Registry.Lifecycle.{shut_chan, close_all_lem}
use message_queue.Broker.Handlers.{
  Broker, Order, close, deliver, no_more, handle_consumer_queue, left, unsubscribe, after_pump,
  drain_channel,
}
use message_queue.Broker.Producing.{frames}
use message_queue.Broker.Consuming.{after_frames, failed_step}
use message_queue.Broker.Subscribing.{emptied, pump-frames}

-- A closed broker: its queue is closed and its registry is empty.
abbrev closed_broker : Broker → Store → MemoryMessageQueue → Broker
closed_broker b s q = record b { messages = record q { queue = none }; store = s; registry = [] }

deliver-closed :
    (order : Order) (b : Broker) (s : Store) (q : MemoryMessageQueue) (m : Bytes)
    (mode : DeliveryMode)
    → b.mode ≡ mode
    → order [] ≡ []
    → deliver order (closed_broker b s q) m ≡ returns (closed_broker b s q)
unfolding deliver enqueue broadcast_message send_all
deliver-closed order b s q m broadcast h o = rw (h, o)
deliver-closed order b s q m queue h o = rw h
deliver-closed order b s q m (other n) h o = rw h

drain_channel-closed :
    (b : Broker) (s : Store) (q : MemoryMessageQueue) (id : Text) (ch : Ref) (w : Sink)
    → (s ch).closed ≡ true
    → length (frames (s ch).buffer) ≤ w.room
    → drain_channel (closed_broker b s q) id ch w
      ≡ left (emptied (closed_broker b s q) ch) (after_frames w (s ch).buffer)
unfolding drain_channel unsubscribe unregister_consumer get
drain_channel-closed b s q id ch w h room =
    ap (after_pump (closed_broker b s q) id ch) (pump-frames (s ch).buffer w room) ∙ rw h

handle_consumer_queue-closed :
    (fuel : ℕ) (b : Broker) (s : Store) (q : MemoryMessageQueue) (w : Sink)
    → handle_consumer_queue (suc fuel) (closed_broker b s q) w
      ≡ no_more queue_closed (closed_broker b s q) w
unfolding dequeue
handle_consumer_queue-closed fuel b s q w =
    failed_step fuel (closed_broker b s q) w (record q { queue = none }) queue_closed refl

close-closed :
    (b : Broker) (s : Store)
    → IsValid b.messages
    → close_all b.store b.registry ≡ returns (s, [])
    → close b ≡ returns (closed_broker b s b.messages)
unfolding close
close-closed b s v h = rw (close-none b.messages v, h)

-- `Close` on a broker with a valid queue and a valid registry does not panic. Afterwards the queue is
-- closed and the registry empty; a producer's message changes nothing and makes no handler panic, in
-- any mode, if reading the empty map gives no channel; a consumer of queue mode is sent nothing and
-- its handler ends with the error of a closed queue; and a consumer of broadcast mode that was
-- registered is still sent what waits in its channel, if its connection takes it, and then leaves,
-- and its channel is not closed a second time.
pub close_lem :
    (order : Order) (b : Broker) (m : Bytes) (id : Text) (ch : Ref) (fuel : ℕ) (w₁ w₂ : Sink)
    → IsValid b.messages
    → Lifecycle.IsValid b.store b.registry
    → order [] ≡ []
    → elem ch (channels b.registry) ≡ true
    → length (frames (b.store ch).buffer) ≤ w₂.room
    → (b' : Broker) × (close b ≡ returns b')
      × (b'.registry ≡ [])
      × (view b'.messages ≡ shut)
      × (deliver order b' m ≡ returns b')
      × (handle_consumer_queue (suc fuel) b' w₁ ≡ no_more queue_closed b' w₁)
      × (drain_channel b' id ch w₂ ≡ left (emptied b' ch) (after_frames w₂ (b.store ch).buffer))
close_lem order b m id ch fuel w₁ w₂ v valid o registered room =
    let (s, closes, effect) = close_all_lem b.store b.registry valid.distinct valid.live in
    let e : s ch ≡ shut_chan (b.store ch) = effect ch ∙ rw registered in
    let drains = drain_channel-closed b s b.messages id ch w₂ (rw e) (rw e room) in
    (
      closed_broker b s b.messages,
      close-closed b s v closes,
      refl,
      refl,
      deliver-closed order b s b.messages m b.mode refl o,
      handle_consumer_queue-closed fuel b s b.messages w₁,
      drains
          ∙ ap
              (λ (c : Chan).
                left (emptied (closed_broker b s b.messages) ch) (after_frames w₂ c.buffer))
              e,
    )
