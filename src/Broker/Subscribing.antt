-- ===== src/Broker/Subscribing.antt =====
-- A consumer's connection in delivery mode `broadcast`.
use message_queue.Prelude.{
  ◌-◌, ◌≤◌, ◌≡◌, refl, ap, ◌∙◌, not, true, false, none, List, [], ◌∷◌, ◌++◌, append-nil, length,
  arith,
}
use message_queue.Prelude.Go.{returns}
use message_queue.Prelude.Text.{Text}
use message_queue.Protocol.{Bytes, Sink, write_frame}
use message_queue.Protocol.RoundTrip.{frame, length-frame, write_frame-ok}
use message_queue.Broker.Mode.{broadcast}
use message_queue.Broker.Registry.{Ref, Store, update, broadcast_message}
use message_queue.Broker.Registry.Broadcast.{
  elem, reached, appended, IsDistinct, AreOpen, send_all-Broadcasts,
}
use message_queue.Broker.Registry.Race.{HaveRoom}
use message_queue.Broker.Handlers.{Broker, Order, deliver, pump, waits, after_pump, drain_channel}
use message_queue.Broker.Producing.{frames}
use message_queue.Broker.Consuming.{after_frames, after_frames-cons, length-frames_cons}

pump_step :
    (m : Bytes) (ms : List Bytes) (w w' : Sink)
    → write_frame w m ≡ (none, w')
    → pump (m ∷ ms) w ≡ pump ms w'
unfolding pump
pump_step m ms w w' h = ground arith

-- While the connection takes them, the messages in the channel are written in their order.
pub pump-frames :
    (ms : List Bytes) (w : Sink)
    → length (frames ms) ≤ w.room
    → pump ms w ≡ record { left = []; sink = after_frames w ms; error = none }
unfolding pump
pump-frames [] w h = let e : w.room - 0 ≡ w.room = omega arith in rw (append-nil w.written, e)
pump-frames (m ∷ ms) w h =
    let wrote : write_frame w m ≡ (none, after_frames w (m ∷ [])) =
      rw (append-nil (frame m))
        (write_frame-ok w m (omega (arith, length-frames_cons m ms, length-frame m))) in
    pump_step m ms w (after_frames w (m ∷ [])) wrote
    ∙ pump-frames ms (after_frames w (m ∷ []))
        (rw (append-nil (frame m)) (omega (arith, length-frames_cons m ms)))
    ∙ rw (after_frames-cons w m ms)

-- The broker after a consumer has taken all that was in its channel.
abbrev pub emptied : Broker → Ref → Broker
emptied b ch = record b {
  store = update b.store ch (record (b.store ch) { buffer = []; waited = not (b.store ch).closed });
}

drain_channel_open :
    (b : Broker) (id : Text) (ch : Ref) (w : Sink) (ms : List Bytes)
    → (b.store ch).buffer ≡ ms
    → (b.store ch).closed ≡ false
    → length (frames ms) ≤ w.room
    → drain_channel b id ch w ≡ waits (emptied b ch) (after_frames w ms)
unfolding drain_channel
drain_channel_open b id ch w ms h live room =
    let p : pump (b.store ch).buffer w
        ≡ record { left = []; sink = after_frames w ms; error = none } =
      rw h (pump-frames ms w room) in
    ap (after_pump b id ch) p ∙ simp live

reached-HaveRoom : (s : Store) (rs : List Ref) → HaveRoom s rs → reached s rs ≡ rs
unfolding reached
reached-HaveRoom s [] h = refl
reached-HaveRoom s (r ∷ rs) h = rw (h.0, reached-HaveRoom s rs h.1)

-- In broadcast mode, a message that a producer sends while every channel is open and has room, and
-- the map lists each once, reaches a consumer whose channel is among those: the consumer is then
-- sent the frames of what waited in its channel, and the message's frame behind them, if its
-- connection takes them, and goes on waiting.
pub deliver-drain_channel :
    (order : Order) (b : Broker) (m : Bytes) (id : Text) (ch : Ref) (w : Sink)
    → b.mode ≡ broadcast
    → IsDistinct (order b.registry)
    → AreOpen b.store (order b.registry)
    → HaveRoom b.store (order b.registry)
    → elem ch (order b.registry) ≡ true
    → (b.store ch).closed ≡ false
    → length (frames ((b.store ch).buffer ++ (m ∷ []))) ≤ w.room
    → (b' : Broker) × (deliver order b m ≡ returns b')
      × (drain_channel b' id ch w
          ≡ waits (emptied b' ch) (after_frames w ((b.store ch).buffer ++ (m ∷ []))))
unfolding deliver broadcast_message
deliver-drain_channel order b m id ch w mode d o room among live fits =
    let sent = send_all-Broadcasts b.store (order b.registry) m d o in
    let b' : Broker = record b { store = sent.after } in
    let e : sent.after ch ≡ appended (b.store ch) m =
      sent.effect ch ∙ rw (reached-HaveRoom b.store (order b.registry) room, among) in
    (
      b',
      rw (mode, sent.eq),
      drain_channel_open b' id ch w ((b.store ch).buffer ++ (m ∷ [])) (rw e) (rw e live) fits,
    )
