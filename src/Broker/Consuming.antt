-- ===== src/Broker/Consuming.antt =====
-- A consumer's connection in delivery mode `queue`.
use message_queue.Prelude.{
  ℕ, zero, suc, ◌+◌, ◌-◌, ◌≤◌, ◌<◌, ◌≡◌, refl, ap, ◌∙◌, none, some, List, [], ◌∷◌, ◌++◌,
  append_assoc, append-nil, length, length-append, take, arith, false, leb, lt→leb_false,
}
use message_queue.Protocol.{Bytes, IoError, broken, Sink, write_frame}
use message_queue.Protocol.RoundTrip.{frame, length-frame, write_frame-ok, write_frame_lem}
use message_queue.Broker.Queue.{MemoryMessageQueue, QueueError, queue_empty, got, failed, dequeue}
use message_queue.Broker.Queue.Fifo.{holds, view, IsValid, dequeue_refines, dequeue-IsValid}
use message_queue.Broker.Handlers.{Broker, no_more, write_failed, handle_consumer_queue}
use message_queue.Broker.Producing.{frames}

-- What one round of a consumer's handler does with the first waiting message.
record Taken (b : Broker) (m : Bytes) (ms : List Bytes) : Type 0 where
  left : MemoryMessageQueue
  answer : dequeue b.messages ≡ (left, got m)
  valid : IsValid left
  contents : view left ≡ holds ms

take_one :
    (b : Broker) (m : Bytes) (ms : List Bytes)
    → IsValid b.messages
    → view b.messages ≡ holds (m ∷ ms)
    → Taken b m ms
take_one b m ms v h =
    let (hv, hd) = dequeue_refines b.messages v in
    record {
      left = (dequeue b.messages).0;
      answer = ground arith;
      valid = (dequeue-IsValid b.messages v).0;
      contents = hv ∙ rw h;
    }

pub sent_step :
    (n : ℕ) (b : Broker) (w w' : Sink) (m : Bytes) (q : MemoryMessageQueue)
    → dequeue b.messages ≡ (q, got m)
    → write_frame w m ≡ (none, w')
    → handle_consumer_queue (suc n) b w ≡ handle_consumer_queue n (record b { messages = q }) w'
unfolding handle_consumer_queue
sent_step n b w w' m q h k = ground arith

-- The connection after the frames of `sent`.
abbrev pub after_frames : Sink → List Bytes → Sink
after_frames w sent = record {
  written = w.written ++ frames sent;
  room = w.room - length (frames sent);
}

pub length-frames_cons :
    (m : Bytes) (ms : List Bytes) → length (frames (m ∷ ms)) ≡ length (frame m) + length (frames ms)
length-frames_cons m ms = length-append (frame m) (frames ms)

pub after_frames-cons :
    (w : Sink) (m : Bytes) (sent : List Bytes)
    → after_frames (after_frames w (m ∷ [])) sent ≡ after_frames w (m ∷ sent)
after_frames-cons w m sent =
    let room : w.room - length (frame m) - length (frames sent)
        ≡ w.room - length (frame m ++ frames sent) =
      omega (arith, length-append (frame m) (frames sent)) in
    rw (append-nil (frame m), append_assoc w.written (frame m) (frames sent), room)

-- While its connection takes them, a consumer of queue mode is sent the frames of the waiting
-- messages in their order, and each message leaves the queue.
handle_consumer_queue-frames :
    (n fuel : ℕ) (b : Broker) (w : Sink) (sent ms : List Bytes)
    → n ≡ length sent + fuel
    → IsValid b.messages
    → view b.messages ≡ holds (sent ++ ms)
    → length (frames sent) ≤ w.room
    → (q : MemoryMessageQueue) × IsValid q
      × (view q ≡ holds ms)
      × (handle_consumer_queue n b w
          ≡ handle_consumer_queue fuel (record b { messages = q }) (after_frames w sent))
handle_consumer_queue-frames n fuel b w [] ms e v h room =
    let e' : n ≡ fuel = omega arith in
    (
      b.messages,
      v,
      h,
      rw (append-nil w.written, e')
          (ap (λ (k : ℕ). handle_consumer_queue fuel b (record w { room = k })) (omega arith)),
    )
handle_consumer_queue-frames zero fuel b w (m ∷ sent) ms e v h room = absurd (omega arith)
handle_consumer_queue-frames (suc n) fuel b w (m ∷ sent) ms e v h room =
    let t = take_one b m (sent ++ ms) v h in
    let wrote : write_frame w m ≡ (none, after_frames w (m ∷ [])) =
      rw (append-nil (frame m))
        (write_frame-ok w m (omega (arith, length-frames_cons m sent, length-frame m))) in
    let (q, valid, contents, rest) =
      handle_consumer_queue-frames n fuel (record b { messages = t.left }) (after_frames w (m ∷ []))
        sent ms (omega arith) t.valid t.contents
        (rw (append-nil (frame m)) (omega (arith, length-frames_cons m sent))) in
    (
      q,
      valid,
      contents,
      sent_step n b w (after_frames w (m ∷ [])) m t.left t.answer wrote
          ∙ rest
          ∙ rw (after_frames-cons w m sent),
    )

dequeue_empty :
    (b : Broker)
    → IsValid b.messages
    → view b.messages ≡ holds []
    → (q : MemoryMessageQueue) × (dequeue b.messages ≡ (q, failed queue_empty))
      × (view q ≡ holds [])
dequeue_empty b v h =
    let (hv, hd) = dequeue_refines b.messages v in ((dequeue b.messages).0, ground arith, hv ∙ rw h)

pub failed_step :
    (n : ℕ) (b : Broker) (w : Sink) (q : MemoryMessageQueue) (e : QueueError)
    → dequeue b.messages ≡ (q, failed e)
    → handle_consumer_queue (suc n) b w ≡ no_more e (record b { messages = q }) w
unfolding handle_consumer_queue
failed_step n b w q e h = ground arith

-- With a valid queue and a connection that takes everything, a consumer of queue mode gets exactly
-- the frames of the messages that wait, in their order. Then the handler finds the queue empty and
-- ends: it does not wait for more. More rounds than messages are enough.
pub handle_consumer_queue_drains :
    (n : ℕ) (b : Broker) (w : Sink) (ms : List Bytes)
    → length ms < n
    → IsValid b.messages
    → view b.messages ≡ holds ms
    → length (frames ms) ≤ w.room
    → (q : MemoryMessageQueue) × (view q ≡ holds [])
      × (handle_consumer_queue n b w
          ≡ no_more queue_empty (record b { messages = q }) (after_frames w ms))
handle_consumer_queue_drains n b w ms h v c room =
    let e : n ≡ length ms + suc (n - length ms - 1) = omega arith in
    let (q, valid, contents, run) =
      handle_consumer_queue-frames n (suc (n - length ms - 1)) b w ms [] e v (rw (append-nil ms) c)
        room in
    let (q', answer, nothing_left) = dequeue_empty (record b { messages = q }) valid contents in
    (
      q',
      nothing_left,
      run
          ∙ failed_step (n - length ms - 1) (record b { messages = q }) (after_frames w ms) q'
              queue_empty answer,
    )

pub broken_step :
    (n : ℕ) (b : Broker) (w w' : Sink) (m : Bytes) (q : MemoryMessageQueue) (e : IoError)
    → dequeue b.messages ≡ (q, got m)
    → write_frame w m ≡ (some e, w')
    → handle_consumer_queue (suc n) b w ≡ write_failed e (record b { messages = q }) w'
unfolding handle_consumer_queue
broken_step n b w w' m q e h k = ground arith

-- A connection that breaks while `m` is written, with a valid queue: the messages in front were
-- sent, those behind still wait, and `m` itself is lost, since it has left the queue and was not
-- written whole.
pub handle_consumer_queue_loses :
    (n : ℕ) (b : Broker) (w : Sink) (sent ms : List Bytes) (m : Bytes)
    → length sent < n
    → IsValid b.messages
    → view b.messages ≡ holds (sent ++ (m ∷ ms))
    → length (frames sent) ≤ w.room
    → w.room < length (frames sent) + length (frame m)
    → (q : MemoryMessageQueue) × (w' : Sink) × (view q ≡ holds ms)
      × (w'.written ≡ (w.written ++ frames sent) ++ take (w.room - length (frames sent)) (frame m))
      × (handle_consumer_queue n b w ≡ write_failed (broken 0) (record b { messages = q }) w')
handle_consumer_queue_loses n b w sent ms m h v c room cut =
    let e : n ≡ length sent + suc (n - length sent - 1) = omega arith in
    let (q, valid, contents, run) =
      handle_consumer_queue-frames n (suc (n - length sent - 1)) b w sent (m ∷ ms) e v c room in
    let t = take_one (record b { messages = q }) m ms valid contents in
    let w' : Sink = record {
      written = (after_frames w sent).written ++ take (after_frames w sent).room (frame m);
      room = 0;
    } in
    let no_room : leb (4 + length m) (w.room - length (frames sent)) ≡ false =
      lt→leb_false (4 + length m) (w.room - length (frames sent)) (omega (arith, length-frame m)) in
    let wrote : write_frame (after_frames w sent) m ≡ (some (broken 0), w') =
      write_frame_lem (after_frames w sent) m ∙ rw no_room in
    (
      t.left,
      w',
      t.contents,
      refl,
      run
          ∙ broken_step (n - length sent - 1) (record b { messages = q }) (after_frames w sent) w' m
              t.left (broken 0) t.answer wrote,
    )
