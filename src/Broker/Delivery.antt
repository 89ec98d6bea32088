-- ===== src/Broker/Delivery.antt =====
-- A producer's connection and then a consumer's, in delivery mode `queue`.
use message_queue.Prelude.{
  ◌≤◌, ◌<◌, ◌≡◌, ap, ◌∙◌, List, [], ◌++◌, append-nil, length, take, length-take, All, arith,
}
use message_queue.Protocol.{Bytes, eof, Source, Sink}
use message_queue.Protocol.Outcomes.{ends_eof}
use message_queue.Broker.Mode.{queue}
use message_queue.Broker.Role.{producer_line, consumer_line, read_role-known_line}
use message_queue.Broker.Queue.{MemoryMessageQueue, queue_empty}
use message_queue.Broker.Queue.Fifo.{holds, view, IsValid}
use message_queue.Broker.Handlers.{
  Broker, Env, closed, no_more, served, drained, producer_buffer, handle_producer,
  handle_consumer_queue, dispatch, handle_consumer, handle_conn,
}
use message_queue.Broker.Producing.{deliver_all, frames, ends, Fits, handle_producer-frames}
use message_queue.Broker.Queueing.{deliver_all-Queued}
use message_queue.Broker.Consuming.{after_frames, handle_consumer_queue_drains}

-- What a connection sends: the line with its role, and what follows.
abbrev pub says : Bytes → Bytes → Source
says role rest = record { pending = role ++ rest; ending = eof }

handle_conn-producer :
    (env : Env) (b : Broker) (rest : Bytes) (w : Sink)
    → handle_conn env b (says producer_line rest) w
      ≡ served (
          handle_producer env.order env.fuel b
            (record { pending = rest; ending = eof })
            producer_buffer)
unfolding handle_conn
handle_conn-producer env b rest w = ap (dispatch env b w) (read_role-known_line rest eof).0

handle_conn-consumer :
    (env : Env) (b : Broker) (rest : Bytes) (w : Sink)
    → b.mode ≡ queue
    → handle_conn env b (says consumer_line rest) w ≡ drained (handle_consumer_queue env.fuel b w)
unfolding handle_conn handle_consumer
handle_conn-consumer env b rest w mode =
    ap (dispatch env b w) (read_role-known_line rest eof).1 ∙ rw mode

-- In queue mode, with a valid queue, a producer connects, sends messages of a megabyte at most and
-- closes; then a consumer connects. The producer's handler ends at the end of its stream. The
-- consumer is sent, in their order, the frames of the messages that waited before and of the
-- producer's, up to the size of the queue, if its connection takes them; then its handler ends with
-- an empty queue. More rounds than the producer sends bytes and than the queue has places are
-- enough.
pub handle_conn_delivers :
    (env : Env) (b : Broker) (waiting ms : List Bytes) (rest : Bytes) (w₁ w₂ : Sink)
    → b.mode ≡ queue
    → IsValid b.messages
    → view b.messages ≡ holds waiting
    → length waiting ≤ b.messages.size
    → All Fits ms
    → length (frames ms) < env.fuel
    → b.messages.size < env.fuel
    → length (frames (take b.messages.size (waiting ++ ms))) ≤ w₂.room
    → (q q' : MemoryMessageQueue) × (view q' ≡ holds [])
      × (handle_conn env b (says producer_line (frames ms)) w₁
          ≡ served (closed eof (record b { messages = q })))
      × (handle_conn env (record b { messages = q }) (says consumer_line rest) w₂
          ≡ drained (
              no_more queue_empty
                (record b { messages = q' })
                (after_frames w₂ (take b.messages.size (waiting ++ ms)))))
handle_conn_delivers env b waiting ms rest w₁ w₂ mode v h fit fits fuel₁ fuel₂ room =
    let d = deliver_all-Queued env.order b waiting ms mode v h fit in
    let sent = take b.messages.size (waiting ++ ms) in
    let (q', nothing_left, run) =
      handle_consumer_queue_drains env.fuel (record b { messages = d.messages }) w₂ sent
        (ground (arith, length-take b.messages.size (waiting ++ ms))) d.valid d.contents room in
    let accepted : handle_producer env.order env.fuel b
          (record { pending = frames ms; ending = eof }) producer_buffer
        ≡ ends eof (deliver_all env.order b ms) =
      rw (append-nil (frames ms)) at (
        handle_producer-frames env.order ms [] eof eof env.fuel b producer_buffer fits
          (rw (append-nil (frames ms)) fuel₁) ends_eof) in
    (
      d.messages,
      q',
      nothing_left,
      handle_conn-producer env b (frames ms) w₁ ∙ ap served (accepted ∙ rw d.eq),
      handle_conn-consumer env (record b { messages = d.messages }) rest w₂ mode ∙ ap drained run,
    )
